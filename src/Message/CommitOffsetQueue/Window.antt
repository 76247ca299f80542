-- ===== src/Message/CommitOffsetQueue/Window.antt =====
-- The loops of `AcknowledgeResult` against the split of the queue into its processed prefix and
-- the rest.
use native.Mathlib.Nat.{zero-add, add-zero}
use go_service_template.Common.{
  ℕ, zero, suc, ◌+◌, ◌-◌, ◌≤◌, ◌<◌, ◌≡◌, refl, sym, ap, ◌∙◌, Option, none, some, List, [], ◌∷◌,
  ◌++◌, append-nil, append_assoc, if◌then◌else◌, length, get_elem?, set, take, drop, arith,
}
use go_service_template.Message.{ConsumerMessage}
use go_service_template.Message.CommitOffsetQueue.{
  ListenerMessage, find_last_processed, copy_item, shift_items, discard_items,
}

-- The longest prefix of processed messages.
unfoldable pub processed_prefix : List ListenerMessage → List ListenerMessage
processed_prefix [] = []
processed_prefix (x ∷ xs) = if x.processed then x ∷ processed_prefix xs else []

-- What is left of the queue behind it.
unfoldable pub pending_rest : List ListenerMessage → List ListenerMessage
pending_rest [] = []
pending_rest (x ∷ xs) = if x.processed then pending_rest xs else x ∷ xs

pub prefix-append-rest : (xs : List ListenerMessage) → processed_prefix xs ++ pending_rest xs ≡ xs
unfolding processed_prefix pending_rest
prefix-append-rest [] = refl
prefix-append-rest (x ∷ xs) = ground (arith, prefix-append-rest xs)

pub drop-prefix :
    (xs : List ListenerMessage) → drop (length (processed_prefix xs)) xs ≡ pending_rest xs
unfolding processed_prefix pending_rest
drop-prefix [] = refl
drop-prefix (x ∷ xs) = ground (arith, drop-prefix xs)

-- The last entry of a list, with its index counted from `i`.
pub last_from :
    ℕ → Option (ℕ × ConsumerMessage) → List ListenerMessage → Option (ℕ × ConsumerMessage)
last_from i last [] = last
last_from i last (x ∷ xs) = last_from (suc i) (some (i, x.message)) xs

find_last_processed-eq :
    (i : ℕ) (last : Option (ℕ × ConsumerMessage)) (xs : List ListenerMessage)
    → find_last_processed i last xs ≡ last_from i last (processed_prefix xs)
unfolding find_last_processed processed_prefix last_from
find_last_processed-eq i last [] = refl
find_last_processed-eq i last (x ∷ xs) =
    ground (arith, find_last_processed-eq (suc i) (some (i, x.message)) xs)

module _ {ℓ} {A : Type ℓ} where
  get_elem?-lt : (xs : List A) (j : ℕ) → j < length xs → (v : A) × (get_elem? xs j ≡ some v)
  get_elem?-lt [] j h = elim h [ ]
  get_elem?-lt (x ∷ xs) zero h = (x, refl)
  get_elem?-lt (x ∷ xs) (suc j) h = get_elem?-lt xs j (omega arith)

  drop-get_elem? :
      (xs : List A) (j : ℕ) (v : A) → get_elem? xs j ≡ some v → drop j xs ≡ v ∷ drop (suc j) xs
  drop-get_elem? [] j v h = cc
  drop-get_elem? (x ∷ xs) zero v h = cc
  drop-get_elem? (x ∷ xs) (suc j) v h = drop-get_elem? xs j v h

  take-set :
      (xs : List A) (i : ℕ) (v : A)
      → i < length xs
      → take (suc i) (set xs i v) ≡ take i xs ++ v ∷ []
  take-set [] i v h = elim h [ ]
  take-set (x ∷ xs) zero v h = refl
  take-set (x ∷ xs) (suc i) v h = ap (◌∷◌ x) (take-set xs i v (omega arith))

  drop-set : (xs : List A) (i k : ℕ) (v : A) → i < k → drop k (set xs i v) ≡ drop k xs
  drop-set [] i k v h = refl
  drop-set (x ∷ xs) i zero v h = elim h [ ]
  drop-set (x ∷ xs) zero (suc k) v h = refl
  drop-set (x ∷ xs) (suc i) (suc k) v h = drop-set xs i k v (omega arith)

  length-set : (xs : List A) (i : ℕ) (v : A) → length (set xs i v) ≡ length xs
  length-set [] i v = refl
  length-set (x ∷ xs) zero v = refl
  length-set (x ∷ xs) (suc i) v = ap suc (length-set xs i v)

  drop_all : (xs : List A) (k : ℕ) → length xs ≤ k → drop k xs ≡ []
  drop_all [] zero h = refl
  drop_all [] (suc k) h = refl
  drop_all (x ∷ xs) zero h = elim h [ ]
  drop_all (x ∷ xs) (suc k) h = drop_all xs k (omega arith)

  -- With `rounds` rounds left, the first `i` items are in place and the rest stand `count` further.
  shift_items_lem :
      (count rounds i : ℕ) (xs : List A)
      → rounds + i + count ≡ length xs
      → take (rounds + i) (shift_items count rounds i xs) ≡ take i xs ++ drop (i + count) xs
  unfolding shift_items
  shift_items_lem count zero i xs h =
      rw (drop_all xs (i + count) (omega arith), append-nil, zero-add) refl
  shift_items_lem count (suc rounds) i xs h =
      let (v, found) = get_elem?-lt xs (i + count) (omega arith) in
      let e : suc rounds + i ≡ rounds + suc i = omega arith in
      let d : suc i + count ≡ suc (i + count) = omega arith in
      rw (found, copy_item)
        (rw e (
          shift_items_lem count rounds (suc i) (set xs i v) (omega (arith, length-set xs i v))
          ∙ rw
              (
                take-set xs i v (omega arith),
                drop-set xs i (suc i + count) v (omega arith),
                drop-get_elem? xs (i + count) v found,
                d,
                append_assoc,
              )
              refl))

  -- The shift in place and the reslice drop the first `count` entries.
  pub discard_items-eq-drop :
      (count : ℕ) (xs : List A) → count ≤ length xs → discard_items count xs ≡ drop count xs
  unfolding discard_items
  discard_items-eq-drop count xs h =
      let n = length xs - count in
      ap (λ k. take k (shift_items count n 0 xs)) (sym (add-zero n))
      ∙ shift_items_lem count n 0 xs (omega arith)
      ∙ ap (λ k. drop k xs) (zero-add count)

-- The last message of a list that is not empty.
unfoldable pub last_message : ListenerMessage → List ListenerMessage → ConsumerMessage
last_message x [] = x.message
last_message x (y ∷ ys) = last_message y ys

last_from-cons :
    (i : ℕ) (last : Option (ℕ × ConsumerMessage)) (x : ListenerMessage) (xs : List ListenerMessage)
    → last_from i last (x ∷ xs) ≡ some (i + length xs, last_message x xs)
unfolding last_from last_message
last_from-cons i last x [] = ground arith
last_from-cons i last x (y ∷ ys) = ground (arith, last_from-cons (suc i) (some (i, x.message)) y ys)

-- The second loop finds nothing exactly when the processed prefix is empty.
pub find_last_processed-nil :
    (xs : List ListenerMessage) → processed_prefix xs ≡ [] → find_last_processed 0 none xs ≡ none
find_last_processed-nil xs h = find_last_processed-eq 0 none xs ∙ rw h (unfold last_from in refl)

-- Otherwise it finds the last message of the prefix, at the index before the rest.
pub find_last_processed-cons :
    (xs : List ListenerMessage) (y : ListenerMessage) (ys : List ListenerMessage)
    → processed_prefix xs ≡ y ∷ ys
    → find_last_processed 0 none xs ≡ some (0 + length ys, last_message y ys)
find_last_processed-cons xs y ys h =
    find_last_processed-eq 0 none xs ∙ rw h (last_from-cons 0 none y ys)
