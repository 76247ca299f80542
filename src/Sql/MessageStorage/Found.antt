-- ===== src/Sql/MessageStorage/Found.antt =====
-- Which stored messages `Find` returns.
use mathlib.Core.Path.{subst}
use go_service_template.Common.{
  ℕ, zero, suc, ◌≤◌, ◌≡◌, refl, inl, inr, sym, ap, ◌∙◌, Bool, true, not, ◌&&◌, List, [], ◌∷◌, ◌++◌,
  map, leb, nat_eq, string_eq, any, any_cong, any-map, length, length-map, Result, ok, err, arith,
  Option-cases,
}
use go_service_template.Common.Assoc.{contains}
use go_service_template.Message.{Message, Topic, Uuid, StorageSpecification}
use go_service_template.Sql.MessageStorage.{
  Row, message_of, Condition, Client, exclude_ids, only_topics, limit_of, find_query, after_select,
  select_built, messages_of, find_messages,
}
use go_service_template.Sql.MessageStorage.Table.{meets_all, IsWithin, IsBelow, Answer, Database}

-- A row that a specification asks for: scheduled not later than its time, not excluded, and of one of
-- its topics, where no topic means every topic.
abbrev is_allowed : List Topic → Topic → Bool
is_allowed [] topic = true
is_allowed (t ∷ ts) topic = contains topic (t ∷ ts)

abbrev pub is_wanted : StorageSpecification → Row → Bool
is_wanted spec r =
    leb r.scheduled_at spec.scheduled_at_before
    && not (contains r.id spec.ids_excluded)
    && is_allowed spec.topics r.topic

meets_all-append :
    (cs ds : List Condition) (r : Row) → meets_all (cs ++ ds) r ≡ (meets_all cs r && meets_all ds r)
meets_all-append [] ds r = refl
meets_all-append (c ∷ cs) ds r = ground (arith, meets_all-append cs ds r)

exclude_ids-meets :
    (ids : List Uuid) (r : Row) → meets_all (exclude_ids ids) r ≡ not (contains r.id ids)
unfolding exclude_ids contains
exclude_ids-meets [] r = refl
exclude_ids-meets (id ∷ ids) r = ground arith

only_topics-meets :
    (ts : List Topic) (r : Row) → meets_all (only_topics ts) r ≡ is_allowed ts r.topic
unfolding only_topics
only_topics-meets [] r = refl
only_topics-meets (t ∷ ts) r = ground arith

find_query-wanted :
    (spec : StorageSpecification) (r : Row)
    → meets_all (find_query spec).conditions r ≡ is_wanted spec r
unfolding find_query
find_query-wanted spec r = ground (
  arith,
  meets_all-append (exclude_ids spec.ids_excluded) (only_topics spec.topics) r,
  exclude_ids-meets spec.ids_excluded r,
  only_topics-meets spec.topics r,
)

-- No limit, or fewer than the limit.
abbrev pub IsComplete : ℕ → ℕ → Type 0
IsComplete zero n = Unit
IsComplete (suc limit) n = suc n ≤ suc limit

abbrev pub IsLimited : ℕ → ℕ → Type 0
IsLimited zero n = Unit
IsLimited (suc limit) n = n ≤ suc limit

limit_of-IsBelow : (limit n : ℕ) → IsComplete limit n → IsBelow (limit_of limit) n
unfolding limit_of
limit_of-IsBelow zero n h = tt
limit_of-IsBelow (suc limit) n h = omega arith

limit_of-IsLimited : (limit n : ℕ) → IsWithin (limit_of limit) n → IsLimited limit n
unfolding limit_of
limit_of-IsLimited zero n h = tt
limit_of-IsLimited (suc limit) n h = h

-- What a test finds in the rows that are wanted.
abbrev pub any_wanted : (Message → Bool) → StorageSpecification → List Row → Bool
any_wanted p spec rows = any (λ r. p (message_of r) && is_wanted spec r) rows

module _ {W : Type 0} {client : Client W} (d : Database client) where
  open d use {rows}

  -- The messages found are those of wanted rows, at most as many as the limit, and all of them if the
  -- limit is not reached or there is none.
  pub record IsFound (spec : StorageSpecification) (w w' : W) (msgs : List Message) : Type 0 where
    pub kept : rows w' ≡ rows w
    pub sound : (p : Message → Bool) → any p msgs ≡ true → any_wanted p spec (rows w) ≡ true
    pub complete :
        (p : Message → Bool)
        → IsComplete spec.limit (length msgs)
        → any_wanted p spec (rows w) ≡ true
        → any p msgs ≡ true
    pub limited : IsLimited spec.limit (length msgs)

  wanted_rows :
      (p : Message → Bool) (spec : StorageSpecification) (rs : List Row)
      → any (λ r. p (message_of r) && meets_all (find_query spec).conditions r) rs
        ≡ any_wanted p spec rs
  wanted_rows p spec rs =
      any_cong _ _ (λ r. ap (λ b. p (message_of r) && b) (find_query-wanted spec r)) rs

  Answer-IsFound :
      (spec : StorageSpecification) (w w' : W) (answer : List Row)
      → rows w' ≡ rows w
      → Answer (find_query spec) (rows w) answer
      → IsFound spec w w' (map message_of answer)
  unfolding find_query
  Answer-IsFound spec w w' answer k a = record {
    kept = k;
    sound = λ p h.
        sym (wanted_rows p spec (rows w))
        ∙ a.sound (λ r. p (message_of r)) (sym (any-map p message_of answer) ∙ h);
    complete = λ p l h.
        any-map p message_of answer
        ∙ a.complete (λ r. p (message_of r))
            (limit_of-IsBelow spec.limit (length answer)
              (subst (IsComplete spec.limit) (length-map answer message_of) l))
            (wanted_rows p spec (rows w) ∙ h);
    limited =
        subst (IsLimited spec.limit) (sym (length-map answer message_of))
          (limit_of-IsLimited spec.limit (length answer) a.within);
  }

  select_built-IsFound :
      (spec : StorageSpecification) (w w' : W) (msgs : List Message)
      (selected : Result (List Row) × W)
      → client.select (find_query spec) w ≡ selected
      → messages_of client (after_select client selected) ≡ (ok msgs, w')
      → IsFound spec w w' msgs
  unfolding messages_of after_select
  select_built-IsFound spec w w' msgs (err e, v) selected h = cc
  select_built-IsFound spec w w' msgs (ok answer, v) selected h =
      let q : map message_of answer ≡ msgs = cc in
      let p : v ≡ w' = cc in
      subst (IsFound spec w w') q (
        Answer-IsFound spec w w' answer
          (sym (ap rows p) ∙ sym (ap (λ r. rows r.1) selected) ∙ d.select_keeps (find_query spec) w)
          (d.select_answers (find_query spec) w v answer selected))

  -- What `Find` returns without an error are the messages of the rows that the specification asks for:
  -- no other, no more than the limit, and all of them if the limit is not reached or there is none.
  pub find_messages-IsFound :
      (spec : StorageSpecification) (w w' : W) (msgs : List Message)
      → find_messages client spec w ≡ (ok msgs, w')
      → IsFound spec w w' msgs
  unfolding find_messages select_built messages_of
  find_messages-IsFound spec w w' msgs h =
      elim (Option-cases (client.build_select (find_query spec))) [
        | inl e ↦
            select_built-IsFound spec w w' msgs (client.select (find_query spec) w) refl
              (rw (e, find_messages, select_built) at h)
        | inr (x, e) ↦ let f = rw (e, find_messages, select_built) at h in cc
      ]

  after_select-rows :
      (selected : Result (List Row) × W)
      → rows (messages_of client (after_select client selected)).1 ≡ rows selected.1
  unfolding messages_of after_select
  after_select-rows (err e, w) = refl
  after_select-rows (ok answer, w) = refl

  -- `Find` changes no row, whatever it returns.
  pub find_messages-rows :
      (spec : StorageSpecification) (w : W) → rows (find_messages client spec w).1 ≡ rows w
  unfolding find_messages select_built messages_of
  find_messages-rows spec w = elim (Option-cases (client.build_select (find_query spec))) [
    | inl e ↦
        rw (e, find_messages, select_built)
          (after_select-rows (client.select (find_query spec) w)
            ∙ d.select_keeps (find_query spec) w)
    | inr (x, e) ↦ rw (e, find_messages, select_built)
  ]
