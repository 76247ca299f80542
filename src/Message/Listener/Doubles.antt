-- ===== src/Message/Listener/Doubles.antt =====
-- A retry with a bounded number of attempts, and a group with one worker, which runs its jobs in order:
-- both keep the contracts of the listener.
use mathlib.Core.Path.{subst}
use go_service_template.Common.{
  ℕ, zero, suc, ◌≡◌, refl, ap, Option, none, some, List, [], ◌∷◌, get_elem?, Error,
}
use go_service_template.Message.Listener.{Run, Attempt}
use go_service_template.Message.Listener.Contracts.{Keeps, Retries, Groups}

module _ {W : Type 0} where
  unfoldable pub retried : (W → Attempt × W) → ℕ → Attempt × W → Option (Option Error × W)
  retried op n (Attempt.succeeded, w) = some (none, w)
  retried op n (Attempt.permanent e, w) = some (some e, w)
  retried op zero (Attempt.failed e, w) = some (some e, w)
  retried op (suc n) (Attempt.failed e, w) = retried op n (op w)

  abbrev pub retry : ℕ → (W → Attempt × W) → Run W
  retry n op w = retried op n (op w)

  retried-keeps :
      (P : W → Type 0) (op : W → Attempt × W)
      → ((w : W) → P w → P (op w).1)
      → (n : ℕ) (result : Attempt × W) (w' : W) (r : Option Error)
      → retried op n result ≡ some (r, w')
      → P result.1
      → P w'
  unfolding retried
  retried-keeps P op k n (Attempt.succeeded, w) w' r e p = subst P (let q : w ≡ w' = cc in q) p
  retried-keeps P op k n (Attempt.permanent x, w) w' r e p = subst P (let q : w ≡ w' = cc in q) p
  retried-keeps P op k zero (Attempt.failed x, w) w' r e p = subst P (let q : w ≡ w' = cc in q) p
  retried-keeps P op k (suc n) (Attempt.failed x, w) w' r e p =
      retried-keeps P op k n (op w) w' r e (k w p)

  retried-achieves :
      (P Q : W → Type 0) (op : W → Attempt × W)
      → ((w : W) → P w → P (op w).1)
      → ((w : W) → P w → (op w).0 ≡ Attempt.succeeded → Q (op w).1)
      → (n : ℕ) (result : Attempt × W) (w' : W) → (result.0 ≡ Attempt.succeeded → Q result.1)
      → retried op n result ≡ some (none, w')
      → P result.1
      → Q w'
  unfolding retried
  retried-achieves P Q op k a n (Attempt.succeeded, w) w' q e p =
      subst Q (let z : w ≡ w' = cc in z) (q refl)
  retried-achieves P Q op k a n (Attempt.permanent x, w) w' q e p = cc
  retried-achieves P Q op k a zero (Attempt.failed x, w) w' q e p = cc
  retried-achieves P Q op k a (suc n) (Attempt.failed x, w) w' q e p =
      retried-achieves P Q op k a n (op w) w' (a w p) e (k w p)

  pub retry-Retries : (n : ℕ) → Retries (λ w w'. w ≡ w') (retry n)
  retry-Retries n = record {
    keeps = λ P op s k w w' r e p. retried-keeps P op k n (op w) w' r e (k w p);
    achieves = λ P Q op s k a w w' e p. retried-achieves P Q op k a n (op w) w' (a w p) e (k w p);
  }

  -- The first error is the group's.
  unfoldable pub first_error : Option Error → Option (Option Error × W) → Option (Option Error × W)
  first_error none result = result
  first_error (some e) none = none
  first_error (some e) (some (r, w)) = some (some e, w)

  unfoldable pub after_job : Run W → Option (Option Error × W) → Option (Option Error × W)
  unfolding first_error
  after_job rest none = none
  after_job rest (some (r, w)) = first_error r (rest w)

  unfoldable pub in_order : List (Run W) → Run W
  unfolding after_job
  in_order [] w = some (none, w)
  in_order (job ∷ jobs) w = after_job (in_order jobs) (job w)

  first_error-world :
      (e r : Option Error) (result : Option (Option Error × W)) (w' : W)
      → first_error e result ≡ some (r, w')
      → (s : Option Error) × (result ≡ some (s, w')) × (r ≡ none → (e ≡ none) × (s ≡ none))
  unfolding first_error
  first_error-world none r result w' h = (r, h, λ z. (refl, z))
  first_error-world (some x) r none w' h = cc
  first_error-world (some x) r (some (s, w)) w' h =
      (s, (let p : w ≡ w' = cc in rw (p)), (let q : r ≡ some x = cc in λ z. cc))

  after_job-keeps :
      (P : W → Type 0) (rest : Run W) (result : Option (Option Error × W))
      → ((w : W) (r : Option Error) → result ≡ some (r, w) → P w)
      → Keeps (λ w w'. w ≡ w') P rest
      → (w' : W) (r : Option Error) → after_job rest result ≡ some (r, w')
      → P w'
  unfolding after_job
  after_job-keeps P rest none p k w' r h = cc
  after_job-keeps P rest (some (x, w)) p k w' r h =
      let (s, e, n) = first_error-world x r (rest w) w' h in k w w' s e (p w x refl)

  in_order-Keeps :
      (P : W → Type 0) (jobs : List (Run W))
      → ((i : ℕ) (job : Run W) → get_elem? jobs i ≡ some job → Keeps (λ w w'. w ≡ w') P job)
      → Keeps (λ w w'. w ≡ w') P (in_order jobs)
  unfolding in_order
  in_order-Keeps P [] k w w' r e p = subst P (let q : w ≡ w' = cc in q) p
  in_order-Keeps P (job ∷ jobs) k w w' r e p =
      after_job-keeps P (in_order jobs) (job w) (λ v x f. k 0 job refl w v x f p)
        (in_order-Keeps P jobs (λ i other f. k (suc i) other f)) w' r e

  after_job-achieves :
      (Q : W → Type 0) (rest : Run W) (result : Option (Option Error × W))
      → ((v w' : W) → result ≡ some (none, v) → rest v ≡ some (none, w') → Q w')
      → (w' : W) → after_job rest result ≡ some (none, w')
      → Q w'
  unfolding after_job
  after_job-achieves Q rest none a w' e = cc
  after_job-achieves Q rest (some (x, v)) a w' e =
      let (s, f, n) = first_error-world x none (rest v) w' e in
      let (x0, s0) = n refl in a v w' (ap (λ y. some (y, v)) x0) (rw (s0) at f)

  in_order-achieves :
      (Q : W → Type 0) (jobs : List (Run W)) (i : ℕ) (job : Run W)
      → ((j : ℕ) (other : Run W) → get_elem? jobs j ≡ some other → Keeps (λ w w'. w ≡ w') Q other)
      → get_elem? jobs i ≡ some job
      → ((w w' : W) → job w ≡ some (none, w') → Q w')
      → (w w' : W) → in_order jobs w ≡ some (none, w')
      → Q w'
  unfolding in_order
  in_order-achieves Q [] i job k h a w w' e = cc
  in_order-achieves Q (first ∷ jobs) zero job k h a w w' e =
      after_job-achieves Q (in_order jobs) (first w)
        (λ v u f g.
          in_order-Keeps Q jobs (λ j other z. k (suc j) other z) v u none g
            (a w v (subst (λ j. j w ≡ some (none, v)) (let q : first ≡ job = cc in q) f)))
        w' e
  in_order-achieves Q (first ∷ jobs) (suc i) job k h a w w' e =
      after_job-achieves Q (in_order jobs) (first w)
        (λ v u f g. in_order-achieves Q jobs i job (λ j other z. k (suc j) other z) h a v u g) w' e

  pub in_order-Groups : Groups (λ w w'. w ≡ w') in_order
  in_order-Groups = record {
    keeps = λ P jobs s k w w' r e p. in_order-Keeps P jobs k w w' r e p;
    achieves = λ Q jobs i job s k h a w w' e. in_order-achieves Q jobs i job k h a w w' e;
  }
