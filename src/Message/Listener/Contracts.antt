-- ===== src/Message/Listener/Contracts.antt =====
-- What the listener relies on: `backoff.Retry` of the backoff library, and a group of workers
-- (pkg/worker/group.go). Both wait, and `Passes` is what may happen to the world meanwhile.
use go_service_template.Common.{ℕ, ◌≡◌, Option, none, some, List, get_elem?, Error}
use go_service_template.Message.Listener.{Run, Attempt}

module _ {W : Type 0} (Passes : W → W → Type 0) where
  abbrev pub Stable : (W → Type 0) → Type 0
  Stable P = (w w' : W) → Passes w w' → P w → P w'

  abbrev pub Keeps : (W → Type 0) → Run W → Type 0
  Keeps P job = (w w' : W) (r : Option Error) → job w ≡ some (r, w') → P w → P w'

  -- `Retry` calls the function at least once. It returns nil if the function has just returned nil,
  -- and waits after an error.
  pub record Retries (retry : (W → Attempt × W) → Run W) : Type 1 where
    pub keeps :
        (P : W → Type 0) (op : W → Attempt × W)
        → Stable P
        → ((w : W) → P w → P (op w).1)
        → Keeps P (retry op)
    pub achieves :
        (P Q : W → Type 0) (op : W → Attempt × W)
        → Stable P
        → ((w : W) → P w → P (op w).1)
        → ((w : W) → P w → (op w).0 ≡ Attempt.succeeded → Q (op w).1)
        → (w w' : W) → retry op w ≡ some (none, w')
        → P w
        → Q w'

  -- A group runs each job once, and returns nil only if every job has returned nil.
  pub record Groups (group : List (Run W) → Run W) : Type 1 where
    pub keeps :
        (P : W → Type 0) (jobs : List (Run W))
        → Stable P
        → ((i : ℕ) (job : Run W) → get_elem? jobs i ≡ some job → Keeps P job)
        → Keeps P (group jobs)
    pub achieves :
        (Q : W → Type 0) (jobs : List (Run W)) (i : ℕ) (job : Run W)
        → Stable Q
        → ((j : ℕ) (other : Run W) → get_elem? jobs j ≡ some other → Keeps Q other)
        → get_elem? jobs i ≡ some job
        → ((w w' : W) → job w ≡ some (none, w') → Q w')
        → (w w' : W) → group jobs w ≡ some (none, w')
        → Q w'
