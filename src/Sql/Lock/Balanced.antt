-- ===== src/Sql/Lock/Balanced.antt =====
-- A session lock gives its connection back on every branch.
use go_service_template.Common.{
  ℕ, ◌+◌, ◌-◌, ◌≡◌, refl, ◌∙◌, String, Bool, true, false, Option, none, some, Error, Result, ok,
  err, arith,
}
use go_service_template.Message.{Effect}
use go_service_template.Sql.Lock.{
  Session, after_unlock, release_lock, after_exec_lock, after_connection, after_lock_id,
  with_session_level_lock,
}

-- How many connections are taken from the pool. `WithinSingleConnection` takes one, or none if the
-- context has one, and its function gives it back; queries take none.
pub record Connections {W : Type 0} (s : Session W) : Type 0 where
  pub taken : W → ℕ
  pub takes :
      (w w' : W) (cancel : W → W)
      → s.single_connection w ≡ (ok cancel, w')
      → (n : ℕ) × (taken w' ≡ taken w + n) × ((v : W) → taken (cancel v) ≡ taken v - n)
  pub takes_not : (w w' : W) (e : Error) → s.single_connection w ≡ (err e, w') → taken w' ≡ taken w
  pub locks : (id : ℕ) (w : W) → taken (s.exec_lock id w).1 ≡ taken w
  pub unlocks : (id : ℕ) (w : W) → taken (s.get_unlock id w).1 ≡ taken w

module _ {W : Type 0} {s : Session W} (c : Connections s) where
  open c use {taken}

  -- An error leaves as many connections taken as before; otherwise `n` more are, and the release gives
  -- back `n`, whether it fails or not.
  pub data IsBalanced (w : W) : Result (Effect W) × W → Type 0 where
    refused : (e : Error) (w' : W) → taken w' ≡ taken w → IsBalanced w (err e, w')
    locked :
        (release : Effect W) (w' : W) (n : ℕ)
        → taken w' ≡ taken w + n
        → ((v : W) → taken (release v).1 ≡ taken v - n)
        → IsBalanced w (ok release, w')

  after_unlock-taken :
      (cancel : W → W) (n : ℕ)
      → ((v : W) → taken (cancel v) ≡ taken v - n)
      → (result : Result Bool × W) → taken (after_unlock s cancel result).1 ≡ taken result.1 - n
  unfolding after_unlock
  after_unlock-taken cancel n h (err e, w) = h w
  after_unlock-taken cancel n h (ok false, w) = h w
  after_unlock-taken cancel n h (ok true, w) = h w

  release_lock-taken :
      (id : ℕ) (cancel : W → W) (n : ℕ)
      → ((v : W) → taken (cancel v) ≡ taken v - n)
      → (w : W) → taken (release_lock s id cancel w).1 ≡ taken w - n
  unfolding release_lock
  release_lock-taken id cancel n h w =
      omega (arith, after_unlock-taken cancel n h (s.get_unlock id w), c.unlocks id w)

  after_exec_lock-IsBalanced :
      (id : ℕ) (cancel : W → W) (n : ℕ) (w : W) (result : Option Error × W)
      → ((v : W) → taken (cancel v) ≡ taken v - n)
      → taken result.1 ≡ taken w + n
      → IsBalanced w (after_exec_lock s id cancel result)
  unfolding after_exec_lock
  after_exec_lock-IsBalanced id cancel n w (some e, v) h k =
      IsBalanced.refused _ (cancel v) (omega (arith, h v, k))
  after_exec_lock-IsBalanced id cancel n w (none, v) h k =
      IsBalanced.locked _ v n k (release_lock-taken id cancel n h)

  after_connection-IsBalanced :
      (id : ℕ) (w : W) (result : Result (W → W) × W)
      → s.single_connection w ≡ result
      → IsBalanced w (after_connection s id result)
  unfolding after_connection
  after_connection-IsBalanced id w (err e, v) h = IsBalanced.refused _ v (c.takes_not w v e h)
  after_connection-IsBalanced id w (ok cancel, v) h =
      let (n, t, g) = c.takes w v cancel h in
      after_exec_lock-IsBalanced id cancel n w (s.exec_lock id v) g (c.locks id v ∙ t)

  after_lock_id-IsBalanced : (found : Result ℕ) (w : W) → IsBalanced w (after_lock_id s found w)
  unfolding after_lock_id
  after_lock_id-IsBalanced (err e) w = IsBalanced.refused e w refl
  after_lock_id-IsBalanced (ok id) w = after_connection-IsBalanced id w (s.single_connection w) refl

  -- A session lock that is refused keeps no connection, and one that is taken keeps what its release
  -- gives back, on every branch of both.
  pub with_session_level_lock-IsBalanced :
      (name : String) (w : W) → IsBalanced w (with_session_level_lock s name w)
  unfolding with_session_level_lock
  with_session_level_lock-IsBalanced name w = after_lock_id-IsBalanced (s.lock_id name) w
