-- ===== src/Sql/Lock/Steps.antt =====
-- Steps that a session lock makes: whatever relation of worlds its queries stay within, the lock and its
-- release stay within it.
use mathlib.Core.Path.{subst}
use go_service_template.Common.{
  ℕ, ◌≡◌, refl, String, Bool, true, false, Option, none, some, Error, Result, ok, err,
}
use go_service_template.Message.{Effect}
use go_service_template.Sql.Lock.{
  Session, after_unlock, release_lock, after_exec_lock, after_connection, after_lock_id,
  with_session_level_lock,
}

pub record Calls {W : Type 0} (s : Session W) (Quiet : W → W → Type 0) : Type 0 where
  pub still : (w : W) → Quiet w w
  pub then_quiet : (u v w : W) → Quiet u v → Quiet v w → Quiet u w
  pub single_connection : (w : W) → Quiet w (s.single_connection w).1
  pub cancels :
      (w w' : W) (cancel : W → W)
      → s.single_connection w ≡ (ok cancel, w')
      → (v : W) → Quiet v (cancel v)
  pub exec_lock : (id : ℕ) (w : W) → Quiet w (s.exec_lock id w).1
  pub get_unlock : (id : ℕ) (w : W) → Quiet w (s.get_unlock id w).1

module _ {W : Type 0} (Quiet : W → W → Type 0) where
  -- The worlds after the lock and after its release.
  pub data IsQuiet (w : W) : Result (Effect W) × W → Type 0 where
    refused : (e : Error) (w' : W) → Quiet w w' → IsQuiet w (err e, w')
    locked :
        (release : Effect W) (w' : W)
        → Quiet w w'
        → ((v : W) → Quiet v (release v).1)
        → IsQuiet w (ok release, w')

module _ {W : Type 0} {Quiet : W → W → Type 0} where
  pub IsQuiet-world : (w : W) (r : Result (Effect W) × W) → IsQuiet Quiet w r → Quiet w r.1
  IsQuiet-world w r (IsQuiet.refused e w' q) = q
  IsQuiet-world w r (IsQuiet.locked release w' q f) = q

  pub IsQuiet-release :
      (w : W) (r : Result (Effect W) × W) (w' : W) (release : Effect W)
      → IsQuiet Quiet w r
      → r ≡ (ok release, w')
      → (v : W) → Quiet v (release v).1
  IsQuiet-release w r w' release (IsQuiet.refused e v q) h = cc
  IsQuiet-release w r w' release (IsQuiet.locked f v q k) h =
      subst (λ g. (u : W) → Quiet u (g u).1) (let p : f ≡ release = cc in p) k

module _ {W : Type 0} {s : Session W} {Quiet : W → W → Type 0} (c : Calls s Quiet) where
  after_unlock-Quiet :
      (cancel : W → W)
      → ((v : W) → Quiet v (cancel v))
      → (w : W) (r : Result Bool × W) → Quiet w r.1
      → Quiet w (after_unlock s cancel r).1
  unfolding after_unlock
  after_unlock-Quiet cancel k w (err e, v) q = c.then_quiet w v (cancel v) q (k v)
  after_unlock-Quiet cancel k w (ok false, v) q = c.then_quiet w v (cancel v) q (k v)
  after_unlock-Quiet cancel k w (ok true, v) q = c.then_quiet w v (cancel v) q (k v)

  release_lock-Quiet :
      (id : ℕ) (cancel : W → W)
      → ((v : W) → Quiet v (cancel v))
      → (w : W) → Quiet w (release_lock s id cancel w).1
  unfolding release_lock
  release_lock-Quiet id cancel k w =
      after_unlock-Quiet cancel k w (s.get_unlock id w) (c.get_unlock id w)

  after_exec_lock-IsQuiet :
      (id : ℕ) (cancel : W → W)
      → ((v : W) → Quiet v (cancel v))
      → (w : W) (r : Option Error × W) → Quiet w r.1
      → IsQuiet Quiet w (after_exec_lock s id cancel r)
  unfolding after_exec_lock
  after_exec_lock-IsQuiet id cancel k w (some e, v) q =
      IsQuiet.refused _ (cancel v) (c.then_quiet w v (cancel v) q (k v))
  after_exec_lock-IsQuiet id cancel k w (none, v) q =
      IsQuiet.locked _ v q (release_lock-Quiet id cancel k)

  after_connection-IsQuiet :
      (id : ℕ) (w : W) (r : Result (W → W) × W)
      → s.single_connection w ≡ r
      → Quiet w r.1
      → IsQuiet Quiet w (after_connection s id r)
  unfolding after_connection
  after_connection-IsQuiet id w (err e, v) h q = IsQuiet.refused _ v q
  after_connection-IsQuiet id w (ok cancel, v) h q =
      after_exec_lock-IsQuiet id cancel (c.cancels w v cancel h) w (s.exec_lock id v)
        (c.then_quiet w v (s.exec_lock id v).1 q (c.exec_lock id v))

  after_lock_id-IsQuiet : (found : Result ℕ) (w : W) → IsQuiet Quiet w (after_lock_id s found w)
  unfolding after_lock_id
  after_lock_id-IsQuiet (err e) w = IsQuiet.refused e w (c.still w)
  after_lock_id-IsQuiet (ok id) w = after_connection-IsQuiet id w _ refl (c.single_connection w)

  pub with_session_level_lock-IsQuiet :
      (name : String) (w : W) → IsQuiet Quiet w (with_session_level_lock s name w)
  unfolding with_session_level_lock
  with_session_level_lock-IsQuiet name w = after_lock_id-IsQuiet (s.lock_id name) w
