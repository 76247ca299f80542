-- ===== src/Worker/Examples.antt =====
-- A run of a pool with one worker.
use go_service_template.Common.{ℤ, ◌+◌, ◌≤◌, ◌<◌, ◌≡◌, refl, ◌⊎◌, arith}
use go_service_template.Worker.Pool.{new_pool, is_full, take_worker, System, start, Step, Reach}
use go_service_template.Worker.Pool.Bounds.{Reach-running, Reach-work, work}

-- Two calls of `Do`: the first job runs, the second caller sleeps.
abbrev one_sleeps : System
one_sleeps = record {
  pool = record { current_workers = 1; max_workers = 1 };
  testing = 0;
  asleep = 1;
  running = 1;
  completed = 0;
  signalling = 0;
  not_completed = 2;
}

one_sleeps-Reach : Reach (start (new_pool 4 (ℤ.pos 1))) one_sleeps
unfolding is_full take_worker
one_sleeps-Reach =
    let called = Reach.next (Reach.next Reach.here Step.call) Step.call in
    Reach.next (Reach.next called (Step.begin 1 refl refl)) (Step.sleep 0 refl refl)

Reach-running_example : (one_sleeps.running ≤ 1) × (one_sleeps.not_completed ≡ 2)
Reach-running_example = Reach-running 4 (ℤ.pos 1) one_sleeps one_sleeps-Reach (omega arith)

Reach-work_example :
    ((u : System) × Step one_sleeps u × (work u < work one_sleeps))
    × ((u : System)
        → Step one_sleeps u
        → (work u < work one_sleeps) ⊎ (u.not_completed ≡ one_sleeps.not_completed + 1))
Reach-work_example = Reach-work 4 (ℤ.pos 1) one_sleeps one_sleeps-Reach (omega arith)
