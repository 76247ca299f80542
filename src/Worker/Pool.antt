-- ===== src/Worker/Pool.antt =====
-- The pool of pkg/worker/pool.go: its count of workers under the mutex, and the callers of `Do` with
-- the goroutines of their jobs as steps.
pub mod Bounds
use go_service_template.Common.{
  ℕ, ℤ, zero, suc, ◌+◌, ◌-◌, ◌≡◌, Bool, true, false, ◌&&◌, ltb, leb, if◌then◌else◌,
}

-- The fields of `pool` that are numbers.
pub record Pool : Type 0 where
  pub current_workers : ℕ
  pub max_workers : ℕ

-- `NewPool`; a limit of `MaxWorkersCountNumCPU`, -1, or below stands for `runtime.NumCPU()`.
abbrev pub new_pool : ℕ → ℤ → Pool
new_pool num_cpu (ℤ.pos n) = record { current_workers = 0; max_workers = n }
new_pool num_cpu (ℤ.negsuc n) = record { current_workers = 0; max_workers = num_cpu }

-- Whether `Do` waits: `p.maxWorkers > 0`, and `p.currentWorkers >= p.maxWorkers`.
unfoldable pub is_full : Pool → Bool
is_full p = ltb 0 p.max_workers && leb p.max_workers p.current_workers

unfoldable pub take_worker : Pool → Pool
take_worker p =
    if ltb 0 p.max_workers then record p { current_workers = p.current_workers + 1 } else p

unfoldable pub free_worker : Pool → Pool
free_worker p =
    if ltb 0 p.max_workers then record p { current_workers = p.current_workers - 1 } else p

-- Where the threads are: callers of `Do` before the test of the loop, and in `Wait`; goroutines in
-- their job, after `Done`, and before `Signal`. `not_completed` is the counter of `jobCompleted`.
pub record System : Type 0 where
  pub pool : Pool
  pub testing : ℕ
  pub asleep : ℕ
  pub running : ℕ
  pub completed : ℕ
  pub signalling : ℕ
  pub not_completed : ℕ

abbrev pub start : Pool → System
start pool = record {
  pool = pool;
  testing = 0;
  asleep = 0;
  running = 0;
  completed = 0;
  signalling = 0;
  not_completed = 0;
}

pub data Step (s : System) : System → Type 0 where
  -- A call of `Do` adds its job to those not completed.
  call : Step s (record s { testing = s.testing + 1; not_completed = s.not_completed + 1 })
  -- The test finds a worker that is free, and the job starts.
  begin :
      (n : ℕ)
      → s.testing ≡ suc n
      → is_full s.pool ≡ false
      → Step s (record s { testing = n; running = s.running + 1; pool = take_worker s.pool })
  -- The test finds none; `Wait` gives up the mutex and sleeps in one step.
  sleep :
      (n : ℕ)
      → s.testing ≡ suc n
      → is_full s.pool ≡ true
      → Step s (record s { testing = n; asleep = s.asleep + 1 })
  complete :
      (n m : ℕ)
      → s.running ≡ suc n
      → s.not_completed ≡ suc m
      → Step s (record s { running = n; completed = s.completed + 1; not_completed = m })
  free :
      (n : ℕ)
      → s.completed ≡ suc n
      → Step s
          (record s { completed = n; signalling = s.signalling + 1; pool = free_worker s.pool })
  -- `Signal` wakes one caller, which tests again, or is lost if none sleeps.
  signal_one :
      (n m : ℕ)
      → s.signalling ≡ suc n
      → s.asleep ≡ suc m
      → Step s (record s { signalling = n; asleep = m; testing = s.testing + 1 })
  signal_none : (n : ℕ) → s.signalling ≡ suc n → s.asleep ≡ 0 → Step s (record s { signalling = n })

pub data Reach (s : System) : System → Type 0 where
  here : Reach s s
  next : {t u : System} → Reach s t → Step t u → Reach s u
