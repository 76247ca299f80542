-- ===== src/Worker/Pool/Bounds.antt =====
-- A pool never runs more jobs at once than its limit, and no caller sleeps for good.
use go_service_template.Common.{
  ℕ, ℤ, zero, suc, ◌+◌, ◌≤◌, ◌<◌, ◌*◌, Bool-cases, ◌≡◌, refl, ◌⊎◌, inl, inr, arith,
}
use go_service_template.Worker.Pool.{
  new_pool, is_full, take_worker, free_worker, System, start, Step, Reach,
}

-- The workers that are counted are those that run a job or have not been freed; a pool with a limit
-- keeps it, and has a caller or a signal on its way for each free worker while a caller sleeps. The
-- jobs that are not completed are those of the callers and those that run.
pub record IsWell (limit : ℕ) (s : System) : Type 0 where
  pub limit_kept : s.pool.max_workers ≡ limit
  pub counted : 0 < limit → s.pool.current_workers ≡ s.running + s.completed
  pub bounded : 0 < limit → s.pool.current_workers ≤ limit
  pub awake :
      0 < s.asleep → (0 < limit) × (limit ≤ s.pool.current_workers + s.signalling + s.testing)
  pub counts_jobs : s.not_completed ≡ s.testing + s.asleep + s.running

Step-IsWell : (limit : ℕ) {s t : System} → Step s t → IsWell limit s → IsWell limit t
unfolding is_full take_worker free_worker
Step-IsWell limit Step.call w = record {
  limit_kept = ground arith;
  counted = ground arith;
  bounded = ground arith;
  awake = ground arith;
  counts_jobs = ground arith;
}
Step-IsWell limit (Step.begin n e f) w = record {
  limit_kept = ground arith;
  counted = ground arith;
  bounded = ground arith;
  awake = ground arith;
  counts_jobs = ground arith;
}
Step-IsWell limit (Step.sleep n e f) w = record {
  limit_kept = ground arith;
  counted = ground arith;
  bounded = ground arith;
  awake = ground arith;
  counts_jobs = ground arith;
}
Step-IsWell limit (Step.complete n m e f) w = record {
  limit_kept = ground arith;
  counted = ground arith;
  bounded = ground arith;
  awake = ground arith;
  counts_jobs = ground arith;
}
Step-IsWell limit (Step.free n e) w = record {
  limit_kept = ground arith;
  counted = ground arith;
  bounded = ground arith;
  awake = ground arith;
  counts_jobs = ground arith;
}
Step-IsWell limit (Step.signal_one n m e f) w = record {
  limit_kept = ground arith;
  counted = ground arith;
  bounded = ground arith;
  awake = ground arith;
  counts_jobs = ground arith;
}
Step-IsWell limit (Step.signal_none n e f) w = record {
  limit_kept = ground arith;
  counted = ground arith;
  bounded = ground arith;
  awake = ground arith;
  counts_jobs = ground arith;
}

start-IsWell :
    (num_cpu : ℕ) (n : ℤ) → IsWell (new_pool num_cpu n).max_workers (start (new_pool num_cpu n))
start-IsWell num_cpu (ℤ.pos n) = record {
  limit_kept = refl;
  counted = ground arith;
  bounded = ground arith;
  awake = ground arith;
  counts_jobs = refl;
}
start-IsWell num_cpu (ℤ.negsuc n) = record {
  limit_kept = refl;
  counted = ground arith;
  bounded = ground arith;
  awake = ground arith;
  counts_jobs = refl;
}

Reach-IsWell : (limit : ℕ) {s t : System} → Reach s t → IsWell limit s → IsWell limit t
Reach-IsWell limit Reach.here w = w
Reach-IsWell limit (Reach.next r st) w = Step-IsWell limit st (Reach-IsWell limit r w)

-- Whatever the order of the steps, a pool with a limit above 0 runs at most as many jobs at once, and
-- `Wait` waits for exactly the jobs that run and those of the callers of `Do`.
pub Reach-running :
    (num_cpu : ℕ) (n : ℤ) (t : System)
    → Reach (start (new_pool num_cpu n)) t
    → 0 < (new_pool num_cpu n).max_workers
    → (t.running ≤ (new_pool num_cpu n).max_workers)
      × (t.not_completed ≡ t.testing + t.asleep + t.running)
Reach-running num_cpu n t r h =
    let w = Reach-IsWell _ r (start-IsWell num_cpu n) in
    let c = w.counted h in let b = w.bounded h in let j = w.counts_jobs in (omega arith, j)

-- What every step but a call lowers.
abbrev pub work : System → ℕ
work s = 5 * s.testing + 4 * s.asleep + 4 * s.running + 3 * s.completed + 2 * s.signalling

Step-work : {s t : System} → Step s t → (work t < work s) ⊎ (t.not_completed ≡ s.not_completed + 1)
Step-work Step.call = inr refl
Step-work (Step.begin n e f) = inl (omega arith)
Step-work (Step.sleep n e f) = inl (omega arith)
Step-work (Step.complete n m e f) = inl (omega arith)
Step-work (Step.free n e) = inl (omega arith)
Step-work (Step.signal_one n m e f) = inl (omega arith)
Step-work (Step.signal_none n e f) = inl (omega arith)

zero-or-suc : (n : ℕ) → (n ≡ 0) ⊎ ((m : ℕ) × (n ≡ suc m))
zero-or-suc zero = inl refl
zero-or-suc (suc m) = inr (m, refl)

abbrev CanWork : System → Type 0
CanWork s = (t : System) × Step s t × (work t < work s)

testing-CanWork : (s : System) (n : ℕ) → s.testing ≡ suc n → CanWork s
testing-CanWork s n e = elim (Bool-cases (is_full s.pool)) [
  | inl f ↦ (_, Step.sleep n e f, omega arith)
  | inr f ↦ (_, Step.begin n e f, omega arith)
]

running-CanWork : (s : System) (n : ℕ) → s.running ≡ suc n → 0 < s.not_completed → CanWork s
running-CanWork s n e h = elim (zero-or-suc s.not_completed) [
  | inl f ↦ absurd (omega arith)
  | inr (m, f) ↦ (_, Step.complete n m e f, omega arith)
]

asleep-CanWork :
    (limit : ℕ) (s : System) (n : ℕ)
    → IsWell limit s
    → s.asleep ≡ suc n
    → s.testing ≡ 0
    → s.running ≡ 0
    → CanWork s
asleep-CanWork limit s n w e t r =
    let (h, a) = w.awake (omega arith) in
    let c = w.counted h in
    elim (zero-or-suc s.signalling) [
      | inr (m, f) ↦ (_, Step.signal_one m n f e, omega arith)
      | inl f ↦ elim (zero-or-suc s.completed) [
        | inr (m, g) ↦ (_, Step.free m g, omega arith)
        | inl g ↦ absurd (omega arith)
      ]
    ]

IsWell-CanWork : (limit : ℕ) (s : System) → IsWell limit s → 0 < s.not_completed → CanWork s
IsWell-CanWork limit s w h = elim (zero-or-suc s.testing) [
  | inr (n, e) ↦ testing-CanWork s n e
  | inl e ↦ elim (zero-or-suc s.running) [
    | inr (n, f) ↦ running-CanWork s n f h
    | inl f ↦ elim (zero-or-suc s.asleep) [
      | inr (n, g) ↦ asleep-CanWork limit s n w g e f
      | inl g ↦ (let c = w.counts_jobs in absurd (omega arith))
    ]
  ]
]

-- No wakeup is lost: while a job is not completed, some thread can take a step that lowers `work`, and
-- every step lowers it but a new call of `Do`. So without new calls all jobs are completed.
pub Reach-work :
    (num_cpu : ℕ) (n : ℤ) (t : System)
    → Reach (start (new_pool num_cpu n)) t
    → 0 < t.not_completed
    → ((u : System) × Step t u × (work u < work t))
      × ((u : System) → Step t u → (work u < work t) ⊎ (u.not_completed ≡ t.not_completed + 1))
Reach-work num_cpu n t r h =
    (IsWell-CanWork _ t (Reach-IsWell _ r (start-IsWell num_cpu n)) h, λ u s. Step-work s)
