-- ===== src/Message/Outbox/Errors.antt =====
-- What `processBatch` reports.
use go_service_template.Common.{
  ℕ, zero, suc, ◌≡◌, refl, ap, ◌∙◌, Bool, false, Option, none, some, [], Error, ok, err,
}
use go_service_template.Message.{Effect, StorageSpecification}
use go_service_template.Message.Outbox.{
  Outbox, after_find, process_locked, after_release, after_lock, process_batch, process_impl,
  find_specification, after_batch,
}

module _ {W : Type 0} (o : Outbox W) where
  open o use {storage}

  after_release-error :
      (all_processed : Bool) (r : Option Error × W) → (after_release o all_processed r).0.1 ≡ r.0
  unfolding after_release
  after_release-error all_processed (none, w) = refl
  after_release-error all_processed (some e, w) = refl

  -- Once the lock is taken, `processBatch` returns the error of the release of the lock and no
  -- other: an error of `Find`, `Produce` or `Delete` is lost, and a release that succeeds makes
  -- the batch look like one without an error.
  pub process_batch-error :
      (w w' : W) (release : Effect W)
      → storage.lock [] w ≡ (ok release, w')
      → (process_batch o w).0.1 ≡ (release (process_locked o w').1).0
  unfolding process_batch after_lock
  process_batch-error w w' release e =
      rw (e, after_lock)
        (after_release-error (process_locked o w').0.0 (release (process_locked o w').1))

  -- The lock is always granted and released, and the storage cannot be read.
  pub record IsUnreadable : Type 0 where
    pub locks :
        (w : W)
        → (release : Effect W) × (w' : W) × (storage.lock [] w ≡ (ok release, w'))
          × ((v : W) → (release v).0 ≡ none)
    pub fails :
        (spec : StorageSpecification) (w : W)
        → (e : Error) × (w' : W) × (storage.find spec w ≡ (err e, w'))

  process_locked_fails : IsUnreadable → (w : W) → (process_locked o w).0.0 ≡ false
  unfolding process_locked after_find
  process_locked_fails u w =
      let (e, w', f) = u.fails (find_specification o w) w in rw (f, after_find)

  after_release_quiet :
      (all_processed : Bool) (r : Option Error × W)
      → r.0 ≡ none
      → after_release o all_processed r ≡ ((all_processed, none), r.1)
  unfolding after_release
  after_release_quiet all_processed (none, w) h = refl
  after_release_quiet all_processed (some e, w) h = cc

  process_batch_fails :
      IsUnreadable → (w : W) → (w' : W) × (process_batch o w ≡ ((false, none), w'))
  unfolding process_batch after_lock
  process_batch_fails u w =
      let (release, w', locked, quiet) = u.locks w in
      let v = (process_locked o w').1 in
      (
        (release v).1,
        rw (locked, after_lock)
            (after_release_quiet (process_locked o w').0.0 (release v) (quiet v)
              ∙ ap (λ b. ((b, none), (release v).1)) (process_locked_fails u w')),
      )

  -- While the storage cannot be read but its lock works, the loop of `process` does not end: no
  -- number of rounds is enough, so the error never reaches the backoff around the loop.
  pub process_impl_stuck : IsUnreadable → (fuel : ℕ) (w : W) → process_impl o fuel w ≡ none
  unfolding process_impl after_batch
  process_impl_stuck u zero w = refl
  process_impl_stuck u (suc fuel) w =
      let (w', e) = process_batch_fails u w in
      ap (λ b. after_batch o b (process_impl o fuel)) e ∙ process_impl_stuck u fuel w'
