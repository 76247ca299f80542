-- ===== src/Sql/Transaction/Atomic.antt =====
-- A transaction that `WithinContext` begins is all or nothing, and is ended when it returns.
use go_service_template.Common.{
  ℕ, ◌≡◌, refl, ap, ◌∙◌, ◌⊎◌, Option, none, some, List, [], ◌∷◌, Option-cases, inl, inr, Error,
  Result, ok, err,
}
use go_service_template.Message.{Effect, and_then}
use go_service_template.User.{Lock}
use go_service_template.Sql.Transaction.{
  Context, SqlTransaction, parent_tx, sort_locks, take_locks, begin_with, begin_tx, after_commit,
  with_state, after_locks, run_locked, finish, after_begin, within_context,
}

abbrev pub Begun : {W D : Type 0} → (W → D) → (ℕ → W → D) → W → Result ℕ × W → Type 0
Begun data_of view w (ok tx, w') = (data_of w' ≡ data_of w) × (view tx w' ≡ data_of w)
Begun data_of view w (err e, w') = data_of w' ≡ data_of w

abbrev pub Committed :
    {W D : Type 0} → (W → D) → (ℕ → W → D) → (ℕ → W → Type 0) → ℕ → W → Option Error × W → Type 0
Committed data_of view Ended tx w (none, w') = (data_of w' ≡ view tx w) × Ended tx w'
Committed data_of view Ended tx w (some e, w') = (data_of w' ≡ data_of w) ⊎ (data_of w' ≡ view tx w)

-- What is relied on of the database: `data_of` is its committed data, `view` what a transaction sees,
-- which are the committed data when it begins, and `Ended` tells that a transaction is over. Only a
-- commit makes what the transaction sees the committed data; a commit that reports an error may have
-- done so or not. A rollback leaves the committed data as they are, also one after a commit, and the
-- transaction is over after it.
pub record Database {W : Type 0} (t : SqlTransaction W) (D : Type 0) : Type 1 where
  pub data_of : W → D
  pub view : ℕ → W → D
  pub Ended : ℕ → W → Type 0
  pub begins_on_connection : (k : ℕ) (w : W) → Begun data_of view w (t.begin_on_connection k w)
  pub begins : (c : Context) (w : W) → Begun data_of view w (t.begin c w)
  pub locks :
      (tx : ℕ) (l : Lock) (w : W)
      → let w' = (t.transaction_level_lock tx l w).1 in
        (data_of w' ≡ data_of w) × (view tx w' ≡ view tx w)
  pub commits : (tx : ℕ) (w : W) → Committed data_of view Ended tx w (t.commit tx w)
  pub rollbacks :
      (tx : ℕ) (w : W) → let w' = (t.rollback tx w).1 in (data_of w' ≡ data_of w) × Ended tx w'
  pub callback :
      (f : W → W) (tx : ℕ)
      → t.on_commit ≡ some f
      → (w : W) → Ended tx w
      → (data_of (f w) ≡ data_of w) × Ended tx (f w)

module _ {W D : Type 0} (t : SqlTransaction W) (d : Database t D) where
  open d use {data_of, view, Ended}

  -- How a call ends whose transaction was to begin with the result `began`. Where the function ran,
  -- it ran in that transaction, which saw the committed data of before.
  pub data IsAtomic {S : Type 0} (fn : Context → Effect (S × W)) (a : S) (w : W) (began : Result ℕ)
      : Option Error × (S × W) → Type 0 where
    -- It returned no error, and what the transaction saw after it is committed.
    done :
        (tx : ℕ) (c : Context) (v v' w' : W) (b : S)
        → began ≡ ok tx
        → c.tx ≡ some (t.instance_id, tx)
        → view tx v ≡ data_of w
        → fn c (a, v) ≡ (none, (b, v'))
        → data_of w' ≡ view tx v'
        → Ended tx w'
        → IsAtomic fn a w began (none, (b, w'))
    -- It returned no error and the commit reported one: all of it is committed or none.
    in_doubt :
        (tx : ℕ) (c : Context) (v v' w' : W) (b : S) (e : Error)
        → began ≡ ok tx
        → c.tx ≡ some (t.instance_id, tx)
        → view tx v ≡ data_of w
        → fn c (a, v) ≡ (none, (b, v'))
        → (t.commit tx v').0 ≡ some e
        → (data_of w' ≡ data_of w) ⊎ (data_of w' ≡ view tx v')
        → Ended tx w'
        → IsAtomic fn a w began (some (Error.wrap "commit transaction: %w" e), (b, w'))
    -- It returned an error: nothing is committed.
    failed :
        (tx : ℕ) (c : Context) (v v' w' : W) (b : S) (e : Error)
        → began ≡ ok tx
        → c.tx ≡ some (t.instance_id, tx)
        → view tx v ≡ data_of w
        → fn c (a, v) ≡ (some e, (b, v'))
        → data_of w' ≡ data_of w
        → Ended tx w'
        → IsAtomic fn a w began (some e, (b, w'))
    -- A lock was not taken.
    not_locked :
        (tx : ℕ) (w' : W) (e : Error)
        → began ≡ ok tx
        → data_of w' ≡ data_of w
        → Ended tx w'
        → IsAtomic fn a w began (some e, (a, w'))
    -- No transaction was begun.
    not_begun :
        (w' : W) (e : Error)
        → began ≡ err e
        → data_of w' ≡ data_of w
        → IsAtomic fn a w began (some (Error.wrap "start db transaction: %w" e), (a, w'))

  abbrev Kept : ℕ → W → W → Type 0
  Kept tx w w' = (data_of w' ≡ data_of w) × (view tx w' ≡ view tx w)

  and_then-Kept :
      (tx : ℕ) (w : W) (r : Option Error × W) (rest : Effect W)
      → ((v : W) → Kept tx v (rest v).1)
      → Kept tx w r.1
      → Kept tx w (and_then r rest).1
  and_then-Kept tx w (none, v) rest f (p, q) = ((f v).0 ∙ p, (f v).1 ∙ q)
  and_then-Kept tx w (some e, v) rest f h = h

  take_locks-Kept : (tx : ℕ) (ls : List Lock) (w : W) → Kept tx w (take_locks t tx ls w).1
  unfolding take_locks
  take_locks-Kept tx [] w = (refl, refl)
  take_locks-Kept tx (l ∷ ls) w =
      and_then-Kept tx w (t.transaction_level_lock tx l w) (take_locks t tx ls)
        (take_locks-Kept tx ls) (d.locks tx l w)

  begin_with-Begun :
      (k : Option ℕ) (c : Context) (w : W) → Begun data_of view w (begin_with t k c w)
  unfolding begin_with
  begin_with-Begun (some k) c w = d.begins_on_connection k w
  begin_with-Begun none c w = d.begins c w

  module _ {S : Type 0} (fn : Context → Effect (S × W)) where
    -- In a transaction of this database, the function leaves the committed data as they are.
    abbrev pub RunsInside : Type 0
    RunsInside =
        (c : Context) (tx : ℕ)
        → c.tx ≡ some (t.instance_id, tx)
        → (s : S) (v : W) → data_of (fn c (s, v)).1.1 ≡ data_of v

    module _ (a : S) (w : W) (began : Result ℕ) (tx : ℕ) (o : began ≡ ok tx) (c : Context)
        (inside : c.tx ≡ some (t.instance_id, tx)) where
      after_commit-IsAtomic :
          (b : S) (v u : W) (r : Option Error × W)
          → view tx v ≡ data_of w
          → fn c (a, v) ≡ (none, (b, u))
          → data_of u ≡ data_of w
          → t.commit tx u ≡ r
          → Committed data_of view Ended tx u r
          → IsAtomic fn a w began (with_state t b (after_commit t r tx))
      unfolding after_commit
      after_commit-IsAtomic b v u (none, w') sees ran same e (p, q) =
          elim (Option-cases t.on_commit) [
            | inl n ↦ rw n (done tx c v u w' b o inside sees ran p q)
            | inr (f, n) ↦
                let (k, l) = d.callback f tx n w' q in
                rw n (done tx c v u (f w') b o inside sees ran (k ∙ p) l)
          ]
      after_commit-IsAtomic b v u (some x, w') sees ran same e h =
          let (k, l) = d.rollbacks tx w' in
          in_doubt tx c v u _ b x o inside sees ran (ap (λ r. r.0) e)
            (elim h [ inl z ↦ inl (k ∙ z ∙ same) | inr z ↦ inr (k ∙ z) ]) l

      finish-IsAtomic :
          (v : W) (r : Option Error × (S × W))
          → view tx v ≡ data_of w
          → fn c (a, v) ≡ r
          → data_of r.1.1 ≡ data_of w
          → IsAtomic fn a w began (finish t tx r)
      unfolding finish
      finish-IsAtomic v (none, (b, u)) sees ran same =
          after_commit-IsAtomic b v u (t.commit tx u) sees ran same refl (d.commits tx u)
      finish-IsAtomic v (some e, (b, u)) sees ran same =
          let (k, l) = d.rollbacks tx u in failed tx c v u _ b e o inside sees ran (k ∙ same) l

      locked-IsAtomic :
          (v : W) (r : Option Error × W)
          → RunsInside
          → data_of v ≡ data_of w
          → view tx v ≡ data_of w
          → Kept tx v r.1
          → IsAtomic fn a w began (finish t tx (after_locks t r fn c a))
      unfolding after_locks finish
      locked-IsAtomic v (none, u) runs same sees (p, q) =
          finish-IsAtomic u (fn c (a, u)) (q ∙ sees) refl (runs c tx inside a u ∙ p ∙ same)
      locked-IsAtomic v (some e, u) runs same sees (p, q) =
          let (k, l) = d.rollbacks tx u in not_locked tx _ e o (k ∙ p ∙ same) l

    Begun-IsAtomic :
        (a : S) (w : W) (c : Context) (locks : List Lock) (r : Result ℕ × W)
        → RunsInside
        → Begun data_of view w r
        → IsAtomic fn a w r.0 (after_begin t r fn locks c a)
    unfolding after_begin run_locked
    Begun-IsAtomic a w c locks (err e, v) runs h = not_begun v e refl h
    Begun-IsAtomic a w c locks (ok tx, v) runs (p, q) =
        locked-IsAtomic a w (ok tx) tx refl (record c { tx = some (t.instance_id, tx) }) refl v
          (take_locks t tx (sort_locks locks) v) runs p q (take_locks-Kept tx (sort_locks locks) v)

    -- Over a database with the laws of `Database`, if the context has no transaction of it, and the
    -- function leaves the committed data as they are when it runs in a transaction, then `WithinContext`
    -- returns no error only if the function returned none and what its transaction saw then is
    -- committed; if the commit reports an error, all of that is committed or none; after any other
    -- error nothing is committed. The transaction, if one was begun, is ended.
    pub within_context-IsAtomic :
        (locks : List Lock) (c : Context) (a : S) (w : W)
        → RunsInside
        → parent_tx t.instance_id c.tx ≡ none
        → IsAtomic fn a w (begin_tx t c w).0 (within_context t fn locks c (a, w))
    unfolding within_context begin_tx
    within_context-IsAtomic locks c a w runs no_parent =
        rw no_parent
          (Begun-IsAtomic a w c locks (begin_tx t c w) runs (begin_with-Begun c.connection c w))
