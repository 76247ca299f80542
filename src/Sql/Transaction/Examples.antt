-- ===== src/Sql/Transaction/Examples.antt =====
-- Transactions over a database that holds one number. The world is the committed number, the number
-- that the transaction sees, and whether it is over.
use go_service_template.Common.{
  ℕ, ◌+◌, ◌≡◌, refl, Bool, true, false, Option, none, some, List, [], ◌∷◌, Error, Result, ok, inl,
}
use go_service_template.Message.{Effect}
use go_service_template.User.{Lock}
use go_service_template.Sql.Transaction.{
  Context, SqlTransaction, parent_tx, begin_tx, within_context,
}
use go_service_template.Sql.Transaction.Atomic.{
  Committed, Database, IsAtomic, within_context-IsAtomic,
}

abbrev World : Type 0
World = ℕ × (ℕ × Bool)

abbrev begin : World → Result ℕ × World
begin (committed, (seen, is_over)) = (ok 0, (committed, (committed, false)))

abbrev commit : Effect World
commit (committed, (seen, true)) = (some (Error.external 2), (committed, (seen, true)))
commit (committed, (seen, false)) = (none, (seen, (seen, true)))

abbrev rollback : Effect World
rollback (committed, (seen, is_over)) = (none, (committed, (seen, true)))

abbrev postgres : SqlTransaction World
postgres = record {
  instance_id = "user";
  begin_on_connection = λ k w. begin w;
  begin = λ c w. begin w;
  commit = λ tx w. commit w;
  rollback = λ tx w. rollback w;
  transaction_level_lock = λ tx l w. (none, w);
  on_commit = none;
}

abbrev IsOver : ℕ → World → Type 0
IsOver tx w = w.1.1 ≡ true

commit-Committed :
    (tx : ℕ) (w : World) → Committed (λ w. w.0) (λ tx w. w.1.0) IsOver tx w (commit w)
commit-Committed tx (committed, (seen, true)) = inl refl
commit-Committed tx (committed, (seen, false)) = (refl, refl)

no_callback :
    (f : World → World) (tx : ℕ)
    → none ≡ some f
    → (w : World) → IsOver tx w
    → ((f w).0 ≡ w.0) × IsOver tx (f w)
no_callback f tx e w h = cc

abbrev laws : Database postgres ℕ
laws = record {
  data_of = λ w. w.0;
  view = λ tx w. w.1.0;
  Ended = IsOver;
  begins_on_connection = λ k w. (refl, refl);
  begins = λ c w. (refl, refl);
  locks = λ tx l w. (refl, refl);
  commits = commit-Committed;
  rollbacks = λ tx w. (refl, refl);
  callback = no_callback;
}

-- A function that writes, and fails if it is told to.
abbrev write : Option Error → Context → Effect (ℕ × World)
write e c (a, (committed, (seen, is_over))) = (e, (a + 1, (committed, (seen + 1, is_over))))

abbrev outside : Context
outside = record { connection = none; tx = none; update_lock = none }

abbrev locks : List Lock
locks = record { key = "b"; shared = true } ∷ record { key = "a"; shared = true } ∷ []

within_context-IsAtomic_example :
    IsAtomic postgres laws
      (write none)
      0
      (5, (2, true))
      (begin_tx postgres outside (5, (2, true))).0
      (within_context postgres (write none) locks outside (0, (5, (2, true))))
unfolding parent_tx
within_context-IsAtomic_example =
    within_context-IsAtomic postgres laws (write none) locks outside 0 (5, (2, true))
      (λ c tx e s v. refl) refl
