-- ===== src/Database/Transaction.antt =====
-- database/transaction.go: `WithTransaction`. The database in the context is an `*sql.DB`, the wrapper
-- of a transaction, or another implementation; `BeginTx` and `Commit` are outcomes, and the callback is
-- a function of the context that it gets, with the calls that it makes.
pub mod Lifecycle
use tracks.Common.{Option, none, some, List, [], ◌∷◌, ◌++◌}
use tracks.Common.Result.{Result, ok, err, panicked}
use tracks.Database.Context.{Context, with_db, from_context}

-- `T` are the transactions.
pub data Handle (T : Type 0) : Type 0 where
  sql_db : Handle T
  tx_wrapper : T → Handle T
  other : Handle T

pub data TxError (E : Type 0) : Type 0 where
  no_database : TxError E
  not_sql_db : TxError E
  begin_failed : E → TxError E
  callback_failed : E → TxError E
  commit_failed : E → TxError E

pub data TxEvent (T C : Type 0) : Type 0 where
  begin_tx : T → TxEvent T C
  commit : T → TxEvent T C
  rollback : T → TxEvent T C
  call : C → TxEvent T C

-- The calls of the callback, then its outcome: an error, a panic or nil.
abbrev pub TxFunc : Type 0 → Type 0 → Type 0 → Type 0
TxFunc T C E = Context (Handle T) → List (TxEvent T C) × Result E (Unit {0})

-- What the driver answers: the transaction that `BeginTx` gives, or its error, and the error of
-- `Commit`.
pub record Driver (T E : Type 0) : Type 0 where
  pub begins : Result E T
  pub commits : Option E

abbrev pub lift_error : {E : Type 0} → Result E (Unit {0}) → Result (TxError E) (Unit {0})
lift_error (ok u) = ok u
lift_error (err e) = err (callback_failed e)
lift_error panicked = panicked

module _ {T C E : Type 0} where
  -- `if err := fn(txCtx); err != nil`, with the deferred rollback of a panic, and the commit.
  unfoldable pub finish :
      T
      → Option E
      → List (TxEvent T C) × Result E (Unit {0})
      → List (TxEvent T C) × Result (TxError E) (Unit {0})
  finish tx commits (events, panicked) = (events ++ (rollback tx ∷ []), panicked)
  finish tx commits (events, err e) = (events ++ (rollback tx ∷ []), err (callback_failed e))
  finish tx none (events, ok u) = (events ++ (commit tx ∷ []), ok tt)
  finish tx (some e) (events, ok u) = (events ++ (commit tx ∷ []), err (commit_failed e))

  unfoldable pub begin_with :
      Context (Handle T)
      → Driver T E
      → TxFunc T C E
      → List (TxEvent T C) × Result (TxError E) (Unit {0})
  unfolding finish
  begin_with ctx driver fn = elim driver.begins [
    | ok tx ↦
        let done = finish tx driver.commits (fn (with_db ctx (tx_wrapper tx))) in
        (begin_tx tx ∷ done.0, done.1)
    | err e ↦ ([], err (begin_failed e))
    | panicked ↦ ([], panicked)
  ]

  unfoldable pub with_transaction :
      Context (Handle T)
      → Driver T E
      → TxFunc T C E
      → List (TxEvent T C) × Result (TxError E) (Unit {0})
  unfolding begin_with
  with_transaction ctx driver fn = elim (from_context ctx) [
    | none ↦ ([], err no_database)
    | some (tx_wrapper tx) ↦ ((fn ctx).0, lift_error (fn ctx).1)
    | some sql_db ↦ begin_with ctx driver fn
    | some other ↦ ([], err not_sql_db)
  ]
