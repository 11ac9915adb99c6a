-- ===== src/Database/Transaction/Lifecycle.antt =====
-- How the transactions of database/transaction.go nest.
use tracks.Common.{◌≡◌, refl, some}
use tracks.Common.Result.{ok}
use tracks.Database.Context.{Context, from_context}
use tracks.Database.Transaction.{
  Handle, sql_db, TxError, TxFunc, Driver, begin_with, with_transaction, lift_error,
}

-- A nested call joins the transaction of the outer one: it makes the same calls and gives the same
-- outcome as the callback alone, and a failure of the callback still rolls the outer one back.
pub with_transaction_nested :
    {T C E : Type 0} (ctx : Context (Handle T)) (outer : Driver T (TxError E)) (inner : Driver T E)
    (tx : T) (fn : TxFunc T C E)
    → from_context ctx ≡ some sql_db
    → outer.begins ≡ ok tx
    → with_transaction ctx outer (λ c. with_transaction c inner fn)
      ≡ with_transaction ctx outer (λ c. ((fn c).0, lift_error (fn c).1))
unfolding with_transaction begin_with
with_transaction_nested ctx outer inner tx fn db begun = rw (db, begun) refl
