-- ===== src/Wallet/Listing.antt =====
-- `ListTransactions` of wallet-service/internal/services/wallet-serice.go and of its repository: the
-- transactions of an account, a page at a time.
pub mod History
pub mod Pages
use wallet_app.Base.{
  ℕ, ◌+◌, ◌*◌, String, Bool, ◌||◌, Option, none, some, List, [], ◌∷◌, map, ◌==◌, ℤ, pos, pos_part,
  ltb_ℤ, leb, eqb, length, take, drop, select_where, if◌then◌else◌,
}
use wallet_app.Base.Decimal.{int32}
use wallet_app.Models.{TransactionModel, TransactionRow}
use wallet_app.Errors.{Result, ok, err, db_error, account_id_required}
use wallet_app.Store.{Db, Faults, select_rows}

-- WHERE from_account = $1 OR to_account = $1
unfoldable pub touches : String → TransactionRow → Bool
touches account r = r.from_account == account || r.to_account == account

-- ORDER BY created_at DESC; rows of one time are taken to keep the table's order.
unfoldable pub insert_by_time : TransactionModel → List TransactionModel → List TransactionModel
insert_by_time t [] = t ∷ []
insert_by_time t (t' ∷ ts) =
    let rest = insert_by_time t ts in
    if leb t'.created_at t.created_at then t ∷ t' ∷ ts else t' ∷ rest

unfoldable pub newest_first : List TransactionModel → List TransactionModel
newest_first [] = []
newest_first (t ∷ ts) = insert_by_time t (newest_first ts)

-- The rows of the query without LIMIT and OFFSET.
unfoldable pub history : String → Db → List TransactionModel
history account db =
    newest_first (map (λ r. r.model) (select_where (touches account) db.transactions))

-- `ListTransactions` of the repository.
unfoldable pub list_rows : Faults → String → ℕ → ℕ → Db → Result (List TransactionModel)
list_rows fails account offset limit db =
    if fails select_rows then err db_error else ok (take limit (drop offset (history account db)))

-- The page size is at least 8, and the page, an int32, at least 0.
unfoldable pub effective_size : ℤ → ℕ
effective_size size = if ltb_ℤ size (pos 8) then 8 else pos_part size

unfoldable pub effective_page : ℤ → ℕ
effective_page page = if ltb_ℤ (int32 page) (pos 0) then 0 else pos_part (int32 page)

-- The empty token is `none`, and the text of a number is the number.
pub record ListTransactionsResponse : Type 0 where
  pub transactions : List TransactionModel
  pub next_page_token : Option ℕ

unfoldable pub to_response :
    ℕ → ℕ → Result (List TransactionModel) → Result ListTransactionsResponse
to_response page size (err e) = err e
to_response page size (ok ts) = ok (record {
  transactions = ts;
  next_page_token = if eqb (length ts) size then some (page + 1) else none;
})

-- `ListTransactions`
unfoldable pub list_transactions : Faults → String → ℤ → ℤ → Db → Result ListTransactionsResponse
list_transactions fails account page size db =
    if account == ""
    then err account_id_required
    else let n = effective_size size in
      let k = effective_page page in to_response k n (list_rows fails account (k * n) n db)
