-- ===== src/Wallet/Listing/History.antt =====
-- The history of an account: its transactions, each once, the newest first.
use wallet_app.Base.{
  ◌≤◌, ◌≡◌, refl, String, Bool, ◌&&◌, List, [], ◌∷◌, map, arith, inl, inr, leb, count_where,
  select_where, All, All-map, Bool-cases,
}
use wallet_app.Models.{TransactionModel, TransactionRow}
use wallet_app.Store.{Db}
use wallet_app.Wallet.Listing.{insert_by_time, newest_first, history, touches}

-- No transaction of a list is newer than one before it.
abbrev pub IsNewestFirst : List TransactionModel → Type 0
IsNewestFirst [] = Unit
IsNewestFirst (t ∷ ts) = All (λ t'. t'.created_at ≤ t.created_at) ts × IsNewestFirst ts

All-insert :
    (P : TransactionModel → Type 0) (t : TransactionModel) (ts : List TransactionModel)
    → P t
    → All P ts
    → All P (insert_by_time t ts)
unfolding insert_by_time
All-insert P t [] h hs = (h, tt)
All-insert P t (t' ∷ ts) h hs = elim (Bool-cases (leb t'.created_at t.created_at)) [
  | inl e ↦ rw e (h, hs)
  | inr e ↦ rw e (hs.0, All-insert P t ts h hs.1)
]

insert_by_time-IsNewestFirst :
    (t : TransactionModel) (ts : List TransactionModel)
    → IsNewestFirst ts
    → IsNewestFirst (insert_by_time t ts)
unfolding insert_by_time
insert_by_time-IsNewestFirst t [] h = (tt, tt)
insert_by_time-IsNewestFirst t (t' ∷ ts) h = elim (Bool-cases (leb t'.created_at t.created_at)) [
  | inl e ↦
      let older : t'.created_at ≤ t.created_at = ground arith in
      rw e ((older, All-map (λ x small. omega (arith, small, older)) ts h.0), h)
  | inr e ↦
      let newer : t.created_at ≤ t'.created_at = ground arith in
      rw e (
        All-insert (λ x. x.created_at ≤ t'.created_at) t ts newer h.0,
        insert_by_time-IsNewestFirst t ts h.1,
      )
]

newest_first-IsNewestFirst : (ts : List TransactionModel) → IsNewestFirst (newest_first ts)
unfolding newest_first
newest_first-IsNewestFirst [] = tt
newest_first-IsNewestFirst (t ∷ ts) =
    insert_by_time-IsNewestFirst t (newest_first ts) (newest_first-IsNewestFirst ts)

count_where-insert_by_time :
    (p : TransactionModel → Bool) (t : TransactionModel) (ts : List TransactionModel)
    → count_where p (insert_by_time t ts) ≡ count_where p (t ∷ ts)
unfolding insert_by_time count_where
count_where-insert_by_time p t [] = refl
count_where-insert_by_time p t (t' ∷ ts) = ground (arith, count_where-insert_by_time p t ts)

count_where-newest_first :
    (p : TransactionModel → Bool) (ts : List TransactionModel)
    → count_where p (newest_first ts) ≡ count_where p ts
unfolding newest_first count_where
count_where-newest_first p [] = refl
count_where-newest_first p (t ∷ ts) =
    ground (arith, count_where-insert_by_time p t (newest_first ts), count_where-newest_first p ts)

count_where-selected :
    (p : TransactionModel → Bool) (q : TransactionRow → Bool) (rows : List TransactionRow)
    → count_where p (map (λ r. r.model) (select_where q rows))
      ≡ count_where (λ r. q r && p r.model) rows
unfolding count_where select_where
count_where-selected p q [] = refl
count_where-selected p q (r ∷ rows) = ground (arith, count_where-selected p q rows)

-- The history of an account has each of the account's rows as often as the table, whichever test
-- they are counted by, and no others, and none stands behind an older one.
pub history-IsNewestFirst :
    (account : String) (db : Db) (p : TransactionModel → Bool)
    → IsNewestFirst (history account db)
      × (count_where p (history account db)
          ≡ count_where (λ r. touches account r && p r.model) db.transactions)
unfolding history
history-IsNewestFirst account db p =
    let rows =
      map (λ (r : TransactionRow). r.model) (select_where (touches account) db.transactions) in
    (
      newest_first-IsNewestFirst rows,
      rw (count_where-newest_first p rows)
          (count_where-selected p (touches account) db.transactions),
    )
