-- ===== src/Tests/Samples.antt =====
-- A small database: two accounts, a completed deposit and a pending transfer.
use wallet_app.Base.{
  refl, String, false, none, List, [], ◌∷◌, arith, ℤ, pos, ◌+ℤ◌, ◌-ℤ◌, eq_iff, count_where,
}
use wallet_app.Models.{
  AccountModel, TransactionRow, TransactionStatus, TransactionType, transfer, deposit,
}
use wallet_app.Store.{Db}
use wallet_app.Cache.{Ttl}
use wallet_app.Ledger.{ledger_balance, counts_for, signed_amount}
use wallet_app.Repository.{row_allowed}
use wallet_app.Repository.Invariant.{IsValid}
use wallet_app.Wallet.{World, Env}
use wallet_app.Wallet.Redelivery.{quiet}

abbrev pub account : String → String → ℤ → AccountModel
account id user balance = record {
  id = id;
  user_id = user;
  created_at = 0;
  updated_at = 0;
  balance = balance;
  currency = "EUR";
}

abbrev pub row : String → TransactionType → String → String → ℤ → TransactionStatus → TransactionRow
row id kind from to amount status = record {
  model = record {
    id = id;
    from_account = from;
    to_account = to;
    amount = amount;
    currency = "EUR";
    status = status;
    created_at = 0;
    updated_at = 0;
  };
  transaction_type = kind;
}

abbrev pub paid_in : TransactionRow
paid_in = row "t0" deposit "a" "a" (pos 100) TransactionStatus.completed

abbrev pub pay : ℤ → TransactionStatus → TransactionRow
pay amount status = row "t1" transfer "a" "b" amount status

abbrev pub db_with : List TransactionRow → ℤ → ℤ → Db
db_with rows x y = record {
  users = [];
  user_auth = [];
  accounts = account "a" "ann" x ∷ account "b" "bob" y ∷ [];
  transactions = rows;
  outbox = [];
}

-- Before a transfer of 30, before one of 130, and before any transfer.
abbrev pub before : Db
before = db_with (paid_in ∷ pay (pos 30) TransactionStatus.pending ∷ []) (pos 100) (pos 0)

abbrev pub overdrawn : Db
overdrawn = db_with (paid_in ∷ pay (pos 130) TransactionStatus.pending ∷ []) (pos 100) (pos 0)

abbrev pub refused : Db
refused = db_with (paid_in ∷ pay (pos 130) TransactionStatus.failed ∷ []) (pos 100) (pos 0)

abbrev pub fresh : Db
fresh = db_with (paid_in ∷ []) (pos 100) (pos 0)

abbrev pub after : Db
after = db_with (paid_in ∷ pay (pos 30) TransactionStatus.completed ∷ []) (pos 70) (pos 30)

pub before-IsValid : IsValid before
unfolding count_where row_allowed ledger_balance counts_for signed_amount ◌+ℤ◌
before-IsValid = record {
  one_transaction = λ id. ground (arith, eq_iff "t0" id, eq_iff "t1" id, eq_iff "t0" "t1");
  one_account = λ id. ground (arith, eq_iff "a" id, eq_iff "b" id, eq_iff "a" "b");
  rows_allowed = (refl, (refl, tt));
  reconciled = (refl, (refl, tt));
  nonneg = (omega arith, (omega arith, tt));
}

pub overdrawn-IsValid : IsValid overdrawn
unfolding count_where row_allowed ledger_balance counts_for signed_amount ◌+ℤ◌
overdrawn-IsValid = record {
  one_transaction = λ id. ground (arith, eq_iff "t0" id, eq_iff "t1" id, eq_iff "t0" "t1");
  one_account = λ id. ground (arith, eq_iff "a" id, eq_iff "b" id, eq_iff "a" "b");
  rows_allowed = (refl, (refl, tt));
  reconciled = (refl, (refl, tt));
  nonneg = (omega arith, (omega arith, tt));
}

pub refused-IsValid : IsValid refused
unfolding count_where row_allowed ledger_balance counts_for signed_amount ◌+ℤ◌
refused-IsValid = record {
  one_transaction = λ id. ground (arith, eq_iff "t0" id, eq_iff "t1" id, eq_iff "t0" "t1");
  one_account = λ id. ground (arith, eq_iff "a" id, eq_iff "b" id, eq_iff "a" "b");
  rows_allowed = (refl, (refl, tt));
  reconciled = (refl, (refl, tt));
  nonneg = (omega arith, (omega arith, tt));
}

pub fresh-IsValid : IsValid fresh
unfolding count_where row_allowed ledger_balance counts_for signed_amount ◌+ℤ◌
fresh-IsValid = record {
  one_transaction = λ id. ground (arith, eq_iff "t0" id);
  one_account = λ id. ground (arith, eq_iff "a" id, eq_iff "b" id, eq_iff "a" "b");
  rows_allowed = (refl, tt);
  reconciled = (refl, (refl, tt));
  nonneg = (omega arith, (omega arith, tt));
}

pub after-IsValid : IsValid after
unfolding count_where row_allowed ledger_balance counts_for signed_amount ◌+ℤ◌ ◌-ℤ◌
after-IsValid = record {
  one_transaction = λ id. ground (arith, eq_iff "t0" id, eq_iff "t1" id, eq_iff "t0" "t1");
  one_account = λ id. ground (arith, eq_iff "a" id, eq_iff "b" id, eq_iff "a" "b");
  rows_allowed = (refl, (refl, tt));
  reconciled = (refl, (refl, tt));
  nonneg = (omega arith, (omega arith, tt));
}

-- A world with an empty cache.
abbrev pub world : Db → World
world db = record { db = db; cache = λ _. none }

abbrev pub calm : Env
calm = quiet 5 (λ _. false)

abbrev pub ttl : Ttl
ttl = record { access_token_ttl = 900; balance_ttl = 300 }
