-- ===== src/Wallet/Ownership.antt =====
-- Whose request a transfer is: the handler does not ask.
use wallet_app.Base.{◌≡◌, refl, sym, ◌∙◌, inl, inr, String, ℤ, pos, leb_ℤ, Bool-cases}
use wallet_app.Models.{TransactionModel, TransactionStatus}
use wallet_app.Errors.{Result, ok, err}
use wallet_app.Wallet.{World, Env, transfer_handler, transfer_created, settle_funds, conclude}
use wallet_app.Wallet.Delivery.{db-update_transaction_status}

-- The same answer, and the same database.
abbrev SameEffect : Result TransactionModel × World → Result TransactionModel × World → Type 0
SameEffect (r, w) (r', w') = (r ≡ r') × (w.db ≡ w'.db)

conclude-SameEffect :
    (env : Env) (id user other account : String) (r : Result TransactionModel) (w : World)
    → SameEffect (conclude env id user account r w) (conclude env id other account r w)
unfolding conclude
conclude-SameEffect env id user other account (ok t) w = (
  refl,
  db-update_transaction_status env id user account TransactionStatus.completed w
      ∙ sym (db-update_transaction_status env id other account TransactionStatus.completed w),
)
conclude-SameEffect env id user other account (err e) w = (
  refl,
  db-update_transaction_status env id user account TransactionStatus.failed w
      ∙ sym (db-update_transaction_status env id other account TransactionStatus.failed w),
)

transfer_created-SameEffect :
    (env : Env) (id user other from to currency : String) (amount : ℤ) (r : Result (Unit {0}))
    (w : World)
    → SameEffect
        (transfer_created env id user from to currency amount r w)
        (transfer_created env id other from to currency amount r w)
unfolding transfer_created settle_funds
transfer_created-SameEffect env id user other from to currency amount (err e) w = (refl, refl)
transfer_created-SameEffect env id user other from to currency amount (ok _) w =
    conclude-SameEffect env id user other from _ _

-- Whoever asks for a transfer, its handler gives the same answer and leaves the same database: that
-- the source account belongs to the user is never checked.
pub transfer_handler_ignores_user :
    (env : Env) (id user other from to currency : String) (amount : ℤ) (w : World)
    → let (r, w₁) = transfer_handler env id user from to currency amount w in
      let (r', w₂) = transfer_handler env id other from to currency amount w in
      (r ≡ r') × (w₁.db ≡ w₂.db)
unfolding transfer_handler
transfer_handler_ignores_user env id user other from to currency amount w =
    elim (Bool-cases (leb_ℤ amount (pos 0))) [
      | inl refused ↦ rw refused (refl, refl)
      | inr positive ↦
          rw positive (transfer_created-SameEffect env id user other from to currency amount _ _)
    ]
