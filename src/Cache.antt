-- ===== src/Cache.antt =====
-- shared/cache/client.go: the cache of sessions, idempotency locks and balances, which all services
-- share. Redis is not under the repository: it is a key-value store whose entries expire, and which
-- of its calls fail is a parameter (`CacheFaults`). The three key prefixes are the three
-- constructors of `Key`.
pub mod Locks
use wallet_app.Base.{
  ℕ, ◌+◌, ◌*◌, String, Bool, true, false, Option, none, some, ◌==◌, ℤ, ltb, if◌then◌else◌,
}
use wallet_app.Models.{UserAuthModel}
use wallet_app.Errors.{Result, ok, err, cache_error}

-- `tokenKey`, `idempotencyKey` and `balanceKey`.
pub data Key : Type 0 where
  token_key idempotency_key balance_key : String → Key

abbrev pub same_key : Key → Key → Bool
same_key (token_key a) (token_key b) = a == b
same_key (idempotency_key a) (idempotency_key b) = a == b
same_key (balance_key a) (balance_key b) = a == b
same_key _ _ = false

pub data Value : Type 0 where
  token : UserAuthModel → Value
  text : String → Value
  number : ℤ → Value

pub record Entry : Type 0 where
  pub value : Value
  pub expires : ℕ

abbrev pub Cache : Type 0
Cache = Key → Option Entry

pub data CacheCall : Type 0 where
  set get del set_nx : Key → CacheCall

abbrev pub CacheFaults : Type 0
CacheFaults = CacheCall → Bool

-- The client's GET, SET with a time to live, and DEL.
abbrev pub unexpired : ℕ → Option Entry → Option Value
unexpired now none = none
unexpired now (some e) = if ltb now e.expires then some e.value else none

abbrev pub read : ℕ → Key → Cache → Option Value
read now k c = unexpired now (c k)

abbrev pub write : Key → Value → ℕ → Cache → Cache
write k v expires c j = if same_key k j then some (record { value = v; expires = expires }) else c j

abbrev pub remove : Key → Cache → Cache
remove k c j = if same_key k j then none else c j

-- The times to live, in seconds; the first two come from the environment.
pub record Ttl : Type 0 where
  pub access_token_ttl : ℕ
  pub balance_ttl : ℕ

abbrev pub idempotency_ttl : ℕ
idempotency_ttl = 60 * 60 * 24

-- `StoreToken`
unfoldable pub store_token : Ttl → ℕ → CacheFaults → String → String → Cache → Result String × Cache
store_token ttl now fails user_id refresh_token c =
    if fails (set (token_key user_id)) then (err cache_error, c) else (
      ok refresh_token,
      write (token_key user_id)
          (token (record {
            id = "";
            refresh_token = refresh_token;
            user_id = user_id;
            is_currently_logged_in = true;
            created_at = now;
            updated_at = now;
          }))
          (now + ttl.access_token_ttl) c,
    )

unfoldable pub decode_token : Option Value → Result (Option UserAuthModel)
decode_token none = ok none
decode_token (some (token a)) = ok (some a)
decode_token (some _) = err cache_error

-- `FindTokenByUserId`
unfoldable pub find_token_by_user_id :
    ℕ → CacheFaults → String → Cache → Result (Option UserAuthModel)
unfolding decode_token
find_token_by_user_id now fails user_id c =
    if fails (get (token_key user_id))
    then err cache_error
    else decode_token (read now (token_key user_id) c)

unfoldable pub delete : CacheFaults → Key → Cache → Result (Unit {0}) × Cache
delete fails k c = if fails (del k) then (err cache_error, c) else (ok tt, remove k c)

-- `DeleteTokenByUserId`
unfoldable pub delete_token_by_user_id : CacheFaults → String → Cache → Result (Unit {0}) × Cache
unfolding delete
delete_token_by_user_id fails user_id = delete fails (token_key user_id)

-- SETNX: writes only where no unexpired entry stands, and says whether it wrote.
abbrev pub set_if_absent : ℕ → Key → Value → ℕ → Cache → Bool × Cache
set_if_absent now k v expires c = elim (read now k c) [
  | some _ ↦ (false, c)
  | none ↦ (true, write k v expires c)
]

-- `TransactionIdempotencyCheck`
unfoldable pub transaction_idempotency_check :
    ℕ → CacheFaults → String → Cache → Result Bool × Cache
transaction_idempotency_check now fails id c =
    if fails (set_nx (idempotency_key id))
    then (err cache_error, c)
    else let (fresh, c') =
        set_if_absent now (idempotency_key id) (text id) (now + idempotency_ttl) c in
      (ok fresh, c')

-- `TransactionIdempotencyRelease`
unfoldable pub transaction_idempotency_release :
    CacheFaults → String → Cache → Result (Unit {0}) × Cache
unfolding delete
transaction_idempotency_release fails id = delete fails (idempotency_key id)

unfoldable pub store_balance_entry : Ttl → ℕ → CacheFaults → String → ℤ → Cache → Result ℤ × Cache
store_balance_entry ttl now fails account amount c =
    if fails (set (balance_key account))
    then (err cache_error, c)
    else (ok amount, write (balance_key account) (number amount) (now + ttl.balance_ttl) c)

unfoldable pub get_or_store :
    Option Value → Ttl → ℕ → CacheFaults → String → ℤ → Cache → Result ℤ × Cache
unfolding store_balance_entry
get_or_store (some (number n)) ttl now fails account amount c = (ok n, c)
get_or_store none ttl now fails account amount c =
    store_balance_entry ttl now fails account amount c
get_or_store (some _) ttl now fails account amount c = (err cache_error, c)

-- `GetOrStoreAccountBalance`: the cached number, else the given one, which is stored.
unfoldable pub get_or_store_account_balance :
    Ttl → ℕ → CacheFaults → String → ℤ → Cache → Result ℤ × Cache
unfolding get_or_store
get_or_store_account_balance ttl now fails account amount c =
    if fails (get (balance_key account))
    then (err cache_error, c)
    else get_or_store (read now (balance_key account) c) ttl now fails account amount c

-- `InvalidateAccountBalance`
unfoldable pub invalidate_account_balance : CacheFaults → String → Cache → Result (Unit {0}) × Cache
unfolding delete
invalidate_account_balance fails account = delete fails (balance_key account)
