-- ===== src/Outbox/Claims.antt =====
-- Claiming a batch: what it holds, and that two relays do not claim one row.
use wallet_app.Base.{
  All-anything, take, length-take, ℕ, ◌+◌, ◌≤◌, ◌<◌, zero, suc, ◌≡◌, refl, sym, ap, subst, String,
  Bool, true, List, [], ◌∷◌, map, arith, inl, inr, leb, length, count_where, select_where, All,
  All-update, All-map, Bool-cases,
}
use wallet_app.Models.{OutboxModel, OutboxStatus}
use wallet_app.Errors.{ok}
use wallet_app.Store.{Db, Faults, transact}
use wallet_app.Outbox.{has_outbox_id, scan_row}
use wallet_app.Outbox.Batch.{
  outbox_pending_get_batch, claimed_row, pick, reclaim, claim, sort_by_age, insert_by_age, is_due,
  is_stale, set_claimed, set_pending, is_among,
}

module _ {ℓ} {A : Type ℓ} where
  length-map {κ} : {B : Type κ} (f : A → B) (xs : List A) → length (map f xs) ≡ length xs
  length-map f [] = refl
  length-map f (x ∷ xs) = ap suc (length-map f xs)

  All-take {κ} : (P : A → Type κ) (n : ℕ) (xs : List A) → All P xs → All P (take n xs)
  unfolding take
  All-take P zero xs h = tt
  All-take P (suc n) [] h = tt
  All-take P (suc n) (x ∷ xs) h = (h.0, All-take P n xs h.1)

  All-mapped {κ κ'} :
      {B : Type κ} (P : B → Type κ') (f : A → B) (xs : List A)
      → All (λ x. P (f x)) xs
      → All P (map f xs)
  All-mapped P f [] h = tt
  All-mapped P f (x ∷ xs) h = (h.0, All-mapped P f xs h.1)

  All-select {κ μ} :
      {P : A → Type κ} {Q : A → Type μ} (p : A → Bool)
      → ((x : A) → P x → p x ≡ true → Q x)
      → (xs : List A) → All P xs
      → All Q (select_where p xs)
  unfolding select_where
  All-select p f [] h = tt
  All-select {P} {Q} p f (x ∷ xs) h = elim (Bool-cases (p x)) [
    | inl e ↦ rw e (f x h.0 e, All-select p f xs h.1)
    | inr e ↦ rw e (All-select p f xs h.1)
  ]

All-insert {κ} :
    (P : OutboxModel → Type κ) (o : OutboxModel) (os : List OutboxModel)
    → P o
    → All P os
    → All P (insert_by_age o os)
unfolding insert_by_age
All-insert P o [] h hs = (h, tt)
All-insert P o (o' ∷ os) h hs = elim (Bool-cases (leb o.created_at o'.created_at)) [
  | inl e ↦ rw e (h, hs)
  | inr e ↦ rw e (hs.0, All-insert P o os h hs.1)
]

All-sort {κ} :
    (P : OutboxModel → Type κ) (os : List OutboxModel) → All P os → All P (sort_by_age os)
unfolding sort_by_age
All-sort P [] h = tt
All-sort P (o ∷ os) h = All-insert P o (sort_by_age os) h.0 (All-sort P os h.1)

-- The rows that are picked are due, and have whatever the rows of the table have.
All-pick {κ μ} :
    {P : OutboxModel → Type κ} {Q : OutboxModel → Type μ} (now limit : ℕ) (os : List OutboxModel)
    → ((o : OutboxModel) → P o → is_due now o ≡ true → Q o)
    → All P os
    → All Q (pick now limit os)
unfolding pick
All-pick {Q} now limit os f h =
    All-take Q limit (sort_by_age (select_where (is_due now) os))
      (All-sort Q (select_where (is_due now) os) (All-select (is_due now) f os h))

due_status :
    (now : ℕ) (o : OutboxModel)
    → is_due now o ≡ true
    → (o.status ≡ OutboxStatus.pending) × (o.next_attempt_at ≤ now)
unfolding is_due
due_status now o due = (ground arith, ground arith)

-- A batch that is returned has run, and committed, both of its statements.
batch_ran :
    (now : ℕ) (fails : Faults) (limit : ℕ) (db : Db) {os : List OutboxModel} {db' : Db}
    → outbox_pending_get_batch now fails limit db ≡ (ok os, db')
    → let picked = pick now limit (reclaim now db.outbox) in
      (os ≡ map (claimed_row now) picked) × (db'.outbox ≡ claim now picked (reclaim now db.outbox))
unfolding outbox_pending_get_batch transact
batch_ran now fails limit db h = (ground arith, ground arith)

-- A batch has at most the given number of rows, and each is a claimed row, claimed at this time and
-- due by now.
pub outbox_pending_get_batch-claimed :
    (now : ℕ) (fails : Faults) (limit : ℕ) (db : Db) {os : List OutboxModel} {db' : Db}
    → outbox_pending_get_batch now fails limit db ≡ (ok os, db')
    → (length os ≤ limit)
      × All
          (λ o.
            (o.status ≡ OutboxStatus.claimed) × (o.updated_at ≡ now) × (o.next_attempt_at ≤ now))
          os
unfolding pick scan_row
outbox_pending_get_batch-claimed now fails limit db {os} {db'} h =
    let table = reclaim now db.outbox in
    let picked = pick now limit table in
    let due : All (λ o. o.next_attempt_at ≤ now) picked =
      All-pick now limit table (λ o _ due. (due_status now o due).1) (All-anything table) in
    subst
      (λ os.
        (length os ≤ limit)
        × All
            (λ o.
              (o.status ≡ OutboxStatus.claimed) × (o.updated_at ≡ now) × (o.next_attempt_at ≤ now))
            os)
      (sym (batch_ran now fails limit db h).0)
      (
        rw (length-map (claimed_row now) picked)
            (length-take limit (sort_by_age (select_where (is_due now) table))),
        All-mapped _ (claimed_row now) picked (All-map (λ o d. (refl, refl, d)) picked due),
      )

-- A row with the id of a claimed one is claimed, and since then.
abbrev pub HeldSince : ℕ → List OutboxModel → OutboxModel → Type 0
HeldSince now picked o =
    is_among picked o ≡ true → (o.status ≡ OutboxStatus.claimed) × (o.updated_at ≡ now)

claim-HeldSince :
    (now : ℕ) (picked os : List OutboxModel) → All (HeldSince now picked) (claim now picked os)
claim-HeldSince now picked os =
    All-update (is_among picked) (set_claimed now) (λ o _ among _. (refl, refl))
      (λ o _ other among. absurd (cc (other, among))) os (All-anything os)

is_stale_lem : (now : ℕ) (o : OutboxModel) → is_stale now o ≡ true → o.updated_at + 30 < now
unfolding is_stale
is_stale_lem now o stale = ground arith

count-claimed :
    (now : ℕ) (id : String) (os : List OutboxModel)
    → count_where (has_outbox_id id) (map (claimed_row now) os) ≡ count_where (has_outbox_id id) os
unfolding count_where scan_row
count-claimed now id [] = refl
count-claimed now id (o ∷ os) = ground (arith, count-claimed now id os)

-- A row that is due is not among those that are claimed.
due-other :
    (now later : ℕ) (picked : List OutboxModel) (o : OutboxModel)
    → HeldSince now picked o
    → is_due later o ≡ true
    → count_where (has_outbox_id o.id) (map (claimed_row now) picked) ≡ 0
due-other now later picked o held due = elim (Bool-cases (is_among picked o)) [
  | inl among ↦
      let waits : o.status ≡ OutboxStatus.pending = (due_status later o due).0 in
      let claimed : o.status ≡ OutboxStatus.claimed = (held among).0 in absurd (cc (waits, claimed))
  | inr other ↦ ground (arith, count-claimed now o.id picked)
]

reclaim-HeldSince :
    (now later : ℕ) (picked : List OutboxModel)
    → later ≤ now + 30
    → (os : List OutboxModel) → All (HeldSince now picked) os
    → All (HeldSince now picked) (reclaim later os)
unfolding is_stale
reclaim-HeldSince now later picked soon os =
    All-update (is_stale later) (set_pending later)
      (λ o held stale among.
        let since : o.updated_at ≡ now = (held among).1 in
        let late : o.updated_at + 30 < later = is_stale_lem later o stale in
        absurd (omega (arith, since, late, soon)))
      (λ o held _. held) os

-- Of two batches that are claimed one after the other, the later at most 30 seconds after the
-- first, no row is in both.
pub claims_disjoint :
    (now later : ℕ) (fails fails' : Faults) (limit limit' : ℕ) (db : Db)
    {first second : List OutboxModel} {db' db'' : Db}
    → later ≤ now + 30
    → outbox_pending_get_batch now fails limit db ≡ (ok first, db')
    → outbox_pending_get_batch later fails' limit' db' ≡ (ok second, db'')
    → All (λ o. count_where (has_outbox_id o.id) first ≡ 0) second
unfolding scan_row
claims_disjoint now later fails fails' limit limit' db {first} {second} {db'} soon h k =
    let table = reclaim now db.outbox in
    let picked = pick now limit table in
    let kept : All (HeldSince now picked) (claim now picked table) =
      claim-HeldSince now picked table in
    let (first_is, outbox_is) = batch_ran now fails limit db h in
    let kept' : All (HeldSince now picked) (reclaim later db'.outbox) =
      reclaim-HeldSince now later picked soon db'.outbox
        (subst (All (HeldSince now picked)) (sym outbox_is) kept) in
    rw (first_is, (batch_ran later fails' limit' db' k).0)
      (All-mapped _ (claimed_row later) (pick later limit' (reclaim later db'.outbox))
        (All-pick later limit' (reclaim later db'.outbox) (due-other now later picked) kept'))
