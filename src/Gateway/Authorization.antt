-- ===== src/Gateway/Authorization.antt =====
-- Who gets past the middleware, and which routes it guards.
use Prim.Native.Char.{code}
use Prim.Native.String.{String, [], ◌∷◌, ◌++◌}
use text.Mathlib.TextEquality.{Char-path}
use text.Mathlib.TextLemmas.{nil-append, cons-append}
use wallet_app.Base.{
  ℕ, ◌≡◌, ◌≢◌, refl, ap, ◌⊎◌, inl, inr, true, false, Option, none, some, ◌==◌, eqb, eq_iff,
  not_equal, arith, Bool-cases, Option-cases,
}
use wallet_app.Wallet.{World}
use wallet_app.Session.{Claims, SessionSettings, validate_access_token}
use wallet_app.Gateway.{HttpRequest}
use wallet_app.Gateway.Controllers.{Handler}
use wallet_app.Gateway.Middleware.{
  claims_match, authorize, behind, unauthorized, with_token, authorize_user,
}

-- The header carries a token that passes the check of access tokens, and whose user is the one that
-- the query names.
abbrev pub IsAuthorized : SessionSettings → ℕ → HttpRequest → Type 0
IsAuthorized session now req =
    (token : String) × (claims : Claims) × (req.authorization ≡ "Bearer " ++ token)
    × (validate_access_token session now token ≡ some claims)
    × (claims.user_id ≡ req.query "userId")
    × (req.query "userId" ≢ "")

behind-some : (prefix s : String) {t : String} → behind prefix s ≡ some t → s ≡ prefix ++ t
unfolding behind
behind-some [] s {t} h = cc (h, nil-append t)
behind-some (c ∷ prefix) [] h = cc
behind-some (c ∷ prefix) (d ∷ s) {t} h = elim (Bool-cases (eqb (code c) (code d))) [
  | inl same ↦
      let rest : behind prefix s ≡ some t = ground arith in
      cc (Char-path c d (ground arith), behind-some prefix s rest, cons-append c prefix t)
  | inr differ ↦ ground arith
]

pub behind-append : (prefix t : String) → behind prefix (prefix ++ t) ≡ some t
unfolding behind
behind-append [] t = ap some (nil-append t)
behind-append (c ∷ prefix) t = rw (cons-append c prefix t) (ground (arith, behind-append prefix t))

claims_match-true :
    (user : String) (found : Option Claims)
    → claims_match user found ≡ true
    → (claims : Claims) × (found ≡ some claims) × (claims.user_id ≡ user)
unfolding claims_match
claims_match-true user none h = cc
claims_match-true user (some claims) h = (claims, refl, (eq_iff claims.user_id user).0 h)

-- What the middleware finds out about an authorised request.
pub record Passes (session : SessionSettings) (now : ℕ) (req : HttpRequest) : Type 0 where
  pub token : String
  pub header : behind "Bearer " req.authorization ≡ some token
  pub not_missing : (req.authorization == "") ≡ false
  pub named : (req.query "userId" == "") ≡ false
  pub matching : authorize session now token (req.query "userId") ≡ true

nothing_behind : {s t : String} → s ≡ "" → behind "Bearer " s ≡ some t → ⊥
unfolding behind
nothing_behind {s} empty found =
    let none_there : behind "Bearer " s ≡ none = rw empty refl in cc (none_there, found)

IsAuthorized-Passes :
    (session : SessionSettings) (now : ℕ) (req : HttpRequest)
    → IsAuthorized session now req
    → Passes session now req
unfolding authorize claims_match
IsAuthorized-Passes session now req (token, claims, header, valid, same, named) =
    let found : behind "Bearer " req.authorization ≡ some token =
      rw header (behind-append "Bearer " token) in
    record {
      token = token;
      header = found;
      not_missing = not_equal req.authorization "" (λ empty. nothing_behind empty found);
      named = not_equal (req.query "userId") "" named;
      matching = rw valid ((eq_iff claims.user_id (req.query "userId")).1 same);
    }

-- The middleware runs the handler if the request is authorised, and else answers 401 and changes
-- nothing.
pub authorize_user-decides :
    (session : SessionSettings) (now : ℕ) (handler : Handler) (req : HttpRequest) (w : World)
    → (IsAuthorized session now req × (authorize_user session now handler req w ≡ handler req w))
      ⊎ ((IsAuthorized session now req → ⊥)
          × (authorize_user session now handler req w ≡ (unauthorized, w)))
unfolding authorize_user with_token
authorize_user-decides session now handler req w = elim (Bool-cases (req.authorization == "")) [
  | inl missing ↦ inr (
    (λ a. absurd (cc (missing, (IsAuthorized-Passes session now req a).not_missing))),
    rw missing refl,
  )
  | inr present ↦ elim (Option-cases (behind "Bearer " req.authorization)) [
    | inl other ↦ inr (
      (λ a. absurd (cc (other, (IsAuthorized-Passes session now req a).header))),
      rw (present, other) refl,
    )
    | inr (token, bearer) ↦ elim (Bool-cases (req.query "userId" == "")) [
      | inl unnamed ↦ inr (
        (λ a. absurd (cc (unnamed, (IsAuthorized-Passes session now req a).named))),
        rw (present, bearer, unnamed) refl,
      )
      | inr named ↦ elim (Bool-cases (authorize session now token (req.query "userId"))) [
        | inl matching ↦
            let (claims, valid, same) =
              claims_match-true (req.query "userId") (validate_access_token session now token)
                (unfold authorize in matching) in
            inl (
              (
                token,
                claims,
                behind-some "Bearer " req.authorization bearer,
                valid,
                same,
                (λ e. absurd (cc (named, (eq_iff (req.query "userId") "").1 e))),
              ),
              rw (present, bearer, named, matching) refl,
            )
        | inr mismatch ↦ inr (
          (λ a.
              let p = IsAuthorized-Passes session now req a in
              absurd (cc (mismatch, p.matching, p.header, bearer))),
          rw (present, bearer, named, mismatch) refl,
        )
      ]
    ]
  ]
]
