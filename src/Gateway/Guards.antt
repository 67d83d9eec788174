-- ===== src/Gateway/Guards.antt =====
-- Which routes the middleware guards, and what an unauthorised request can reach.
use wallet_app.Base.{
  ℕ, ◌≡◌, refl, subst, ltb, ◌⊎◌, inl, inr, String, Bool, true, ◌==◌, eq_iff, arith, All, All-find,
  find_where, find_where-holds, count_where, Bool-cases, Option-cases,
}
use wallet_app.Wallet.{World}
use wallet_app.Session.{SessionSettings}
use wallet_app.Gateway.{BodyDecoder, HttpRequest}
use wallet_app.Gateway.Services.{Backend}
use wallet_app.Gateway.Middleware.{unauthorized}
use wallet_app.Gateway.Routes.{Route, routes, takes, has_path, refuse, run_route, serve}
use wallet_app.Gateway.Authorization.{IsAuthorized, authorize_user-decides}

-- The paths that anyone may call.
abbrev pub IsOpen : String → Type 0
IsOpen path =
    (path ≡ "/user/register")
    ⊎ ((path ≡ "/user/login")
        ⊎ ((path ≡ "/user/refresh") ⊎ ((path ≡ "/health/liveness") ⊎ (path ≡ "/health/readiness"))))

abbrev IsGuarded : Route → Type 0
IsGuarded r = (r.protected ≡ true) ⊎ IsOpen r.path

routes-IsGuarded : (decode : BodyDecoder) (b : Backend) → All IsGuarded (routes decode b)
unfolding routes
routes-IsGuarded decode b = (
  inr (inl refl),
  (
    inr (inr (inl refl)),
    (
      inr (inr (inr (inl refl))),
      (
        inl refl,
        (
          inl refl,
          (
            inl refl,
            (
              inl refl,
              (
                inl refl,
                (
                  inl refl,
                  (
                    inl refl,
                    (inr (inr (inr (inr (inl refl)))), (inr (inr (inr (inr (inr refl)))), tt)),
                  ),
                ),
              ),
            ),
          ),
        ),
      ),
    ),
  ),
)

takes-path : (req : HttpRequest) (r : Route) → takes req r ≡ true → r.path ≡ req.path
takes-path req r h = elim (Bool-cases (r.path == req.path)) [
  | inl same ↦ (eq_iff r.path req.path).0 same
  | inr differ ↦ absurd (ground arith)
]

-- A request for a path that is not open is authorised, or it changes nothing and is answered with
-- 401, 404 or 405.
pub serve-IsAuthorized :
    (session : SessionSettings) (now : ℕ) (decode : BodyDecoder) (b : Backend) (req : HttpRequest)
    (w : World)
    → (IsOpen req.path → ⊥)
    → IsAuthorized session now req
      ⊎ ((serve session now decode b req w ≡ (unauthorized, w))
          ⊎ ((known : Bool) × (serve session now decode b req w ≡ (refuse known, w))))
unfolding serve run_route
serve-IsAuthorized session now decode b req w guarded =
    elim (Option-cases (find_where (takes req) (routes decode b))) [
      | inl unknown ↦
          inr (inr (ltb 0 (count_where (has_path req) (routes decode b)), rw unknown refl))
      | inr (r, found) ↦
          elim (All-find IsGuarded (takes req) (routes decode b) (routes-IsGuarded decode b)
            found) [
              | inl protected ↦ elim (authorize_user-decides session now r.run req w) [
                | inl (authorized, _) ↦ inl authorized
                | inr (_, refused) ↦ inr (inl (rw (found, protected) refused))
              ]
              | inr open_path ↦ absurd (
                  guarded (
                    subst IsOpen
                      (takes-path req r (find_where-holds (takes req) (routes decode b) found))
                      open_path))
            ]
    ]
