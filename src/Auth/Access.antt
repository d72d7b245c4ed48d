-- ===== src/Auth/Access.antt =====
-- Who the guards and the gate let in.
use aestor.Base.{
  ◌≡◌, ◌≢◌, ◌↔◌, refl, true, false, Option, none, some, drop, arith, ◌==◌, list_eq, nat_eq, eq_iff,
  eq_refl, Bool-cases, inl, inr,
}
use aestor.Base.Result.{ok}
use aestor.Base.Text.{Text, codes, strip, lower, starts_with}
use aestor.Auth.Guards.{
  Request, Guard, Credentials, or_empty, token_matches, has_bearer, require_api_bearer,
  is_authenticated_request,
}
use aestor.Auth.Gate.{is_public, dispatch}

-- No two texts in use have the same digest.
abbrev pub NoCollision : Guard → Type 0
NoCollision g = (a b : Text) → g.sha256 a ≡ g.sha256 b → a ≡ b

token_matches_iff :
    (g : Guard) (a b : Text) → NoCollision g → (token_matches g a b ≡ true) ↔ (a ≡ b)
unfolding token_matches
token_matches_iff g a b exact =
    ((λ h. exact a b ((eq_iff (g.sha256 a) (g.sha256 b)).0 h)), (λ e. rw e (eq_refl (g.sha256 b))))

-- Where no two texts have the same digest, `require_api_bearer` lets in exactly the credentials of the
-- scheme Bearer, in any case, that are the API token.
require_api_bearer_iff :
    (g : Guard) (c : Option Credentials)
    → NoCollision g
    → (require_api_bearer g c ≡ ok tt) ↔ (
        (d : Credentials) × (c ≡ some d)
        × (lower d.scheme ≡ codes "bearer")
        × (d.token ≡ g.api_bearer_token))
unfolding require_api_bearer
require_api_bearer_iff g none exact = ground arith
require_api_bearer_iff g (some d) exact = (
  (λ h. (
    d,
    refl,
    ground (arith, eq_iff (lower d.scheme) (codes "bearer")),
    ground (arith, token_matches_iff g d.token g.api_bearer_token exact),
  )),
  (λ (x, e, scheme, token). ground (
    arith,
    eq_iff (lower d.scheme) (codes "bearer"),
    token_matches_iff g d.token g.api_bearer_token exact,
  )),
)

has_bearer-scheme :
    (g : Guard) (r : Request)
    → has_bearer g r ≡ true
    → starts_with (lower (or_empty r.authorization)) (codes "bearer ") ≡ true
unfolding has_bearer
has_bearer-scheme g r h = ground arith

has_bearer-token :
    (g : Guard) (r : Request)
    → NoCollision g
    → has_bearer g r ≡ true
    → strip (drop 7 (or_empty r.authorization)) ≡ g.api_bearer_token
unfolding has_bearer
has_bearer-token g r exact h = ground (
  arith,
  token_matches_iff g (strip (drop 7 (or_empty r.authorization))) g.api_bearer_token exact,
)

-- Where no two texts have the same digest, the gate lets a request for the API on only with a
-- credential: apart from the WebSocket, the login and the logout, it is one that
-- `is_authenticated_request` accepts, and a request below /api/v1/ carries an Authorization header
-- that begins, in any case, with "bearer " and holds the API token behind it, whatever cookie it has.
pub dispatch-authenticated :
    (g : Guard) (r : Request)
    → NoCollision g
    → dispatch g r ≡ none
    → starts_with r.path (codes "/api/") ≡ true
    → r.path ≢ codes "/api/ws"
    → is_public r.path ≡ false
    → (is_authenticated_request g r ≡ true)
      × (starts_with r.path (codes "/api/v1/") ≡ true
          → (starts_with (lower (or_empty r.authorization)) (codes "bearer ") ≡ true)
            × (strip (drop 7 (or_empty r.authorization)) ≡ g.api_bearer_token))
unfolding dispatch is_authenticated_request
dispatch-authenticated g r exact on api not_ws private =
    let ws : (r.path == codes "/api/ws") ≡ false =
      ground (arith, eq_iff r.path (codes "/api/ws")) in
    elim (Bool-cases (starts_with r.path (codes "/api/v1/"))) [
      | inl v1 ↦
          let bearer : has_bearer g r ≡ true = ground arith in
          (ground arith, λ _. (has_bearer-scheme g r bearer, has_bearer-token g r exact bearer))
      | inr web ↦ (ground arith, λ v1. ground arith)
    ]
