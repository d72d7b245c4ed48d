-- ===== src/Auth/Guards.antt =====
-- The guards of backend/app/auth.py. The signature of the session cookie and SHA-256 are parameters.
use aestor.Base.{
  ℕ, Bool, true, false, not, Option, none, some, List, [], drop, is_empty, if◌then◌else◌, ◌==◌,
  list_eq, nat_eq,
}
use aestor.Base.Result.{Result, ok, err}
use aestor.Base.Text.{Text, codes, strip, lower, starts_with}

-- What a request shows to the guards: its headers, its address, and the session cookie.
pub record Request : Type 0 where
  pub path : Text
  pub forwarded_for : Option Text
  pub host : Option Text
  pub cookie : Option Text
  pub authorization : Option Text

-- The settings that the guards read, with the two functions of the libraries.
pub record Guard : Type 0 where
  pub api_bearer_token : Text
  pub web_password : Text
  -- `_serializer(settings).loads(token, max_age=…)`: none where it raises, else `data.get("auth")`
  pub loads : Text → Option Bool
  -- `hashlib.sha256(text.encode()).digest()`
  pub sha256 : Text → List ℕ

-- `HTTPException`, and the gate's JSON answers, by their status.
pub data HttpError : Type 0 where
  unauthorized too_many_requests not_found : HttpError

-- `credentials` of `HTTPBearer`.
pub record Credentials : Type 0 where
  pub scheme : Text
  pub token : Text

abbrev pub or_empty : Option Text → Text
or_empty none = []
or_empty (some t) = t

unfoldable pub verify_session_token : Guard → Text → Bool
verify_session_token g token = elim (g.loads token) [ none ↦ false | some auth ↦ auth ]

unfoldable pub token_matches : Guard → Text → Text → Bool
token_matches g provided expected = g.sha256 provided == g.sha256 expected

unfoldable pub password_matches : Guard → Text → Bool
password_matches g provided = g.sha256 provided == g.sha256 g.web_password

-- `not token or not verify_session_token(token, settings)` is false.
unfoldable pub has_session : Guard → Request → Bool
has_session g r = elim r.cookie [
  | none ↦ false
  | some token ↦ if is_empty token then false else verify_session_token g token
]

-- The Authorization header holds the API token.
unfoldable pub has_bearer : Guard → Request → Bool
has_bearer g r =
    let auth = or_empty r.authorization in
    if starts_with (lower auth) (codes "bearer ")
    then token_matches g (strip (drop 7 auth)) g.api_bearer_token
    else false

unfoldable pub require_web_session : Guard → Request → Result HttpError (Unit {0})
require_web_session g r = if has_session g r then ok tt else err unauthorized

unfoldable pub require_api_bearer : Guard → Option Credentials → Result HttpError (Unit {0})
require_api_bearer g none = err unauthorized
require_api_bearer g (some c) =
    if not (lower c.scheme == codes "bearer")
    then err unauthorized
    else if not (token_matches g c.token g.api_bearer_token)
    then err unauthorized
    else ok tt

unfoldable pub is_authenticated_request : Guard → Request → Bool
is_authenticated_request g r = if has_session g r then true else has_bearer g r
