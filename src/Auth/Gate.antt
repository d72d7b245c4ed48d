-- ===== src/Auth/Gate.antt =====
-- `ApiAuthGate.dispatch` of backend/app/main.py.
use aestor.Base.{Bool, not, ◌||◌, Option, none, some, if◌then◌else◌, ◌==◌, list_eq, nat_eq}
use aestor.Base.Text.{Text, codes, starts_with}
use aestor.Auth.Guards.{Request, Guard, HttpError, unauthorized, not_found, has_session, has_bearer}

-- `path in {"/docs", "/redoc", "/openapi.json"} or path.startswith("/docs/")`
unfoldable pub is_docs : Text → Bool
is_docs path =
    path == codes "/docs"
    || path == codes "/redoc"
    || path == codes "/openapi.json"
    || starts_with path (codes "/docs/")

-- `path in _PUBLIC_API_PATHS or path == "/api/auth/logout"`
unfoldable pub is_public : Text → Bool
is_public path = path == codes "/api/auth/login" || path == codes "/api/auth/logout"

-- The error that the gate answers with, none where the request goes on.
unfoldable pub dispatch : Guard → Request → Option HttpError
dispatch g r =
    if is_docs r.path
    then some not_found
    else if not (starts_with r.path (codes "/api/"))
    then none
    else if r.path == codes "/api/ws"
    then none
    else if is_public r.path
    then none
    else if starts_with r.path (codes "/api/v1/")
    then (if has_bearer g r then none else some unauthorized)
    else if has_session g r
    then none
    else some unauthorized
