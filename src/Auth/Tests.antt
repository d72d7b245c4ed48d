-- ===== src/Auth/Tests.antt =====
-- The theorems on the guards at concrete data. The digest is the text itself here.
use aestor.Base.{
  ℕ, ◌≤◌, ◌<◌, ◌≡◌, ◌↔◌, refl, true, none, some, List, [], ◌∷◌, length, drop, arith, list_eq,
  nat_eq, list_beq, All, zero, suc,
}
use aestor.Base.Dict
use aestor.Base.Result.{ok, err}
use aestor.Base.Text.{codes, strip, lstrip, lower, starts_with}
use aestor.Auth.Guards.{
  Request, Guard, too_many_requests, or_empty, has_bearer, token_matches, is_authenticated_request,
}
use aestor.Auth.Throttle.{
  Failures, login_max_failures, client_ip, failures_of, assert_login_allowed, login,
}
use aestor.Auth.Gate.{is_docs, is_public, dispatch}
use aestor.Auth.Window.{recent, IsChronological, assert_login_allowed_iff, login-throttled}
use aestor.Auth.Access.{dispatch-authenticated}

abbrev guard : Guard
guard = record {
  api_bearer_token = codes "t0k";
  web_password = codes "pw";
  loads = λ t. none;
  sha256 = λ t. t;
}

abbrev request : Request
request = record {
  path = codes "/api/v1/files";
  forwarded_for = none;
  host = some (codes "10.0.0.7");
  cookie = none;
  authorization = some (codes "Bearer t0k");
}

repeat : ℕ → ℕ → List ℕ
repeat zero t = []
repeat (suc n) t = t ∷ repeat n t

All-repeat : (n t : ℕ) → All (λ u. t ≤ u) (repeat n t)
unfolding repeat
All-repeat zero t = tt
All-repeat (suc n) t = (omega arith, All-repeat n t)

repeat-IsChronological : (n t : ℕ) → IsChronological (repeat n t)
unfolding repeat
repeat-IsChronological zero t = tt
repeat-IsChronological (suc n) t = (All-repeat n t, repeat-IsChronological n t)

-- Twenty failures of the address at one time.
abbrev twenty : Failures
twenty = (codes "10.0.0.7", repeat 20 1000) ∷ []

twenty_there : failures_of twenty (client_ip request) ≡ repeat 20 1000
unfolding client_ip Dict.get list_beq
twenty_there = refl

chronological : IsChronological (failures_of twenty (client_ip request))
chronological = rw twenty_there (repeat-IsChronological 20 1000)

many : login_max_failures ≤ length (recent 2000 (failures_of twenty (client_ip request)))
unfolding repeat
many = rw twenty_there (omega arith)

assert_login_allowed_iff_example :
    let count = length (recent 2000 (failures_of twenty (client_ip request))) in
    (((assert_login_allowed 2000 request twenty).1 ≡ ok tt) ↔ (count < login_max_failures))
    × (((assert_login_allowed 2000 request twenty).1 ≡ err too_many_requests)
        ↔ (login_max_failures ≤ count))
assert_login_allowed_iff_example = assert_login_allowed_iff 2000 request twenty chronological

login-throttled_example :
    ((login 2000 guard (codes "pw") request twenty).1 ≡ err too_many_requests)
    × (failures_of (login 2000 guard (codes "pw") request twenty).0 (client_ip request)
        ≡ recent 2000 (failures_of twenty (client_ip request)))
login-throttled_example = login-throttled 2000 guard (codes "pw") request twenty chronological many

let_on : dispatch guard request ≡ none
unfolding dispatch is_docs is_public starts_with has_bearer token_matches strip lstrip list_beq
    lower drop
let_on = refl

dispatch-authenticated_example :
    (is_authenticated_request guard request ≡ true)
    × (starts_with request.path (codes "/api/v1/") ≡ true
        → (starts_with (lower (or_empty request.authorization)) (codes "bearer ") ≡ true)
          × (strip (drop 7 (or_empty request.authorization)) ≡ guard.api_bearer_token))
unfolding starts_with is_public list_beq
dispatch-authenticated_example =
    dispatch-authenticated guard request (λ a b same. same) let_on refl (ground arith) refl
