-- ===== src/Auth/Throttle.antt =====
-- The login throttle of backend/app/auth.py, and the `login` endpoint of backend/app/main.py.
use aestor.Base.{
  ℕ, ◌-◌, Bool, true, not, none, some, List, [], ◌∷◌, ◌++◌, length, leb, ltb, nat_beq,
  if◌then◌else◌, list_eq, nat_eq,
}
use aestor.Base.Dict
use aestor.Base.Dict.{Dict}
use aestor.Base.Result.{Result, ok, err}
use aestor.Base.Text.{Text, codes, strip}
use aestor.Auth.Guards.{
  Request, Guard, HttpError, unauthorized, too_many_requests, password_matches,
}

-- `_login_failures`: the times of the failures by address, in microseconds, oldest first.
abbrev pub Failures : Type 0
Failures = Dict Text (List ℕ)

abbrev pub login_window : ℕ
login_window = 300_000_000

abbrev pub login_max_failures : ℕ
login_max_failures = 20

-- `s.split(",")[0]`
unfoldable pub before_comma : Text → Text
before_comma [] = []
before_comma (c ∷ s) = let rest = before_comma s in if nat_beq c 44 then [] else c ∷ rest

unfoldable pub client_ip : Request → Text
client_ip r = elim r.forwarded_for [
  | some (c ∷ s) ↦ strip (before_comma (c ∷ s))
  | _ ↦ elim r.host [ some host ↦ host | none ↦ codes "unknown" ]
]

-- `while q and now - q[0] > _LOGIN_WINDOW_S: q.popleft()`. A time that is later than `now` stays.
unfoldable pub prune : ℕ → List ℕ → List ℕ
prune now [] = []
prune now (t ∷ q) = let rest = prune now q in if ltb login_window (now - t) then rest else t ∷ q

-- `_login_failures[ip]` of a `defaultdict`.
abbrev pub failures_of : Failures → Text → List ℕ
failures_of f ip = elim (Dict.get f ip) [ none ↦ [] | some q ↦ q ]

unfoldable pub assert_login_allowed :
    ℕ → Request → Failures → Failures × Result HttpError (Unit {0})
assert_login_allowed now r f =
    let ip = client_ip r in
    let q = prune now (failures_of f ip) in
    (Dict.put f ip q, if leb login_max_failures (length q) then err too_many_requests else ok tt)

unfoldable pub record_login_failure : ℕ → Request → Failures → Failures
record_login_failure now r f = let ip = client_ip r in Dict.put f ip (failures_of f ip ++ now ∷ [])

unfoldable pub clear_login_failures : Request → Failures → Failures
clear_login_failures r f = Dict.pop f (client_ip r)

-- The endpoint: True stands for the answer that sets the session cookie.
unfoldable pub login : ℕ → Guard → Text → Request → Failures → Failures × Result HttpError Bool
login now g password r f =
    let (f', allowed) = assert_login_allowed now r f in
    elim allowed [
      | err e ↦ (f', err e)
      | ok _ ↦
          if not (password_matches g password)
          then (record_login_failure now r f', err unauthorized)
          else (clear_login_failures r f', ok true)
    ]
