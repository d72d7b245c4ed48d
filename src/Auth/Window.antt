-- ===== src/Auth/Window.antt =====
-- What the login throttle lets in.
use aestor.Base.{
  ℕ, ◌-◌, ◌≤◌, ◌<◌, ◌≡◌, ◌≢◌, ◌↔◌, refl, ◌∙◌, ◌++◌, Bool, true, some, List, [], ◌∷◌, length, All,
  arith, leb, if◌then◌else◌, ◌==◌, list_eq, nat_eq, eq_iff, eq_refl, Bool-cases, inl, inr,
  filter_by,
}
use aestor.Base.Dict
use aestor.Base.Result.{Result, ok, err}
use aestor.Base.Text.{Text}
use aestor.Auth.Guards.{Request, Guard, HttpError, too_many_requests}
use aestor.Auth.Throttle.{
  Failures, login_window, login_max_failures, client_ip, prune, failures_of, assert_login_allowed,
  record_login_failure, clear_login_failures, login,
}

-- A failure counts while it is at most 300 seconds old.
abbrev pub is_recent : ℕ → ℕ → Bool
is_recent now t = leb (now - t) login_window

abbrev pub recent : ℕ → List ℕ → List ℕ
recent now q = filter_by (is_recent now) q

-- The times of a queue, oldest first.
abbrev pub IsChronological : List ℕ → Type 0
IsChronological [] = Unit
IsChronological (t ∷ q) = All (λ u. t ≤ u) q × IsChronological q

All-recent :
    (now t : ℕ) (q : List ℕ) → is_recent now t ≡ true → All (λ u. t ≤ u) q → recent now q ≡ q
All-recent now t [] h all = refl
All-recent now t (u ∷ q) h (le, all) = ground (arith, All-recent now t q h all)

-- Dropping from the front keeps exactly the recent failures of a chronological queue.
prune-recent : (now : ℕ) (q : List ℕ) → IsChronological q → prune now q ≡ recent now q
unfolding prune
prune-recent now [] c = refl
prune-recent now (t ∷ q) (first, c) = elim (Bool-cases (is_recent now t)) [
  | inl fresh ↦ ground (arith, All-recent now t q fresh first)
  | inr stale ↦ ground (arith, prune-recent now q c)
]

allowed_iff :
    (n : ℕ)
    → let answer : Result HttpError (Unit {0}) =
        if leb login_max_failures n then err too_many_requests else ok tt in
      ((answer ≡ ok tt) ↔ (n < login_max_failures))
      × ((answer ≡ err too_many_requests) ↔ (login_max_failures ≤ n))
allowed_iff n = ground arith

get-assert_login_allowed :
    (now : ℕ) (r : Request) (f : Failures) (ip : Text)
    → Dict.get (assert_login_allowed now r f).0 ip ≡ (
        if client_ip r == ip then some (prune now (failures_of f (client_ip r))) else Dict.get f ip)
unfolding assert_login_allowed
get-assert_login_allowed now r f ip =
    Dict.get-put f (client_ip r) ip (prune now (failures_of f (client_ip r)))

failures_of-assert_login_allowed :
    (now : ℕ) (r : Request) (f : Failures)
    → failures_of (assert_login_allowed now r f).0 (client_ip r)
      ≡ prune now (failures_of f (client_ip r))
failures_of-assert_login_allowed now r f =
    ground (arith, get-assert_login_allowed now r f (client_ip r), eq_refl (client_ip r))

-- A login is let through to the password test exactly when the address has fewer than 20 failures that
-- are at most 300 seconds old; where it is not, the answer is the error 429. The address's queue holds
-- its failures oldest first.
pub assert_login_allowed_iff :
    (now : ℕ) (r : Request) (f : Failures)
    → IsChronological (failures_of f (client_ip r))
    → let count = length (recent now (failures_of f (client_ip r))) in
      (((assert_login_allowed now r f).1 ≡ ok tt) ↔ (count < login_max_failures))
      × (((assert_login_allowed now r f).1 ≡ err too_many_requests) ↔ (login_max_failures ≤ count))
unfolding assert_login_allowed
assert_login_allowed_iff now r f c =
    rw (prune-recent now (failures_of f (client_ip r)) c, assert_login_allowed)
      (allowed_iff (length (recent now (failures_of f (client_ip r)))))

-- An address whose queue holds its failures oldest first, 20 or more of them recent, is answered with
-- the error 429 even for the right password, and the try does not add a failure.
pub login-throttled :
    (now : ℕ) (g : Guard) (password : Text) (r : Request) (f : Failures)
    → IsChronological (failures_of f (client_ip r))
    → login_max_failures ≤ length (recent now (failures_of f (client_ip r)))
    → ((login now g password r f).1 ≡ err too_many_requests)
      × (failures_of (login now g password r f).0 (client_ip r)
          ≡ recent now (failures_of f (client_ip r)))
unfolding login
login-throttled now g password r f c many =
    rw ((assert_login_allowed_iff now r f c).1.1 many, login)
      (
        refl,
        failures_of-assert_login_allowed now r f ∙ prune-recent now (failures_of f (client_ip r)) c,
      )

-- A login touches the failures of no other address.
login-other :
    (now : ℕ) (g : Guard) (password : Text) (r : Request) (f : Failures) (ip : Text)
    → client_ip r ≢ ip
    → Dict.get (login now g password r f).0 ip ≡ Dict.get f ip
unfolding login record_login_failure clear_login_failures
login-other now g password r f ip other =
    let f' = (assert_login_allowed now r f).0 in
    let q = failures_of f' (client_ip r) ++ now ∷ [] in
    ground (
      arith,
      get-assert_login_allowed now r f ip,
      Dict.get-put f' (client_ip r) ip q,
      Dict.get-pop f' (client_ip r) ip,
      eq_iff (client_ip r) ip,
    )
