-- ===== src/Pull/Fresh.antt =====
-- `_unique_path` of scripts/pull.py ends, with a name that is free.
use aestor.Base.{
  ℕ, zero, suc, ◌≤◌, ◌<◌, ◌≡◌, ◌≢◌, refl, ◌⊎◌, Bool, true, false, not, some, List, [], ◌∷◌, length,
  filter_by, if◌then◌else◌, ◌==◌, list_eq, nat_eq, eq_iff, arith, Bool-cases, inl, inr,
}
use aestor.Base.Text.{Text}
use aestor.Pull.Names.{candidate, first_free, unique_path}
use aestor.Pull.Decimal.{candidate-injective}

unfoldable pub has_name : List Text → Text → Bool
has_name [] t = false
has_name (l ∷ ls) t = let rest = has_name ls t in if l == t then true else rest

-- Every name for which the test holds is one of these.
abbrev pub Lists : List Text → (Text → Bool) → Type 0
Lists names exists = (t : Text) → exists t ≡ true → has_name names t ≡ true

without_name : Text → List Text → List Text
without_name t names = filter_by (λ l. not (l == t)) names

length-without_le : (t : Text) (names : List Text) → length (without_name t names) ≤ length names
unfolding without_name
length-without_le t [] = omega arith
length-without_le t (l ∷ ls) = ground (arith, length-without_le t ls)

length-without :
    (t : Text) (names : List Text)
    → has_name names t ≡ true
    → length (without_name t names) < length names
unfolding has_name without_name
length-without t [] h = cc
length-without t (l ∷ ls) h = ground (arith, length-without t ls, length-without_le t ls)

has_name-without :
    (t u : Text) (names : List Text)
    → t ≢ u
    → has_name names u ≡ true
    → has_name (without_name t names) u ≡ true
unfolding has_name without_name
has_name-without t u [] ne h = h
has_name-without t u (l ∷ ls) ne h =
    ground (arith, eq_iff l t, eq_iff l u, has_name-without t u ls ne)

-- With more fuel than there are names, the loop ends with a candidate that is free.
first_free-ends :
    (exists : Text → Bool) (filename : Text) (fuel n : ℕ) (names : List Text)
    → length names < fuel
    → ((k : ℕ)
        → n ≤ k
        → exists (candidate filename k) ≡ true
        → has_name names (candidate filename k) ≡ true)
    → (k : ℕ) × (first_free exists filename fuel n ≡ some (candidate filename k))
      × (exists (candidate filename k) ≡ false)
unfolding first_free
first_free-ends exists filename zero n names lt h = absurd (omega arith)
first_free-ends exists filename (suc fuel) n names lt h =
    elim (Bool-cases (exists (candidate filename n))) [
      | inr free ↦ (n, rw (free, first_free) refl, free)
      | inl taken ↦
          let here = candidate filename n in
          let smaller = length-without here names (h n (omega arith) taken) in
          let (k, found, free) =
            first_free-ends exists filename fuel (suc n) (without_name here names) (omega arith)
              (λ k le e.
                has_name-without here (candidate filename k) names
                  (λ same. absurd (omega (arith, candidate-injective filename n k same)))
                  (h k (omega arith) e)) in
          (k, rw (taken, first_free) found, free)
    ]

-- With more fuel than there are names in the directory: `_unique_path` returns a name, which is free,
-- and which is the given name where that is free and else the name with a number behind its stem.
pub unique_path-ends :
    (exists : Text → Bool) (names : List Text) (fuel : ℕ) (filename : Text)
    → Lists names exists
    → length names < fuel
    → (t : Text) × (unique_path exists fuel filename ≡ some t)
      × (exists t ≡ false)
      × ((t ≡ filename) ⊎ ((k : ℕ) × (t ≡ candidate filename k)))
unfolding unique_path
unique_path-ends exists names fuel filename lists lt = elim (Bool-cases (exists filename)) [
  | inr free ↦ (filename, rw free refl, free, inl refl)
  | inl taken ↦
      let (k, found, free) =
        first_free-ends exists filename fuel 1 names lt
          (λ k le e. lists (candidate filename k) e) in
      (candidate filename k, rw taken found, free, inr (k, refl))
]
