-- ===== src/Pull/Names.antt =====
-- `_safe_name` and `_unique_path` of scripts/pull.py, on the names in one directory.
use mathlib.Core.List.{reverse}
use aestor.Base.{
  ℕ, zero, suc, ◌+◌, ◌/◌, ◌%◌, Bool, true, false, not, ◌||◌, Option, none, some, List, [], ◌∷◌,
  ◌++◌, filter_by, nat_beq, ltb, is_empty, if◌then◌else◌, ◌==◌, list_eq, nat_eq,
}
use aestor.Base.Text.{Text, codes, strip}
use aestor.Jobs.Record.{or_text}

-- `str(n)`: the digits before those that are there.
unfoldable pub digits_before : ℕ → ℕ → Text → Text
digits_before zero n later = later
digits_before (suc fuel) n later = elim (ltb n 10) [
  | true ↦ (48 + n) ∷ later
  | false ↦ digits_before fuel (n / 10) ((48 + n % 10) ∷ later)
]

abbrev pub decimal : ℕ → Text
decimal n = digits_before (suc n) n []

-- `s.strip(chars)`, with the test for the characters.
unfoldable pub lstrip_by : (ℕ → Bool) → Text → Text
lstrip_by p [] = []
lstrip_by p (c ∷ s) = let rest = lstrip_by p s in if p c then rest else c ∷ s

unfoldable pub strip_by : (ℕ → Bool) → Text → Text
strip_by p s = reverse (lstrip_by p (reverse (lstrip_by p s)))

abbrev cons_part : ℕ → List Text → List Text
cons_part c [] = (c ∷ []) ∷ []
cons_part c (l ∷ ls) = (c ∷ l) ∷ ls

-- `s.split("/")`
unfoldable pub split_slash : Text → List Text
split_slash [] = [] ∷ []
split_slash (c ∷ s) =
    let rest = split_slash s in if nat_beq c 47 then [] ∷ rest else cons_part c rest

unfoldable pub last_part : Text → List Text → Text
last_part found [] = found
last_part found (l ∷ ls) = last_part l ls

-- `Path(name).name`: empty parts and single dots are no parts of a path.
unfoldable pub path_name : Text → Text
path_name name =
    last_part [] (filter_by (λ part. not (is_empty part || part == codes ".")) (split_slash name))

-- The characters that `_UNSAFE` leaves: a dot, a dash, a blank, brackets, and `\w`, which is the
-- argument.
unfoldable pub is_safe : (ℕ → Bool) → ℕ → Bool
is_safe is_word c =
    is_word c
    || nat_beq c 46
    || nat_beq c 45
    || nat_beq c 32
    || nat_beq c 40
    || nat_beq c 41
    || nat_beq c 91
    || nat_beq c 93

-- `_UNSAFE.sub("_", s)`, in a run of unsafe characters or not.
unfoldable pub sub_unsafe : (ℕ → Bool) → Bool → Text → Text
sub_unsafe is_word in_run [] = []
sub_unsafe is_word in_run (c ∷ s) =
    let kept = sub_unsafe is_word false s in
    let run = sub_unsafe is_word true s in
    if is_safe is_word c then c ∷ kept else if in_run then run else 95 ∷ run

-- The characters of " ._".
abbrev pub is_edge : ℕ → Bool
is_edge c = nat_beq c 32 || nat_beq c 46 || nat_beq c 95

unfoldable pub safe_name : (ℕ → Bool) → Text → Text → Text
safe_name is_word name fallback =
    let base = or_text (strip (path_name name)) fallback in
    or_text (strip_by is_edge (sub_unsafe is_word false base)) fallback

-- What is before the last dot, and what is after it.
unfoldable pub split_dot : Text → Option (Text × Text)
split_dot [] = none
split_dot (c ∷ s) = elim (split_dot s) [
  | some p ↦ some (c ∷ p.0, p.1)
  | none ↦ if nat_beq c 46 then some ([], s) else none
]

-- `path.stem` and `path.suffix` of a file name: a dot at either end starts no suffix.
unfoldable pub stem_suffix : Text → Text × Text
stem_suffix name = elim (split_dot name) [
  | none ↦ (name, [])
  | some p ↦ if is_empty p.0 || is_empty p.1 then (name, []) else (p.0, 46 ∷ p.1)
]

-- `f"{stem}-{n}{suffix}"`
unfoldable pub candidate : Text → ℕ → Text
candidate filename n = let parts = stem_suffix filename in parts.0 ++ 45 ∷ (decimal n ++ parts.1)

-- The `while True` loop, on fuel.
unfoldable pub first_free : (Text → Bool) → Text → ℕ → ℕ → Option Text
first_free exists filename zero n = none
first_free exists filename (suc fuel) n = elim (exists (candidate filename n)) [
  | true ↦ first_free exists filename fuel (suc n)
  | false ↦ some (candidate filename n)
]

-- The name that is taken in the directory, where `exists` tells the names that are there.
unfoldable pub unique_path : (Text → Bool) → ℕ → Text → Option Text
unique_path exists fuel filename =
    if not (exists filename) then some filename else first_free exists filename fuel 1
