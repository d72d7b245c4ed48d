-- ===== src/Pull/Tests.antt =====
-- The theorems on the pull client at concrete data: names and progress.
use aestor.Base.{
  ℕ, ◌+◌, ◌≤◌, ◌≡◌, refl, Bool, true, false, none, some, [], ◌∷◌, length, nat_beq, leb, ◌&&◌, ◌||◌,
  if◌then◌else◌, ◌==◌, list_eq, list_beq, nat_eq, eq_iff, arith,
}
use aestor.Base.Text.{Text, codes, strip, lstrip, is_space}
use aestor.Pull.Fresh.{Lists, has_name}
use aestor.Pull.Milestones.{percents, updates, finishes, report_all, Rises, percents-start}
use aestor.Pull.Names.{
  first_free, strip_by, lstrip_by, sub_unsafe, is_safe, path_name, last_part, split_slash,
  safe_name, unique_path, candidate, stem_suffix, split_dot, digits_before,
}
use aestor.Pull.Progress.{start, update, finish, emit, log_progress, log_percent, milestone}
use aestor.Pull.SafeName.{IsFileName, unique_path-safe_name}

-- ASCII letters, digits and the underscore.
abbrev pub ascii_word : ℕ → Bool
ascii_word c =
    (leb 48 c && leb c 57) || (leb 65 c && leb c 90) || (leb 97 c && leb c 122) || nat_beq c 95

-- "film.mkv" and "film-1.mkv" are taken.
abbrev taken : Text → Bool
taken t = if t == codes "film.mkv" then true else t == codes "film-1.mkv"

taken-Lists : Lists (codes "film.mkv" ∷ codes "film-1.mkv" ∷ []) taken
unfolding has_name
taken-Lists t h = ground (
  arith,
  eq_iff t (codes "film.mkv"),
  eq_iff t (codes "film-1.mkv"),
  eq_iff (codes "film.mkv") t,
  eq_iff (codes "film-1.mkv") t,
)

third_is_free : unique_path taken 3 (codes "film.mkv") ≡ some (codes "film-2.mkv")
unfolding unique_path first_free candidate stem_suffix split_dot digits_before list_beq
third_is_free = refl

dots_are_stripped : safe_name ascii_word (codes "../../.bashrc") (codes "ab12") ≡ codes "bashrc"
unfolding safe_name strip_by lstrip_by sub_unsafe is_safe path_name last_part split_slash list_beq
    strip lstrip is_space
dots_are_stripped = refl

ab12-IsFileName : IsFileName (codes "ab12")
ab12-IsFileName = (omega arith, (97, codes "b12", refl, omega arith))

unique_path-safe_name_example :
    (t : Text) × (unique_path taken 3 (safe_name ascii_word (codes "a/film.mkv") (codes "ab12"))
      ≡ some t)
    × (taken t ≡ false)
    × IsFileName t
unique_path-safe_name_example =
    unique_path-safe_name ascii_word refl taken (codes "film.mkv" ∷ codes "film-1.mkv" ∷ []) 3
      (codes "a/film.mkv") (codes "ab12") taken-Lists (omega arith) ab12-IsFileName

-- A clock that is its number of readings.
abbrev counted : ℕ → ℕ × ℕ
counted n = (n + 1, n)

percents-start_example :
    let shown = percents (
      (report_all counted
        (λ p s. s)
        (updates 40 none ∷ updates 70 (some 90) ∷ finishes ∷ [])
        (start counted (λ p s. s) (some 80) 0)).1.lines) in
    Rises 0 shown 105 × (length shown ≤ 21)
percents-start_example =
    percents-start counted (λ p s. s) (some 80) 0
      (updates 40 none ∷ updates 70 (some 90) ∷ finishes ∷ [])

-- The lines that those reports make.
shown_percents :
    percents (
      (report_all counted
        (λ p s. s)
        (updates 40 none ∷ updates 70 (some 90) ∷ finishes ∷ [])
        (start counted (λ p s. s) (some 80) 0)).1.lines)
    ≡ 0 ∷ 50 ∷ 75 ∷ 100 ∷ []
unfolding percents report_all start update finish emit log_progress log_percent milestone
shown_percents = refl
