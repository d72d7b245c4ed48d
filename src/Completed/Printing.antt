-- ===== src/Completed/Printing.antt =====
-- Parsing the manifest that the server writes gives its rows.
use aestor.Base.{
  ℕ, ◌≡◌, ◌≢◌, refl, ap, sym, ◌∙◌, false, some, List, [], ◌∷◌, ◌++◌, All, arith, nat_beq_iff,
  append_assoc,
}
use aestor.Base.Blanks.{NoSpace, strip-NoSpace, strip-between}
use aestor.Base.Result.{ok}
use aestor.Base.Text.{Text, strip, starts_with, is_space}
use aestor.Completed.Rows.{Row, print, row_line-split}
use aestor.Completed.Parse.{is_break, splitlines_after, split_tab, parse_lines, parse_manifest_text}

-- An id that is not empty and does not begin with '#', a ciphertext that is not empty, and no blank in
-- either.
abbrev pub IsPlain : Row → Type 0
IsPlain (c ∷ id, d ∷ b64) = (c ≢ 35) × NoSpace (c ∷ id) × NoSpace (d ∷ b64)
IsPlain _ = ⊥

solid-is_break : (c : ℕ) → is_space c ≡ false → is_break c ≡ false
unfolding is_space is_break
solid-is_break c h = ground arith

NoBreak : Text → Type 0
NoBreak t = All (λ c. is_break c ≡ false) t

splitlines-step :
    (l s : Text) → NoBreak l → splitlines_after false (l ++ 10 ∷ s) ≡ l ∷ splitlines_after false s
unfolding splitlines_after is_break NoBreak
splitlines-step [] s a = refl
splitlines-step (c ∷ l) s (ne, a) = rw (splitlines-step l s a) (ground arith)

split_tab-step : (id b64 : Text) → NoSpace id → split_tab (id ++ 9 ∷ b64) ≡ some (id, b64)
unfolding split_tab is_space
split_tab-step [] b64 a = refl
split_tab-step (c ∷ id) b64 (solid, a) = rw (split_tab-step id b64 a) (ground arith)

NoSpace-NoBreak : (t : Text) → NoSpace t → NoBreak t
unfolding NoBreak
NoSpace-NoBreak [] a = tt
NoSpace-NoBreak (c ∷ t) (solid, a) = (solid-is_break c solid, NoSpace-NoBreak t a)

NoBreak-row : (id b64 : Text) → NoSpace id → NoSpace b64 → NoBreak (id ++ 9 ∷ b64)
unfolding NoBreak is_break
NoBreak-row [] b64 a b = (refl, NoSpace-NoBreak b64 b)
NoBreak-row (c ∷ id) b64 (solid, a) b = (solid-is_break c solid, NoBreak-row id b64 a b)

strip-row :
    (c d : ℕ) (id b64 : Text)
    → NoSpace (c ∷ id)
    → NoSpace (d ∷ b64)
    → strip ((c ∷ id) ++ 9 ∷ d ∷ b64) ≡ (c ∷ id) ++ 9 ∷ d ∷ b64
strip-row c d id b64 a b =
    let same = append_assoc (c ∷ id) (9 ∷ []) (d ∷ b64) in
    ap strip (sym same) ∙ strip-between c d id (9 ∷ []) b64 a b ∙ same

parse_lines-row :
    (c d : ℕ) (id b64 : Text) (rest : List Text) (rows : List Row)
    → IsPlain (c ∷ id, d ∷ b64)
    → parse_lines rest ≡ ok rows
    → parse_lines (((c ∷ id) ++ 9 ∷ d ∷ b64) ∷ rest) ≡ ok ((c ∷ id, d ∷ b64) ∷ rows)
unfolding parse_lines starts_with
parse_lines-row c d id b64 rest rows (ne, a, b) later =
    rw (strip-row c d id b64 a b, later, split_tab-step (c ∷ id) (d ∷ b64) a, parse_lines)
      (rw (strip-NoSpace (c ∷ id) a, strip-NoSpace (d ∷ b64) b) (ground (arith, nat_beq_iff c 35)))

lines-parse :
    (rows : List Row)
    → All IsPlain rows
    → parse_lines (splitlines_after false (print rows)) ≡ ok rows
unfolding print
lines-parse [] all = unfold parse_lines splitlines_after in refl
lines-parse (([], b64) ∷ rows) (plain, all) = absurd plain
lines-parse ((c ∷ id, []) ∷ rows) (plain, all) = absurd plain
lines-parse ((c ∷ id, d ∷ b64) ∷ rows) (plain, all) =
    ap (λ t. parse_lines (splitlines_after false t))
      (row_line-split (c ∷ id) (d ∷ b64) (print rows))
    ∙ ap parse_lines (
        splitlines-step ((c ∷ id) ++ 9 ∷ d ∷ b64) (print rows)
          (NoBreak-row (c ∷ id) (d ∷ b64) plain.1 plain.2))
    ∙ parse_lines-row c d id b64 (splitlines_after false (print rows)) rows plain
        (lines-parse rows all)

-- The client reads the manifest that the server has written as its rows, in their order, where each id is
-- not empty and does not begin with '#', each ciphertext is not empty, and neither has a blank.
pub parse_manifest_text-print :
    (rows : List Row) → All IsPlain rows → parse_manifest_text (print rows) ≡ ok rows
unfolding parse_manifest_text
parse_manifest_text-print rows all = lines-parse rows all
