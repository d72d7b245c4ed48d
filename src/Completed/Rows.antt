-- ===== src/Completed/Rows.antt =====
-- The manifest as the list of its rows: printing, and what its lines are.
use aestor.Base.{
  ℕ, ◌≡◌, ◌≢◌, refl, ap, sym, ◌∙◌, Bool, true, false, not, List, [], ◌∷◌, ◌++◌, All, arith,
  nat_beq_iff, filter_by, if◌then◌else◌, ◌==◌, list_eq, list_beq, nat_eq, eq_iff, append_assoc,
  append-nil, ap₂, Bool-cases, inl, inr,
}
use aestor.Base.Text.{Text, starts_with}
use aestor.Completed.Files.{
  lines, concat_lines, any_starts, read_newlines, read_text, row_prefix, row_line, without_rows,
}

abbrev pub Row : Type 0
Row = Text × Text

abbrev Avoids : ℕ → Text → Type 0
Avoids c t = All (λ d. d ≢ c) t

-- No tab and no line end in an id, no line end in a ciphertext.
abbrev pub IsId : Text → Type 0
IsId t = Avoids 9 t × Avoids 10 t × Avoids 13 t

-- An id that also names a file: it has no slash.
abbrev pub IsFileId : Text → Type 0
IsFileId t = IsId t × Avoids 47 t

abbrev pub IsRow : Row → Type 0
IsRow row = IsId row.0 × (Avoids 10 row.1 × Avoids 13 row.1)

unfoldable pub print : List Row → Text
print [] = []
print (row ∷ rows) = row_line row.0 row.1 ++ print rows

abbrev pub row_lines : List Row → List Text
row_lines [] = []
row_lines (row ∷ rows) = row_line row.0 row.1 ∷ row_lines rows

-- The rows of other ids.
abbrev pub without : Text → List Row → List Row
without id rows = filter_by (λ row. not (row.0 == id)) rows

abbrev pub has_row : Text → List Row → Bool
has_row id [] = false
has_row id (row ∷ rows) = let rest = has_row id rows in if row.0 == id then true else rest

lines-step : (l s : Text) → Avoids 10 l → lines (l ++ 10 ∷ s) ≡ (l ++ 10 ∷ []) ∷ lines s
unfolding lines
lines-step [] s a = refl
lines-step (c ∷ l) s (ne, a) = rw (lines-step l s a) (ground (arith, nat_beq_iff c 10))

Avoids-append : (c : ℕ) (s t : Text) → Avoids c s → Avoids c t → Avoids c (s ++ t)
Avoids-append c [] t a b = b
Avoids-append c (x ∷ s) t (ne, a) b = (ne, Avoids-append c s t a b)

starts_with-row :
    (i id rest : Text)
    → Avoids 9 i
    → Avoids 9 id
    → starts_with (i ++ 9 ∷ rest) (id ++ 9 ∷ []) ≡ (i == id)
unfolding starts_with list_beq
starts_with-row [] [] rest a b = refl
starts_with-row [] (c ∷ id) rest a (ne, b) = ground (arith, nat_beq_iff 9 c)
starts_with-row (d ∷ i) [] rest (ne, a) b = ground (arith, nat_beq_iff d 9)
starts_with-row (d ∷ i) (c ∷ id) rest (ne, a) (ne', b) = rw (starts_with-row i id rest a b) refl

pub row_line-split : (id b64 s : Text) → row_line id b64 ++ s ≡ (id ++ 9 ∷ b64) ++ 10 ∷ s
row_line-split id b64 s =
    append_assoc id (9 ∷ (b64 ++ 10 ∷ [])) s
    ∙ ap (λ t. id ++ 9 ∷ t) (append_assoc b64 (10 ∷ []) s)
    ∙ sym (append_assoc id (9 ∷ b64) (10 ∷ s))

row_line-whole : (id b64 : Text) → row_line id b64 ≡ (id ++ 9 ∷ b64) ++ 10 ∷ []
row_line-whole id b64 = sym (append_assoc id (9 ∷ b64) (10 ∷ []))

pub lines-print : (rows : List Row) → All IsRow rows → lines (print rows) ≡ row_lines rows
unfolding print
lines-print [] all = unfold lines in refl
lines-print ((id, b64) ∷ rows) (((no_tab, no_end, no_return), (clean, plain)), all) =
    ap lines (row_line-split id b64 (print rows))
    ∙ lines-step (id ++ 9 ∷ b64) (print rows)
        (Avoids-append 10 id (9 ∷ b64) no_end ((ground arith), clean))
    ∙ ap₂ ◌∷◌ (sym (row_line-whole id b64)) (lines-print rows all)

row_lines-starts :
    (id : Text) (row : Row)
    → IsId id
    → IsRow row
    → starts_with (row_line row.0 row.1) (row_prefix id) ≡ (row.0 == id)
row_lines-starts id (i, b64) clean r = starts_with-row i id (b64 ++ 10 ∷ []) r.0.0 clean.0

pub any_starts-row_lines :
    (id : Text) (rows : List Row)
    → IsId id
    → All IsRow rows
    → any_starts (row_prefix id) (row_lines rows) ≡ has_row id rows
unfolding any_starts
any_starts-row_lines id [] clean all = refl
any_starts-row_lines id (row ∷ rows) clean (r, all) =
    rw (row_lines-starts id row clean r, any_starts-row_lines id rows clean all) refl

read_newlines-plain : (s : Text) → Avoids 13 s → read_newlines false s ≡ s
unfolding read_newlines
read_newlines-plain [] a = refl
read_newlines-plain (c ∷ s) (ne, a) =
    rw (read_newlines-plain s a) (ground (arith, nat_beq_iff c 13))

print-plain : (rows : List Row) → All IsRow rows → Avoids 13 (print rows)
unfolding print
print-plain [] all = tt
print-plain ((id, b64) ∷ rows) (((no_tab, no_end, no_return), (clean, plain)), all) =
    Avoids-append 13 (row_line id b64) (print rows)
      (Avoids-append 13 id (9 ∷ (b64 ++ 10 ∷ [])) no_return
        ((ground arith), Avoids-append 13 b64 (10 ∷ []) plain ((ground arith), tt)))
      (print-plain rows all)

-- The manifest has no line ends that are translated.
pub read_text-print : (rows : List Row) → All IsRow rows → read_text (print rows) ≡ print rows
unfolding read_text
read_text-print rows all = read_newlines-plain (print rows) (print-plain rows all)

concat_lines-row_lines :
    (id : Text) (rows : List Row)
    → IsId id
    → All IsRow rows
    → concat_lines (filter_by (λ line. not (starts_with line (row_prefix id))) (row_lines rows))
      ≡ print (without id rows)
unfolding concat_lines print
concat_lines-row_lines id [] clean all = refl
concat_lines-row_lines id (row ∷ rows) clean (r, all) = elim (Bool-cases (row.0 == id)) [
  | inl same ↦
      rw (row_lines-starts id row clean r) (rw same (concat_lines-row_lines id rows clean all))
  | inr other ↦
      rw (row_lines-starts id row clean r)
        (rw other (ap (◌++◌ (row_line row.0 row.1)) (concat_lines-row_lines id rows clean all)))
]

-- Rewriting the manifest's text is dropping the id's rows.
pub without_rows-print :
    (id : Text) (rows : List Row)
    → IsId id
    → All IsRow rows
    → without_rows id (print rows) ≡ print (without id rows)
unfolding without_rows
without_rows-print id rows clean all =
    rw (read_text-print rows all)
      (rw (lines-print rows all) (concat_lines-row_lines id rows clean all))

pub print-append :
    (rows : List Row) (row : Row) → print (rows ++ row ∷ []) ≡ print rows ++ row_line row.0 row.1
unfolding print
print-append [] row = append-nil (row_line row.0 row.1)
print-append (first ∷ rows) row =
    ap (◌++◌ (row_line first.0 first.1)) (print-append rows row)
    ∙ sym (append_assoc (row_line first.0 first.1) (print rows) (row_line row.0 row.1))

pub has_row-append :
    (id : Text) (rows : List Row) (row : Row)
    → has_row id (rows ++ row ∷ []) ≡ (if row.0 == id then true else has_row id rows)
has_row-append id [] row = refl
has_row-append id (first ∷ rows) row = ground (arith, has_row-append id rows row)

pub has_row-without :
    (id other : Text) (rows : List Row)
    → has_row other (without id rows) ≡ (if id == other then false else has_row other rows)
has_row-without id other [] = ground arith
has_row-without id other (row ∷ rows) =
    ground
      (arith, has_row-without id other rows, eq_iff row.0 id, eq_iff row.0 other, eq_iff id other)

pub IsRow-without : (id : Text) (rows : List Row) → All IsRow rows → All IsRow (without id rows)
IsRow-without id [] all = tt
IsRow-without id (row ∷ rows) (r, all) = elim (Bool-cases (row.0 == id)) [
  | inl same ↦ rw same (IsRow-without id rows all)
  | inr other ↦ rw other (r, IsRow-without id rows all)
]
