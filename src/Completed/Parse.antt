-- ===== src/Completed/Parse.antt =====
-- `parse_manifest_text` of backend/app/services/encryption.py.
use aestor.Base.{
  ℕ, Bool, false, ◌&&◌, ◌||◌, Option, none, some, List, [], ◌∷◌, nat_beq, leb, is_empty,
  if◌then◌else◌,
}
use aestor.Base.Result.{Result, ok, err, ◌>>=◌}
use aestor.Base.Text.{Text, codes, strip, starts_with}
use aestor.Completed.Rows.{Row}
use aestor.Encryption.Frame.{Fault, malformed_line}

-- The code points at which `str.splitlines` ends a line.
unfoldable pub is_break : ℕ → Bool
is_break c =
    (leb 10 c && leb c 13)
    || (leb 28 c && leb c 30)
    || nat_beq c 133
    || nat_beq c 8232
    || nat_beq c 8233

abbrev pub before_first : ℕ → List Text → List Text
before_first c [] = (c ∷ []) ∷ []
before_first c (l ∷ ls) = (c ∷ l) ∷ ls

-- `splitlines`, after a carriage return or not: a newline right after one belongs to it.
unfoldable pub splitlines_after : Bool → Text → List Text
splitlines_after cr [] = []
splitlines_after cr (c ∷ s) =
    let skipped = splitlines_after false s in
    let ended = splitlines_after (nat_beq c 13) s in
    if cr && nat_beq c 10
    then skipped
    else if is_break c
    then [] ∷ ended
    else before_first c skipped

abbrev pub splitlines : Text → List Text
splitlines text = splitlines_after false text

-- `line.split("\t", 1)`, none where the line has no tab.
unfoldable pub split_tab : Text → Option (Text × Text)
split_tab [] = none
split_tab (c ∷ s) =
    let rest = split_tab s in
    if nat_beq c 9 then some ([], s) else elim rest [ none ↦ none | some p ↦ some (c ∷ p.0, p.1) ]

-- The loop over the lines; a line that is malformed raises, whatever comes after it.
unfoldable pub parse_lines : List Text → Result Fault (List Row)
parse_lines [] = ok []
parse_lines (raw ∷ rest) =
    let line = strip raw in
    let later = parse_lines rest in
    if is_empty line || starts_with line (codes "#") then later else elim (split_tab line) [
      | none ↦ err malformed_line
      | some p ↦ (do rows ← later; ok ((strip p.0, strip p.1) ∷ rows))
    ]

unfoldable pub parse_manifest_text : Text → Result Fault (List Row)
parse_manifest_text text = parse_lines (splitlines text)
