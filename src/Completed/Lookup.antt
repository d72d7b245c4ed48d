-- ===== src/Completed/Lookup.antt =====
-- What is found in the directory, and in its manifest, after the steps of a deletion.
use aestor.Base.{
  ℕ, ◌≡◌, ◌≢◌, refl, ap, ◌∙◌, Bool, false, ◌||◌, none, some, List, [], ◌∷◌, ◌++◌, All, arith,
  if◌then◌else◌, ◌==◌, list_eq, nat_eq,
}
use aestor.Base.Dict
use aestor.Base.Dict.{Dict}
use aestor.Base.Text.{Text, codes}
use aestor.Completed.Files.{
  Directory, manifest_name, manifest_tmp, meta_name, tmp_name, has_file, any_starts, lines,
  row_prefix, manifest_has, rewrite_manifest_without, secure_delete,
}
use aestor.Completed.Rows.{
  Row, IsId, IsRow, print, without, has_row, lines-print, read_text-print, any_starts-row_lines,
  without_rows-print,
}

last_of : ℕ → Text → ℕ
last_of c [] = c
last_of c (d ∷ t) = last_of d t

last_of-append : (c d : ℕ) (t u : Text) → last_of c (t ++ d ∷ u) ≡ last_of d u
unfolding last_of
last_of-append c d [] u = refl
last_of-append c d (x ∷ t) u = last_of-append x d t u

pub meta_name-manifest : (id : Text) → meta_name id ≢ manifest_name
unfolding last_of
meta_name-manifest id e = ground (arith, ap (last_of 0) e, last_of-append 0 46 id (codes "json"))

pub tmp_name-manifest : (id : Text) → tmp_name id ≢ manifest_name
unfolding last_of
tmp_name-manifest id e = ground (arith, ap (last_of 0) e, last_of-append 0 46 id (codes "tmp"))

-- The directory's manifest holds these rows.
abbrev pub Holds : List Row → Directory → Type 0
Holds rows d = Dict.get d manifest_name ≡ some (print rows)

pub manifest_has-Holds :
    (id : Text) (rows : List Row) (d : Directory)
    → IsId id
    → All IsRow rows
    → Holds rows d
    → manifest_has d id ≡ has_row id rows
unfolding manifest_has
manifest_has-Holds id rows d clean all h =
    rw (h, manifest_has)
      (ap (λ t. any_starts (row_prefix id) (lines t)) (read_text-print rows all)
        ∙ ap (any_starts (row_prefix id)) (lines-print rows all)
        ∙ any_starts-row_lines id rows clean all)

pub without-absent :
    (id : Text) (rows : List Row) → has_row id rows ≡ false → without id rows ≡ rows
without-absent id [] h = refl
without-absent id (row ∷ rows) h = ground (arith, without-absent id rows)

pub get-cleared :
    (id name : Text) (d : Directory)
    → Dict.get (Dict.pop (secure_delete id d) (meta_name id)) name
      ≡ (if meta_name id == name then none else if id == name then none else Dict.get d name)
unfolding secure_delete
get-cleared id name d =
    ground (arith, Dict.get-pop (Dict.pop d id) (meta_name id) name, Dict.get-pop d id name)

pub get-rewrite :
    (id name : Text) (rows : List Row) (d : Directory)
    → IsId id
    → All IsRow rows
    → Holds rows d
    → Dict.get (rewrite_manifest_without id d) name ≡ (
        if manifest_name == name
        then some (print (without id rows))
        else if manifest_tmp == name
        then none
        else Dict.get d name)
unfolding rewrite_manifest_without
get-rewrite id name rows d clean all h =
    rw (h, rewrite_manifest_without)
      (rw (without_rows-print id rows clean all) (
        ground (
          arith,
          Dict.get-put (Dict.pop (Dict.put d manifest_tmp (print (without id rows))) manifest_tmp)
              manifest_name name (print (without id rows)),
          Dict.get-pop (Dict.put d manifest_tmp (print (without id rows))) manifest_tmp name,
          Dict.get-put d manifest_tmp name (print (without id rows)),
        )))

pub has_file-get : (d : Directory) (name : Text) → has_file d name ≡ false → Dict.get d name ≡ none
unfolding has_file
has_file-get d name h = ground arith

pub get-has_file : (d : Directory) (name : Text) → Dict.get d name ≡ none → has_file d name ≡ false
unfolding has_file
get-has_file d name h = ground arith

pub none_of : (a b c : Bool) → (a || b || c) ≡ false → (a ≡ false) × (b ≡ false) × (c ≡ false)
none_of a b c h = (ground arith, ground arith, ground arith)
