-- ===== src/Api/Shelf.antt =====
-- The completed files as the pull client sees them: the rows of the manifest, and the blob of each row.
use mathlib.Core.Path.{subst}
use aestor.Base.{
  ℕ, ◌≡◌, ◌≢◌, sym, ◌∙◌, ap, Bool, true, ◌&&◌, ◌||◌, Option, none, some, List, [], ◌∷◌, ◌++◌, All,
  arith, leb, if◌then◌else◌, ◌==◌, list_eq, nat_eq, eq_iff, inl, inr, Bool-cases,
}
use aestor.Base.Blanks.{NoSpace}
use aestor.Base.Dict
use aestor.Base.Result.{Result, ok, err}
use aestor.Base.Text.{Text, codes, is_space}
use aestor.Completed.Deletion.{delete_completed_lem}
use aestor.Completed.Files.{Directory, manifest_name, manifest_tmp, meta_name, delete_completed}
use aestor.Completed.Lookup.{Holds}
use aestor.Completed.Parse.{parse_manifest_text}
use aestor.Completed.Printing.{IsPlain, parse_manifest_text-print}
use aestor.Completed.Rows.{Row, IsId, IsFileId, IsRow, without, has_row, has_row-without}
use aestor.Encryption.Crypto.{Bytes}
use aestor.Api.Routes.{pair_name}
use aestor.Encryption.Frame.{Fault}

-- The characters of `uuid.uuid4()` as a text.
abbrev pub is_id_char : ℕ → Bool
is_id_char c = (leb 48 c && leb c 57) || (leb 97 c && leb c 102) || leb c 45 && leb 45 c

abbrev pub IsUuid : Text → Type 0
IsUuid id = All (λ c. is_id_char c ≡ true) id

abbrev rows_or : Result Fault (List Row) → List Row
rows_or (err e) = []
rows_or (ok rows) = rows

abbrev rows_in : Option Text → List Row
rows_in none = []
rows_in (some text) = rows_or (parse_manifest_text text)

unfoldable pub rows_of : Directory → List Row
rows_of d = rows_in (Dict.get d manifest_name)

unfoldable pub blob_of : Directory → Text → Option Bytes
blob_of d id = if has_row id (rows_of d) then Dict.get d id else none

-- The manifest is one that the server has written, for files named by `new_id()`.
pub record IsShelf (d : Directory) : Type 0 where
  pub written : Holds (rows_of d) d
  pub plain : All IsPlain (rows_of d)
  pub named : All (λ (row : Row). IsUuid row.0) (rows_of d)

pub rows_of-Holds :
    (rows : List Row) (d : Directory) → Holds rows d → All IsPlain rows → rows_of d ≡ rows
unfolding rows_of
rows_of-Holds rows d h plain = ap rows_in h ∙ ap rows_or (parse_manifest_text-print rows plain)

solid-IsId : (t : Text) → NoSpace t → IsId t
unfolding is_space
solid-IsId [] a = (tt, tt, tt)
solid-IsId (c ∷ t) (solid, a) =
    let (tabs, ends, returns) = solid-IsId t a in
    ((ground arith, tabs), (ground arith, ends), (ground arith, returns))

plain-IsRow : (row : Row) → IsPlain row → IsRow row
plain-IsRow ([], b64) plain = elim plain [ ]
plain-IsRow (c ∷ id, []) plain = elim plain [ ]
plain-IsRow (c ∷ id, d ∷ b64) (ne, a, b) =
    (solid-IsId (c ∷ id) a, (let clean = solid-IsId (d ∷ b64) b in (clean.1, clean.2)))

plain-IsRows : (rows : List Row) → All IsPlain rows → All IsRow rows
plain-IsRows [] all = tt
plain-IsRows (row ∷ rows) (plain, all) = (plain-IsRow row plain, plain-IsRows rows all)

All-without :
    (P : Row → Type 0) (id : Text) (rows : List Row) → All P rows → All P (without id rows)
All-without P id [] all = tt
All-without P id (row ∷ rows) (h, all) = elim (Bool-cases (row.0 == id)) [
  | inl same ↦ rw same (All-without P id rows all)
  | inr other ↦ rw other (h, All-without P id rows all)
]

-- What holds of every row holds of the id that has one.
row-has :
    (P : Text → Type 0) (id : Text) (rows : List Row)
    → All (λ (row : Row). P row.0) rows
    → has_row id rows ≡ true
    → P id
row-has P id [] all h = cc
row-has P id (row ∷ rows) (p, all) h = elim (Bool-cases (row.0 == id)) [
  | inl same ↦ subst P ((eq_iff row.0 id).0 same) p
  | inr other ↦ row-has P id rows all (ground arith)
]

IsUuid-IsFileId : (id : Text) → IsUuid id → IsFileId id
IsUuid-IsFileId [] a = ((tt, tt, tt), tt)
IsUuid-IsFileId (c ∷ t) (char, a) =
    let ((tabs, ends, returns), slashes) = IsUuid-IsFileId t a in
    (((ground arith, tabs), (ground arith, ends), (ground arith, returns)), (ground arith, slashes))

IsUuid-append : (t u : Text) → IsUuid (t ++ u) → IsUuid u
IsUuid-append [] u a = a
IsUuid-append (c ∷ t) u a = IsUuid-append t u a.1

IsUuid-meta_name : (id t : Text) → IsUuid t → t ≢ meta_name id
IsUuid-meta_name id t a e = ground (arith, (IsUuid-append id (codes ".json") (subst IsUuid e a)).0)

IsUuid-manifest_tmp : (t : Text) → IsUuid t → t ≢ manifest_tmp
IsUuid-manifest_tmp t a e = ground (arith, (subst IsUuid e a).0)

pub IsUuid-pair_name : (t : Text) → IsUuid t → t ≢ pair_name
IsUuid-pair_name t a e = ground (arith, (subst IsUuid e a).0)

IsUuid-manifest : (t : Text) → IsUuid t → t ≢ manifest_name
IsUuid-manifest t a e = ground (arith, (subst IsUuid e a).0)

-- The rows that the server has written, as `read_text` gives them.
pub rows-IsRow : (d : Directory) → IsShelf d → All IsRow (rows_of d)
rows-IsRow d shelf = plain-IsRows (rows_of d) shelf.plain

module _ (id : Text) (d : Directory) (shelf : IsShelf d) (blob : Bytes)
    (there : blob_of d id ≡ some blob) where
  listed : has_row id (rows_of d) ≡ true
  unfolding blob_of
  listed = ground (arith, there)

  pub blob-get : Dict.get d id ≡ some blob
  unfolding blob_of
  blob-get = ground (arith, there)

  pub uuid : IsUuid id
  uuid = row-has IsUuid id (rows_of d) shelf.named listed

  kept_blob :
      (d' : Directory) (other : Text)
      → rows_of d' ≡ without id (rows_of d)
      → ((name : Text)
          → name ≢ id
          → name ≢ meta_name id
          → name ≢ manifest_name
          → name ≢ manifest_tmp
          → Dict.get d' name ≡ Dict.get d name)
      → blob_of d' other ≡ (if id == other then none else blob_of d other)
  unfolding blob_of
  kept_blob d' other same kept =
      let row = ap (has_row other) same ∙ has_row-without id other (rows_of d) in
      elim (Bool-cases (id == other)) [
        | inl e ↦ ground (arith, row)
        | inr ne ↦ elim (Bool-cases (has_row other (rows_of d))) [
          | inr unlisted ↦ ground (arith, row)
          | inl h ↦
              let name = row-has IsUuid other (rows_of d) shelf.named h in
              ground (
                arith,
                row,
                kept other (λ e. ground (arith, eq_iff id other, sym e))
                    (IsUuid-meta_name id other name) (IsUuid-manifest other name)
                    (IsUuid-manifest_tmp other name),
              )
        ]
      ]

  -- A deletion takes the id's row and blob away, and leaves the manifest as the server writes it.
  pub delete_completed-IsShelf :
      let d' = (delete_completed id d).0 in
      IsShelf d'
      × ((delete_completed id d).1 ≡ true)
      × ((other : Text) → blob_of d' other ≡ (if id == other then none else blob_of d other))
  delete_completed-IsShelf =
      let rows = rows_of d in
      let (left, gone, meta, kept, answer) =
        delete_completed_lem id rows d (IsUuid-IsFileId id uuid) (plain-IsRows rows shelf.plain)
          (IsUuid-manifest id uuid) shelf.written in
      let d' = (delete_completed id d).0 in
      let fewer = All-without IsPlain id rows shelf.plain in
      let same = rows_of-Holds (without id rows) d' left fewer in
      (
        record {
          written = subst (λ r. Holds r d') (sym same) left;
          plain = subst (All IsPlain) (sym same) fewer;
          named =
              subst (All (λ (row : Row). IsUuid row.0)) (sym same)
                (All-without (λ row. IsUuid row.0) id rows shelf.named);
        },
        ground (arith, answer, listed),
        λ other. kept_blob d' other same kept,
      )
