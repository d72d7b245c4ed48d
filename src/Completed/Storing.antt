-- ===== src/Completed/Storing.antt =====
-- Storing a completed file, and deleting it again.
use aestor.Base.{
  ℕ, ◌≡◌, ◌≢◌, refl, ap, ◌∙◌, true, false, none, some, List, [], ◌∷◌, ◌++◌, All, arith,
  if◌then◌else◌, ◌==◌, list_eq, nat_eq, eq_iff, eq_refl,
}
use aestor.Base.Dict
use aestor.Base.Dict.{Dict}
use aestor.Base.Result.{ok}
use aestor.Base.Text.{Text}
use aestor.Encryption.Crypto.{Bytes, Crypto, Entropy}
use aestor.Encryption.Encrypt.{encrypt_file}
use aestor.Completed.Files.{
  Directory, manifest_name, manifest_tmp, meta_name, tmp_name, row_line, delete_completed,
  append_row, append_completed,
}
use aestor.Completed.Rows.{
  Row, IsFileId, IsRow, print, without, has_row, print-append, has_row-append,
}
use aestor.Completed.Lookup.{tmp_name-manifest, Holds, get-has_file}
use aestor.Completed.Deletion.{delete_completed_lem}

append_row-Holds :
    (id b64 : Text) (rows : List Row) (d : Directory)
    → Holds rows d
    → Holds (rows ++ (id, b64) ∷ []) (append_row id b64 d)
unfolding append_row
append_row-Holds id b64 rows d h =
    rw (h, append_row)
      (Dict.get-put d manifest_name manifest_name (print rows ++ row_line id b64)
        ∙ ground (arith, eq_refl manifest_name, print-append rows (id, b64)))

get-append_row :
    (id b64 name : Text) (rows : List Row) (d : Directory)
    → Holds rows d
    → name ≢ manifest_name
    → Dict.get (append_row id b64 d) name ≡ Dict.get d name
unfolding append_row
get-append_row id b64 name rows d h ne =
    rw (h, append_row)
      (Dict.get-put d manifest_name name (print rows ++ row_line id b64)
        ∙ ground (arith, eq_iff manifest_name name))

append_completed-ok :
    (c : Crypto) (e : Entropy) (id b64 : Text) (source : Bytes) (d : Directory) {size : ℕ}
    → (encrypt_file c e source).result ≡ ok size
    → append_completed c e id b64 source d ≡ (
      append_row id b64 (Dict.put (Dict.pop d (tmp_name id)) id (encrypt_file c e source).written),
      ok tt,
    )
unfolding append_completed
append_completed-ok c e id b64 source d r = rw (r, append_completed) refl

get-placed :
    (id : Text) (content : List ℕ) (d : Directory) (name : Text)
    → Dict.get (Dict.put (Dict.pop d (tmp_name id)) id content) name
      ≡ (if id == name then some content else if tmp_name id == name then none else Dict.get d name)
get-placed id content d name =
    Dict.get-put (Dict.pop d (tmp_name id)) id name content
    ∙ ap (λ o. if id == name then some content else o) (Dict.get-pop d (tmp_name id) name)

All-snoc : (rows : List Row) (row : Row) → All IsRow rows → IsRow row → All IsRow (rows ++ row ∷ [])
All-snoc [] row all r = (r, tt)
All-snoc (first ∷ rows) row (f, all) r = (f, All-snoc rows row all r)

without-snoc :
    (id b64 : Text) (rows : List Row)
    → has_row id rows ≡ false
    → without id (rows ++ (id, b64) ∷ []) ≡ rows
without-snoc id b64 [] h = rw (eq_refl id) refl
without-snoc id b64 (row ∷ rows) h = ground (arith, without-snoc id b64 rows)

-- Deleting what has just been stored, under an id that no row carries and that is not manifest.db,
-- with a plain id without a slash, a plain ciphertext and an encryption that returned: the blob was
-- stored and the row appended; afterwards the manifest is what it was, row by row, the blob is gone,
-- and every other file is as before but for the temporary ones and the file of the duration.
pub delete-append_completed :
    (c : Crypto) (e : Entropy) (id b64 : Text) (source : Bytes) (rows : List Row) (d : Directory)
    {size : ℕ}
    → (encrypt_file c e source).result ≡ ok size
    → IsFileId id
    → IsRow (id, b64)
    → All IsRow rows
    → has_row id rows ≡ false
    → id ≢ manifest_name
    → Holds rows d
    → let stored = (append_completed c e id b64 source d).0 in
      let left = (delete_completed id stored).0 in
      (Dict.get stored id ≡ some (encrypt_file c e source).written)
      × Holds (rows ++ (id, b64) ∷ []) stored
      × ((delete_completed id stored).1 ≡ true)
      × Holds rows left
      × (Dict.get left id ≡ none)
      × ((name : Text)
          → name ≢ id
          → name ≢ meta_name id
          → name ≢ tmp_name id
          → name ≢ manifest_name
          → name ≢ manifest_tmp
          → Dict.get left name ≡ Dict.get d name)
delete-append_completed c e id b64 source rows d r part row all fresh ne h =
    let written = (encrypt_file c e source).written in
    let d1 = Dict.put (Dict.pop d (tmp_name id)) id written in
    let stored = append_row id b64 d1 in
    let step = append_completed-ok c e id b64 source d r in
    let before = get-placed id written d in
    let h1 : Holds rows d1 =
      before manifest_name
      ∙ ground (
        arith,
        h,
        eq_iff id manifest_name,
        eq_iff (tmp_name id) manifest_name,
        tmp_name-manifest id,
      ) in
    let rows' = rows ++ (id, b64) ∷ [] in
    let held : Holds rows' stored = append_row-Holds id b64 rows d1 h1 in
    let here : Dict.get stored id ≡ some written =
      get-append_row id b64 id rows d1 h1 ne ∙ before id ∙ ground (arith, eq_refl id) in
    let (kept, gone, _, others, answer) =
      delete_completed_lem id rows' stored part (All-snoc rows (id, b64) all row) ne held in
    rw step (
      here,
      held,
      answer ∙ ground (arith, get-has_file stored id, has_row-append id rows (id, b64), eq_refl id),
      kept ∙ ap (λ rs. some (print rs)) (without-snoc id b64 rows fresh),
      gone,
      (λ name n1 n2 n3 n4 n5.
          others name n1 n2 n4 n5
          ∙ get-append_row id b64 name rows d1 h1 n4
          ∙ before name
          ∙ ground (arith, eq_iff id name, eq_iff (tmp_name id) name)),
    )
