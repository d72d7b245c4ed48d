-- ===== src/Completed/Deletion.antt =====
-- Deleting a completed file.
use aestor.Base.{
  ◌≡◌, ◌≢◌, refl, ap, sym, ◌∙◌, true, false, ◌||◌, none, some, List, All, arith, list_eq, nat_eq,
  eq_iff, eq_refl, Bool-cases, inl, inr,
}
use aestor.Base.Dict
use aestor.Base.Dict.{Dict}
use aestor.Base.Text.{Text}
use aestor.Completed.Files.{
  Directory, manifest_name, manifest_tmp, meta_name, has_file, manifest_has,
  rewrite_manifest_without, secure_delete, delete_completed,
}
use aestor.Completed.Rows.{Row, IsFileId, IsRow, print, without, has_row}
use aestor.Completed.Lookup.{
  meta_name-manifest, Holds, manifest_has-Holds, without-absent, get-cleared, get-rewrite,
  has_file-get, none_of,
}

delete_completed-absent :
    (id : Text) (d : Directory)
    → (has_file d id || has_file d (meta_name id) || manifest_has d id) ≡ false
    → delete_completed id d ≡ (d, false)
unfolding delete_completed
delete_completed-absent id d h = rw h refl

delete_completed-present :
    (id : Text) (d : Directory)
    → (has_file d id || has_file d (meta_name id) || manifest_has d id) ≡ true
    → delete_completed id d
      ≡ (rewrite_manifest_without id (Dict.pop (secure_delete id d) (meta_name id)), true)
unfolding delete_completed
delete_completed-present id d h = rw h refl

cleared-Holds :
    (id : Text) (rows : List Row) (d : Directory)
    → id ≢ manifest_name
    → Holds rows d
    → Holds rows (Dict.pop (secure_delete id d) (meta_name id))
cleared-Holds id rows d ne h =
    get-cleared id manifest_name d
    ∙ ground
        (arith, eq_iff (meta_name id) manifest_name, eq_iff id manifest_name, meta_name-manifest id)

-- What `delete_completed` promises for an id without a tab, a line end or a slash that is not
-- manifest.db, where the manifest holds rows with no tab in the id and no line end: the manifest then
-- holds the rows of the other ids, in their order; the blob and the file of its duration are gone;
-- every other file but manifest.db.tmp is as before; and the answer says whether there was anything to
-- delete.
pub delete_completed_lem :
    (id : Text) (rows : List Row) (d : Directory)
    → IsFileId id
    → All IsRow rows
    → id ≢ manifest_name
    → Holds rows d
    → let d' = (delete_completed id d).0 in
      Holds (without id rows) d'
      × (Dict.get d' id ≡ none)
      × (Dict.get d' (meta_name id) ≡ none)
      × ((name : Text)
          → name ≢ id
          → name ≢ meta_name id
          → name ≢ manifest_name
          → name ≢ manifest_tmp
          → Dict.get d' name ≡ Dict.get d name)
      × ((delete_completed id d).1
          ≡ (has_file d id || has_file d (meta_name id) || has_row id rows))
delete_completed_lem id rows d (clean, part) all ne h =
    let same = manifest_has-Holds id rows d clean all h in
    let there = has_file d id || has_file d (meta_name id) || manifest_has d id in
    let answer : there ≡ (has_file d id || has_file d (meta_name id) || has_row id rows) =
      ap (λ b. has_file d id || has_file d (meta_name id) || b) same in
    let cleared = Dict.pop (secure_delete id d) (meta_name id) in
    let kept = cleared-Holds id rows d ne h in
    let after = λ (name : Text). get-rewrite id name rows cleared clean all kept in
    elim (Bool-cases there) [
      | inl yes_there ↦ rw (delete_completed-present id d yes_there) (
        after manifest_name ∙ ground (arith, eq_refl manifest_name),
        after id
            ∙ ground (
              arith,
              get-cleared id id d,
              eq_iff manifest_name id,
              eq_iff manifest_tmp id,
              eq_refl id,
            ),
        after (meta_name id)
            ∙ ground (
              arith,
              get-cleared id (meta_name id) d,
              eq_iff manifest_name (meta_name id),
              meta_name-manifest id,
              eq_refl (meta_name id),
            ),
        (λ name n1 n2 n3 n4.
            after name
            ∙ ground (
              arith,
              get-cleared id name d,
              eq_iff (meta_name id) name,
              eq_iff id name,
              eq_iff manifest_name name,
              eq_iff manifest_tmp name,
            )),
        sym yes_there ∙ answer,
      )
      | inr nothing ↦
          let (no_blob, no_meta, no_row) =
            none_of (has_file d id) (has_file d (meta_name id)) (has_row id rows)
              (sym answer ∙ nothing) in
          rw (delete_completed-absent id d nothing) (
            h ∙ ap (λ r. some (print r)) (sym (without-absent id rows no_row)),
            has_file-get d id no_blob,
            has_file-get d (meta_name id) no_meta,
            (λ name n1 n2 n3 n4. refl),
            sym nothing ∙ answer,
          )
    ]

-- No id is refused: `delete_completed` of manifest.db, which the routes pass on as any other id, wipes
-- the manifest itself, with the rows of every file.
pub delete_manifest :
    (rows : List Row) (d : Directory)
    → Holds rows d
    → ((delete_completed manifest_name d).1 ≡ true)
      × (Dict.get (delete_completed manifest_name d).0 manifest_name ≡ none)
unfolding rewrite_manifest_without
delete_manifest rows d h =
    let cleared = Dict.pop (secure_delete manifest_name d) (meta_name manifest_name) in
    let gone : Dict.get cleared manifest_name ≡ none =
      get-cleared manifest_name manifest_name d ∙ ground (arith, eq_refl manifest_name) in
    rw (delete_completed-present manifest_name d (ground (arith, has_file-get d manifest_name)))
      (refl, rw (gone, rewrite_manifest_without) gone)
