-- ===== src/Api/Deleting.antt =====
-- What the paired client sees after it has deleted a file over the routes of backend/app/main.py.
use aestor.Base.{◌≡◌, ◌≢◌, sym, ◌∙◌, ap, Option, List, All, list_eq, nat_eq}
use aestor.Base.Dict
use aestor.Base.Result.{ok, err}
use aestor.Base.Text.{Text}
use aestor.Auth.Guards.{or_empty, require_api_bearer}
use aestor.Completed.Deletion.{delete_completed_lem}
use aestor.Completed.Files.{manifest_name, manifest_tmp, read_text, meta_name, delete_completed}
use aestor.Completed.Lookup.{Holds}
use aestor.Completed.Rows.{Row, IsFileId, IsRow, print, without, read_text-print, IsRow-without}
use aestor.Pairing.Ownership.{owner-touch}
use aestor.Pairing.Service.{owner}
use aestor.Api.Routes.{
  Server, file_not_found, manifest_answer, Context, get_list, get_file, delete_file, route, sent,
}
use aestor.Api.Routes.{pair_name, pair_tmp}
use aestor.Api.LetIn.{IsLetIn, get_file-IsLetIn, get_list-IsLetIn, delete_file-IsLetIn}

module _ {F : Type 0} where
  -- A client that both guards let in deletes a file whose id has no tab, line end or slash and is neither
  -- manifest.db nor pair.json, where the manifest holds rows with no tab in the id and no line end. With
  -- the API token it then gets: for that file, that it is not found; the manifest with the rows of the
  -- other ids; and for any other file but that of the duration, the manifest and pair.json, with their
  -- temporary files, what it got before.
  pub delete_file-seen :
      (x y : Context F) (client : Option Text) (id : Text) (rows : List Row) (s : Server F)
      → IsLetIn x client s
      → require_api_bearer y.guard y.credentials ≡ ok tt
      → IsFileId id
      → All IsRow rows
      → id ≢ manifest_name
      → id ≢ pair_name
      → Holds rows s.files
      → let after = (route x (delete_file id client) s).0 in
        ((route y (get_file id client) after).1 ≡ err file_not_found)
        × ((route y (get_list client) after).1 ≡ ok (manifest_answer (print (without id rows))))
        × ((name : Text)
            → name ≢ id
            → name ≢ meta_name id
            → name ≢ manifest_name
            → name ≢ manifest_tmp
            → name ≢ pair_name
            → name ≢ pair_tmp
            → (route y (get_file name client) after).1 ≡ (route y (get_file name client) s).1)
  delete_file-seen x y client id rows s h token clean all ne apart holds =
      let after = (route x (delete_file id client) s).0 in
      let (files, slot) = delete_file-IsLetIn x client id s h apart in
      let in_after : IsLetIn y client after =
        (token, ap owner slot ∙ owner-touch x.now x.mono (or_empty client) s.pairing ∙ h.1) in
      let (left, gone, meta, kept, answer) =
        delete_completed_lem id rows s.files clean all ne holds in
      let look : (name : Text)
          → Dict.get after.files name ≡ Dict.get (delete_completed id s.files).0 name =
        λ name. ap (λ d. Dict.get d name) files in
      (
        get_file-IsLetIn y client id after in_after apart ∙ ap sent (look id ∙ gone),
        get_list-IsLetIn y client after in_after
            ∙ ap (λ t. ok (manifest_answer (read_text (or_empty t)))) (look manifest_name ∙ left)
            ∙ ap (λ t. ok (manifest_answer t))
                (read_text-print (without id rows) (IsRow-without id rows all)),
        (λ name n1 n2 n3 n4 n5 n6.
            get_file-IsLetIn y client name after in_after n5
            ∙ ap sent (look name ∙ kept name n1 n2 n3 n4)
            ∙ sym (get_file-IsLetIn y client name s (token, h.1) n5)),
      )
