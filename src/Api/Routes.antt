-- ===== src/Api/Routes.antt =====
-- The routes below /api/v1 of backend/app/main.py, and the deletion from the web. What the guards are
-- given is read from the request by the framework, which has checked the body against its model.
use aestor.Base.{
  ℕ, Bool, true, false, not, ◌==◌, Option, none, some, List, [], ◌∷◌, if◌then◌else◌, list_eq,
  nat_eq,
}
use aestor.Base.Dict
use aestor.Base.Result.{Result, ok, err}
use aestor.Base.Text.{Text, codes}
use aestor.Auth.Guards.{
  Request, Guard, HttpError, Credentials, or_empty, require_api_bearer, require_web_session,
}
use aestor.Completed.Files.{Directory, manifest_name, read_text, delete_completed}
use aestor.Encryption.Crypto.{Bytes}
use aestor.Pairing.State.{Service, Disk, absent, corrupt, stored, PullClientInfo, StatusUpdate}
use aestor.Pairing.Service.{
  PairingError, client_id_required, pairing_conflict, to_info, pair, require_client, touch,
  update_status,
}

-- The pairing service, the store's directory, and whether the live hub was told of a change. pair.json
-- lies in the directory too: it is the service's `disk`, and `files` are the others. (pair.tmp is
-- there only while pair.json is written.)
pub record Server (F : Type 0) : Type 0 where
  pub pairing : Service F
  pub files : Directory
  pub dirty : Bool

-- 401, 400, 409, 403 and 404, and an exception that the route does not catch.
pub data ApiError (F : Type 0) : Type 0 where
  denied : HttpError → ApiError F
  bad_request conflict forbidden uncaught : PairingError F → ApiError F
  file_not_found : ApiError F

pub data Answer (F : Type 0) : Type 0 where
  info_answer : PullClientInfo F → Answer F
  manifest_answer : Text → Answer F
  blob_answer : Bytes → Answer F
  ok_answer : Answer F

abbrev pub Handler : Type 0 → Type 0
Handler F = Server F → Server F × Result (ApiError F) (Answer F)

abbrev pub mark_dirty : {F : Type 0} → Server F → Server F
mark_dirty s = record s { dirty = true }

abbrev pub pair_name : Text
pair_name = codes "pair.json"

abbrev pub pair_tmp : Text
pair_tmp = codes "pair.tmp"

abbrev pub has_pair : {F : Type 0} → Disk F → Bool
has_pair absent = false
has_pair corrupt = true
has_pair (stored d) = true

-- The arguments of a route: the times, the settings, the bearer credentials, and what pair.json holds
-- where it is there.
pub record Context (F : Type 0) : Type 0 where
  pub now : ℕ
  pub mono : ℕ
  pub guard : Guard
  pub credentials : Option Credentials
  pub pair_text : Disk F → Bytes

module _ {F : Type 0} where
  abbrev pub sent : Option Bytes → Result (ApiError F) (Answer F)
  sent none = err file_not_found
  sent (some blob) = ok (blob_answer blob)

  -- `except ValueError` and `except PairingConflict`
  abbrev pub pair_error : PairingError F → ApiError F
  pair_error client_id_required = bad_request client_id_required
  pair_error (pairing_conflict info) = conflict (pairing_conflict info)
  pair_error e = uncaught e

  abbrev pub pair_reply :
      Server F
      → Service F × Result (PairingError F) (PullClientInfo F)
      → Server F × Result (ApiError F) (Answer F)
  pair_reply s (service, err e) = (record s { pairing = service }, err (pair_error e))
  pair_reply s (service, ok info) =
      (mark_dirty (record s { pairing = service }), ok (info_answer info))

  abbrev pub status_reply :
      Server F
      → Service F × Result (PairingError F) (PullClientInfo F)
      → Server F × Result (ApiError F) (Answer F)
  status_reply s (service, err e) = (record s { pairing = service }, err (forbidden e))
  status_reply s (service, ok info) =
      (mark_dirty (record s { pairing = service }), ok (info_answer info))

  -- `store.delete_completed(file_id)`, which takes pair.json for a blob like any other.
  unfoldable pub delete_file_of : Text → Server F → Server F × Bool
  delete_file_of file_id s =
      if file_id == pair_name
      then (let (files, existed) =
            delete_completed file_id
              (if has_pair s.pairing.disk then Dict.put s.files pair_name [] else s.files) in
          (record s { files = files; pairing = record (s.pairing) { disk = absent } }, existed))
      else let (files, existed) = delete_completed file_id s.files in
        (record s { files = files }, existed)

  -- `if not store.delete_completed(file_id)`
  unfoldable pub delete_from : Text → Handler F
  delete_from file_id s =
      let (s', existed) = delete_file_of file_id s in
      if not existed then (s', err file_not_found) else (mark_dirty s', ok ok_answer)

module _ {F : Type 0} (x : Context F) where
  -- `Depends(require_api_bearer)`
  unfoldable pub with_bearer : Handler F → Handler F
  with_bearer handler s = elim (require_api_bearer x.guard x.credentials) [
    | err e ↦ (s, err (denied e))
    | ok passed ↦ handler s
  ]

  -- `_require_paired_client`, then `pairing.touch`
  unfoldable pub with_client : Option Text → Handler F → Handler F
  with_client client_id handler s = elim (require_client client_id s.pairing) [
    | err e ↦ (s, err (forbidden e))
    | ok passed ↦ handler (record s { pairing = touch x.now x.mono (or_empty client_id) s.pairing })
  ]

  unfoldable pub api_pair : Text → Option Text → Bool → Handler F
  api_pair client_id hostname override =
      with_bearer (λ s. pair_reply s (pair x.now x.mono client_id hostname override s.pairing))

  unfoldable pub api_pair_get : Handler F
  api_pair_get = with_bearer (λ s. (s, ok (info_answer (to_info x.now s.pairing))))

  unfoldable pub api_pull_status : Text → StatusUpdate F → Handler F
  api_pull_status client_id status =
      with_bearer (λ s. status_reply s (update_status x.now x.mono client_id status s.pairing))

  unfoldable pub api_list_manifest : Option Text → Handler F
  api_list_manifest client_id = with_bearer (
      with_client client_id (λ s. (
        mark_dirty s,
        ok (manifest_answer (read_text (or_empty (Dict.get s.files manifest_name)))),
      )))

  -- The file at `store.blob_path(file_id)`.
  unfoldable pub file_at : Text → Server F → Option Bytes
  file_at file_id s =
      if file_id == pair_name
      then (if has_pair s.pairing.disk then some (x.pair_text s.pairing.disk) else none)
      else Dict.get s.files file_id

  unfoldable pub api_download_file : Text → Option Text → Handler F
  api_download_file file_id client_id =
      with_bearer (with_client client_id (λ s. (s, sent (file_at file_id s))))

  unfoldable pub api_delete_file : Text → Option Text → Handler F
  api_delete_file file_id client_id = with_bearer (with_client client_id (delete_from file_id))

  unfoldable pub delete_completed_web : Text → Request → Handler F
  delete_completed_web file_id request s = elim (require_web_session x.guard request) [
    | err e ↦ (s, err (denied e))
    | ok passed ↦ delete_from file_id s
  ]

-- A request, by the route that it is for, with what the route is given.
pub data ApiCall (F : Type 0) : Type 0 where
  post_pair : Text → Option Text → Bool → ApiCall F
  get_pair : ApiCall F
  post_status : Text → StatusUpdate F → ApiCall F
  get_list : Option Text → ApiCall F
  get_file delete_file : Text → Option Text → ApiCall F
  delete_web : Text → Request → ApiCall F

module _ {F : Type 0} where
  unfoldable pub route : Context F → ApiCall F → Handler F
  route x (post_pair client_id hostname override) = api_pair x client_id hostname override
  route x get_pair = api_pair_get x
  route x (post_status client_id status) = api_pull_status x client_id status
  route x (get_list client_id) = api_list_manifest x client_id
  route x (get_file file_id client_id) = api_download_file x file_id client_id
  route x (delete_file file_id client_id) = api_delete_file x file_id client_id
  route x (delete_web file_id request) = delete_completed_web x file_id request

  -- Requests one after the other, and their answers.
  unfoldable pub route_all :
      List (Context F × ApiCall F) → Server F → Server F × List (Result (ApiError F) (Answer F))
  route_all [] s = (s, [])
  route_all ((x, call) ∷ calls) s =
      let (s', answer) = route x call s in
      let (s'', answers) = route_all calls s' in (s'', answer ∷ answers)
