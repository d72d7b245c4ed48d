-- ===== src/Api/Contract.antt =====
-- The routes of backend/app/main.py keep the contract that scripts/pull.py relies on.
use mathlib.Core.Path.{subst}
use aestor.Base.{
  ℕ, suc, ◌≡◌, ◌≢◌, ◌==◌, false, eq_iff, refl, sym, ◌∙◌, ap, true, Option, some, arith, inl, inr,
  list_eq, list_beq, nat_eq, eq_refl,
}
use aestor.Base.Dict
use aestor.Base.Result.{Result, ok, err, Result-cases}
use aestor.Base.Text.{Text, strip, lower}
use aestor.Auth.Guards.{Guard, or_empty, require_api_bearer, token_matches}
use aestor.Completed.Files.{manifest_name, read_text, delete_completed}
use aestor.Completed.Parse.{parse_manifest_text}
use aestor.Completed.Printing.{parse_manifest_text-print}
use aestor.Completed.Rows.{read_text-print}
use aestor.Encryption.Crypto.{Bytes}
use aestor.Pairing.Ownership.{owner-touch, owner-update_status}
use aestor.Pairing.Service.{owner, update_status, PairingError}
use aestor.Pairing.State.{Service, StatusUpdate, PullClientInfo, or_blank}
use aestor.Pull.Client.{Request, Outside, Client}
use aestor.Pull.Honest.{Api, IsHonest, list_request, get_request, delete_request}
use aestor.Pull.Quiet.{status_request}
use aestor.Api.LetIn.{IsLetIn, let_in, file_at-other, delete_from-files, touched}
use aestor.Api.Routes.{
  pair_name, file_at, delete_file_of, Server, ok_answer, manifest_answer, Context, Handler,
  with_client, with_bearer, status_reply, sent, mark_dirty, api_pull_status, api_list_manifest,
  api_download_file, api_delete_file, delete_from, ApiCall, post_status, get_list, get_file,
  delete_file, route,
}
use aestor.Api.Serving.{Framework, serve, outside, bearer, IsHttp, context_at, reply_of}
use aestor.Api.Shelf.{
  IsShelf, rows_of, blob_of, blob-get, uuid, delete_completed-IsShelf, rows-IsRow, IsUuid-pair_name,
}

require_api_bearer-own :
    (guard : Guard) (c : Client)
    → c.token ≡ guard.api_bearer_token
    → require_api_bearer guard (bearer c) ≡ ok tt
unfolding require_api_bearer token_matches lower list_beq
require_api_bearer-own guard c e = rw e (rw (eq_refl (guard.sha256 guard.api_bearer_token)) refl)

module _ {F : Type 0} where
  -- The client holds the slot, and the completed files are the server's own.
  abbrev pub IsReady : Client → ℕ × Server F → Type 0
  IsReady c (n, s) =
      (owner s.pairing ≡ some (strip (or_blank (some c.client_id)))) × IsShelf s.files

  abbrev pub file_api : Client → Api (ℕ × Server F)
  file_api c = record {
    blobs = λ (n, s) id. blob_of s.files id;
    rows = λ (n, s). rows_of s.files;
    good = IsReady c;
  }

  status_reply-files :
      (s : Server F) (r : Service F × Result (PairingError F) (PullClientInfo F))
      → ((status_reply s r).0.files ≡ s.files) × ((status_reply s r).0.pairing ≡ r.0)
  status_reply-files s (service, err e) = (refl, refl)
  status_reply-files s (service, ok info) = (refl, refl)

  delete_from-ok :
      (name : Text) (s : Server F)
      → name ≢ pair_name
      → (delete_completed name s.files).1 ≡ true
      → (delete_from name s).1 ≡ ok ok_answer
  unfolding delete_from delete_file_of
  delete_from-ok name s ne h =
      rw (let off : (name == pair_name) ≡ false = ground (arith, eq_iff name pair_name) in off)
        (ground arith)

  -- A status changes no file and no owner, whatever comes of it.
  post_status_keeps :
      (x : Context F) (id : Text) (status : StatusUpdate F) (s : Server F)
      → let s' = (route x (post_status id status) s).0 in
        (s'.files ≡ s.files) × (owner s'.pairing ≡ owner s.pairing)
  unfolding route api_pull_status with_bearer owner
  post_status_keeps x id status s = elim (Result-cases (require_api_bearer x.guard x.credentials)) [
    | inl (e, raised) ↦ rw (raised, with_bearer) (refl, refl)
    | inr (u, passed) ↦
        let (files, slot) = status_reply-files s (update_status x.now x.mono id status s.pairing) in
        rw (passed, with_bearer)
          (files, ap owner slot ∙ owner-update_status x.now x.mono id status s.pairing)
  ]

module _ {F : Type 0} (http : Framework F) (guard : Guard) (clock : ℕ → ℕ) (rate : ℕ → ℕ → F)
    (decode : Bytes → Option Text) (files_pulled : Bytes → Result Text (Option ℕ))
    (c : Client) where
  abbrev seen : Outside F (ℕ × Server F)
  seen = outside http guard clock rate decode files_pulled

  module _ (laws : IsHttp http seen c) (token : c.token ≡ guard.api_bearer_token) where
    abbrev context : ℕ → Context F
    context n = context_at http guard n (bearer c)

    let_through :
        (n : ℕ) (s : Server F) → IsReady c (n, s) → IsLetIn (context n) (some c.client_id) s
    let_through n s ready = (require_api_bearer-own guard c token, ready.0)

    serve-call :
        (request : Request F) (call : ApiCall F) (n : ℕ) (s : Server F)
        → http.call_of request ≡ some (bearer c, call)
        → serve http guard request (n, s) ≡ (
          (suc n, (route (context n) call s).0),
          reply_of http guard (route (context n) call s).1,
        )
    unfolding serve
    serve-call request call n s e = rw (e, serve) refl

    touched-IsReady :
        (n : ℕ) (s : Server F)
        → IsReady c (n, s)
        → IsReady c (suc n, touched (context n) (some c.client_id) s)
    touched-IsReady n s (slot, shelf) =
        (owner-touch (http.utcnow n) (http.server_clock n) c.client_id s.pairing ∙ slot, shelf)

    -- A route for the paired client does what its body does.
    served :
        (request : Request F) (call : ApiCall F) (handler : Handler F) (n : ℕ) (s : Server F)
        → IsReady c (n, s)
        → http.call_of request ≡ some (bearer c, call)
        → route (context n) call s
          ≡ with_bearer (context n) (with_client (context n) (some c.client_id) handler) s
        → let run = handler (touched (context n) (some c.client_id) s) in
          serve http guard request (n, s) ≡ ((suc n, run.0), reply_of http guard run.1)
    served request call handler n s ready e body =
        serve-call request call n s e
        ∙ ap (λ run. ((suc n, run.0), reply_of http guard run.1))
            (body ∙ let_in (context n) (some c.client_id) handler s (let_through n s ready))

    -- Where the framework does with the requests of a client what it is documented to do, and the client
    -- has the API token: the routes keep the contract that the pull client relies on, in every state in
    -- which the client holds the slot and the manifest is one that the server has written for files named
    -- by UUIDs.
    pub file_api-IsHonest : IsHonest seen c (file_api c)
    unfolding route api_list_manifest api_download_file api_delete_file
    file_api-IsHonest = record {
      on_status = λ status (n, s) ready.
          let (files, slot) = post_status_keeps (context n) c.client_id status s in
          rw
            (serve-call (status_request seen c status) (post_status c.client_id status) n s
              (laws.on_status status))
            (
              (slot ∙ ready.0, subst IsShelf (sym files) ready.1),
              (λ id. ap (λ d. blob_of d id) files),
              ap rows_of files,
            );
      on_list = λ (n, s) ready.
          let text = read_text (or_empty (Dict.get s.files manifest_name)) in
          let (full, whole) = laws.in_pieces (http.encode text) in
          rw
            (served (list_request seen c) (get_list (some c.client_id))
              (λ s. (
                mark_dirty s,
                ok (manifest_answer (read_text (or_empty (Dict.get s.files manifest_name)))),
              ))
              n s ready laws.on_list refl)
            (
              touched-IsReady n s ready,
              (λ id. refl),
              (
                http.encode text,
                text,
                (_, _, refl, full, whole),
                laws.utf8 text,
                ap (λ t. parse_manifest_text (read_text (or_empty t))) ready.1.written
                    ∙ ap parse_manifest_text
                        (read_text-print (rows_of s.files) (rows-IsRow s.files ready.1))
                    ∙ parse_manifest_text-print (rows_of s.files) ready.1.plain,
              ),
            );
      on_get = λ file_id (n, s) blob ready e.
          let (full, whole) = laws.in_pieces blob in
          let apart = IsUuid-pair_name file_id (uuid file_id s.files ready.1 blob e) in
          rw
            (served (get_request seen c file_id) (get_file file_id (some c.client_id))
              (λ s. (s, sent (file_at (context n) file_id s))) n s ready
              (laws.on_get file_id (uuid file_id s.files ready.1 blob e)) refl)
            (
              touched-IsReady n s ready,
              (λ id. refl),
              rw
                  (file_at-other (context n) file_id (touched (context n) (some c.client_id) s)
                    apart)
                  (rw (blob-get file_id s.files ready.1 blob e) (_, _, refl, full, whole)),
            );
      on_delete = λ file_id (n, s) blob ready e.
          let t = touched (context n) (some c.client_id) s in
          let (shelf, existed, others) = delete_completed-IsShelf file_id s.files ready.1 blob e in
          let apart = IsUuid-pair_name file_id (uuid file_id s.files ready.1 blob e) in
          let (files, slot) = delete_from-files file_id t apart in
          rw
            (served (delete_request seen c file_id) (delete_file file_id (some c.client_id))
              (delete_from file_id) n s ready
              (laws.on_delete file_id (uuid file_id s.files ready.1 blob e)) refl)
            (
              (ap owner slot ∙ (touched-IsReady n s ready).0, subst IsShelf (sym files) shelf),
              (λ id. ap (λ d. blob_of d id) files ∙ others id),
              rw (delete_from-ok file_id t apart existed) (_, _, refl),
            );
    }
