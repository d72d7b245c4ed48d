-- ===== src/Pull/Honest.antt =====
-- The contract of the file API of backend/app/main.py, as far as scripts/pull.py relies on it.
use aestor.Base.{
  ℕ, ◌≡◌, true, false, Option, none, some, List, All, is_empty, if◌then◌else◌, ◌==◌, list_eq,
  nat_eq,
}
use aestor.Base.Result.{ok}
use aestor.Base.Text.{Text, codes}
use aestor.Completed.Parse.{parse_manifest_text}
use aestor.Completed.Rows.{Row}
use aestor.Encryption.Chunks.{concat}
use aestor.Encryption.Crypto.{Bytes}
use aestor.Pairing.State.{StatusUpdate}
use aestor.Pull.Client.{no_body, Request, Reply, response, Outside, Client, request_of, file_url}
use aestor.Pull.Quiet.{status_request}

-- The server keeps blobs under ids and a manifest of rows, in the states that are `good`.
pub record Api (S : Type 0) : Type 1 where
  pub blobs : S → Text → Option Bytes
  pub rows : S → List Row
  pub good : S → Type 0

module _ {F S : Type 0} (o : Outside F S) (c : Client) where
  abbrev pub list_request : Request F
  list_request = request_of o c (codes "GET") (codes "/api/v1/list") no_body true

  abbrev pub get_request : Text → Request F
  get_request file_id = request_of o c (codes "GET") (file_url file_id) no_body true

  abbrev pub delete_request : Text → Request F
  delete_request file_id = request_of o c (codes "DELETE") (file_url file_id) no_body true

  -- A reply that is read to its end.
  abbrev pub Gives : Reply → Bytes → Type 0
  Gives reply content =
      (size : Option ℕ) × (pieces : List Bytes) × (reply ≡ response size pieces none)
      × All (λ piece. is_empty piece ≡ false) pieces
      × (concat pieces ≡ content)

  -- A status, a list and a download change neither of them, a deletion removes the blob of the id.
  pub record IsHonest (api : Api S) : Type 0 where
    pub on_status :
        (status : StatusUpdate F) (server : S)
        → api.good server
        → let after = (o.send (status_request o c status) server).0 in
          api.good after
          × ((id : Text) → api.blobs after id ≡ api.blobs server id)
          × (api.rows after ≡ api.rows server)
    pub on_list :
        (server : S)
        → api.good server
        → let answer = o.send list_request server in
          api.good answer.0
          × ((id : Text) → api.blobs answer.0 id ≡ api.blobs server id)
          × ((raw : Bytes) × (text : Text) × Gives answer.1 raw
              × (o.decode raw ≡ some text)
              × (parse_manifest_text text ≡ ok (api.rows server)))
    pub on_get :
        (file_id : Text) (server : S) (blob : Bytes)
        → api.good server
        → api.blobs server file_id ≡ some blob
        → let answer = o.send (get_request file_id) server in
          api.good answer.0
          × ((id : Text) → api.blobs answer.0 id ≡ api.blobs server id)
          × Gives answer.1 blob
    pub on_delete :
        (file_id : Text) (server : S) (blob : Bytes)
        → api.good server
        → api.blobs server file_id ≡ some blob
        → let answer = o.send (delete_request file_id) server in
          api.good answer.0
          × ((id : Text)
              → api.blobs answer.0 id ≡ (if file_id == id then none else api.blobs server id))
          × ((size : Option ℕ) × (pieces : List Bytes) × (answer.1 ≡ response size pieces none))
