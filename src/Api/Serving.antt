-- ===== src/Api/Serving.antt =====
-- The routes of backend/app/main.py behind HTTP, as the server that scripts/pull.py talks to. What the
-- framework and the wire do is a parameter: which route a request is for, and how an answer is sent.
use aestor.Base.{
  ℕ, suc, ◌≡◌, false, Option, none, some, List, All, is_empty, length, list_eq, nat_eq,
}
use aestor.Base.Result.{Result, ok, err}
use aestor.Base.Text.{Text, codes}
use aestor.Auth.Guards.{Guard, Credentials}
use aestor.Encryption.Chunks.{concat}
use aestor.Encryption.Crypto.{Bytes}
use aestor.Pairing.State.{Disk, StatusUpdate}
use aestor.Pull.Client.{Request, Reply, http_error, response, Outside, Client}
use aestor.Pull.Honest.{list_request, get_request, delete_request}
use aestor.Pull.Quiet.{status_request}
use aestor.Api.Routes.{
  Server, Context, ApiError, Answer, manifest_answer, blob_answer, ApiCall, post_status, get_list,
  get_file, delete_file, route,
}
use aestor.Api.Shelf.{IsUuid}

-- Routing, the reading of headers and bodies, the writing of answers, and the server's clocks at the
-- n-th request.
pub record Framework (F : Type 0) : Type 0 where
  pub call_of : Request F → Option (Option Credentials × ApiCall F)
  pub encode : Text → Bytes
  pub info_json : Answer F → Bytes
  pub pieces_of : Bytes → List Bytes
  pub status_of : ApiError F → ℕ × Text
  pub utcnow : ℕ → ℕ
  pub server_clock : ℕ → ℕ
  pub pair_text : Disk F → Bytes

module _ {F : Type 0} (http : Framework F) (guard : Guard) where
  abbrev pub body_of : Answer F → Bytes
  body_of (manifest_answer text) = http.encode text
  body_of (blob_answer blob) = blob
  body_of answer = http.info_json answer

  abbrev pub reply_of : Result (ApiError F) (Answer F) → Reply
  reply_of (err e) = let (code, text) = http.status_of e in http_error code text
  reply_of (ok answer) =
      let body = body_of answer in response (some (length body)) (http.pieces_of body) none

  abbrev pub context_at : ℕ → Option Credentials → Context F
  context_at n credentials = record {
    now = http.utcnow n;
    mono = http.server_clock n;
    guard = guard;
    credentials = credentials;
    pair_text = http.pair_text;
  }

  -- A request at the server, after n others.
  unfoldable pub serve : Request F → ℕ × Server F → (ℕ × Server F) × Reply
  serve request (n, s) = elim (http.call_of request) [
    | none ↦ ((suc n, s), http_error 404 (codes "Not Found"))
    | some (credentials, call) ↦
        let (s', answer) = route (context_at n credentials) call s in ((suc n, s'), reply_of answer)
  ]

  -- The client's view, with its own clock and what it reads.
  abbrev pub outside :
      (ℕ → ℕ)
      → (ℕ → ℕ → F)
      → (Bytes → Option Text)
      → (Bytes → Result Text (Option ℕ))
      → Outside F (ℕ × Server F)
  outside clock rate decode files_pulled = record {
    send = serve;
    clock = clock;
    rate = rate;
    decode = decode;
    files_pulled = files_pulled;
  }

abbrev pub bearer : Client → Option Credentials
bearer c = some (record { scheme = codes "Bearer"; token = c.token })

-- What the framework is documented to do with the requests of this client: it finds the route by the
-- method and the path, and hands it the token and the client's id from the headers. A body arrives in
-- pieces that are not empty, and UTF-8 is read as it was written.
pub record IsHttp {F S : Type 0} (http : Framework F) (o : Outside F S) (c : Client) : Type 0 where
  pub on_status :
      (status : StatusUpdate F)
      → http.call_of (status_request o c status) ≡ some (bearer c, post_status c.client_id status)
  pub on_list : http.call_of (list_request o c) ≡ some (bearer c, get_list (some c.client_id))
  pub on_get :
      (file_id : Text)
      → IsUuid file_id
      → http.call_of (get_request o c file_id)
        ≡ some (bearer c, get_file file_id (some c.client_id))
  pub on_delete :
      (file_id : Text)
      → IsUuid file_id
      → http.call_of (delete_request o c file_id)
        ≡ some (bearer c, delete_file file_id (some c.client_id))
  pub in_pieces :
      (body : Bytes)
      → All (λ piece. is_empty piece ≡ false) (http.pieces_of body)
        × (concat (http.pieces_of body) ≡ body)
  pub utf8 : (text : Text) → o.decode (http.encode text) ≡ some text
