-- ===== src/Pull/Client.antt =====
-- `Client` of scripts/pull.py: its requests, and what it makes of the answers. The server behind HTTP,
-- the clock, JSON and UTF-8 are the record Outside.
use mathlib.Core.List.{reverse}
use aestor.Base.{
  ℕ, ◌+◌, ◌-◌, Bool, true, false, not, ◌&&◌, Option, none, some, List, [], ◌∷◌, ◌++◌, length,
  is_empty, nat_beq, ltb, if◌then◌else◌, list_eq, nat_eq,
}
use aestor.Base.Dict
use aestor.Base.Dict.{Dict}
use aestor.Base.Result
use aestor.Base.Result.{Result, ok, err}
use aestor.Base.Text.{Text, codes, starts_with}
use aestor.Encryption.Chunks.{concat}
use aestor.Encryption.Crypto.{Bytes}
use aestor.Jobs.Record.{FilePath}
use aestor.Pairing.State.{StatusUpdate}
use aestor.Pull.Names.{decimal, lstrip_by}
use aestor.Pull.Progress.{Progress, start, update, finish}

-- A `RuntimeError` of the client, or an exception from below it.
pub data Failure : Type 0 where
  runtime_error other_error : Text → Failure

pub data Body (F : Type 0) : Type 0 where
  no_body : Body F
  pair_body : Text → Text → Bool → Body F
  status_body : Text → StatusUpdate F → Body F

pub record Request (F : Type 0) : Type 0 where
  pub method : Text
  pub url : Text
  pub headers : Dict Text Text
  pub body : Body F

-- `urlopen`: an HTTP error with its code and body, another exception, or a response: its length where the
-- header is all digits, the pieces that are read, and what then raises, if anything.
pub data Reply : Type 0 where
  http_error : ℕ → Text → Reply
  failed : Text → Reply
  response : Option ℕ → List Bytes → Option Text → Reply

pub record Outside (F S : Type 0) : Type 0 where
  pub send : Request F → S → S × Reply
  -- the n-th reading of `time.monotonic()`, in microseconds
  pub clock : ℕ → ℕ
  -- bytes over microseconds, of which there are at least 0.001
  pub rate : ℕ → ℕ → F
  pub decode : Bytes → Option Text
  -- `json.loads(…).get("files_pulled")`
  pub files_pulled : Bytes → Result Text (Option ℕ)

-- The server, the files and directories at hand, and the client's own counters.
pub record Puller (S : Type 0) : Type 0 where
  pub server : S
  pub files : Dict FilePath Bytes
  pub dirs : List FilePath
  pub readings : ℕ
  pub last_status_at : ℕ

pub record Client : Type 0 where
  pub base : Text
  pub token : Text
  pub client_id : Text

-- `base_url.rstrip("/")`
unfoldable pub new_client : Text → Text → Text → Client
new_client base_url token client_id = record {
  base = reverse (lstrip_by (λ c. nat_beq c 47) (reverse base_url));
  token = token;
  client_id = client_id;
}

abbrev pub or_raise {ℓ} : {A : Type ℓ} → Text → Option A → Result Failure A
or_raise e none = err (other_error e)
or_raise e (some a) = ok a

abbrev pub error_text : Failure → Text
error_text (runtime_error e) = e
error_text (other_error e) = e

-- `part in text`
unfoldable pub contains : Text → Text → Bool
contains part [] = is_empty part
contains part (c ∷ s) =
    let rest = contains part s in if starts_with (c ∷ s) part then true else rest

unfoldable pub http_message : Text → Text → ℕ → Text → Text
http_message method path code body =
    method ++ codes " " ++ path ++ codes " → HTTP " ++ decimal code ++ codes ": " ++ body

abbrev pub file_url : Text → Text
file_url file_id = codes "/api/v1/files/" ++ file_id

unfoldable pub headers : Client → Bool → Dict Text Text
headers c with_client =
    let token = (codes "Authorization", codes "Bearer " ++ c.token) ∷ [] in
    if with_client then Dict.put token (codes "X-Aestor-Client-Id") c.client_id else token

-- With a body, the headers say that it is JSON.
unfoldable pub typed_headers : {F : Type 0} → Client → Body F → Bool → Dict Text Text
typed_headers c no_body with_client = headers c with_client
typed_headers c body with_client =
    Dict.put (headers c with_client) (codes "Content-Type") (codes "application/json")

unfoldable pub read_reply : Text → Text → Reply → Result Failure Bytes
read_reply method path (http_error code text) =
    err (runtime_error (http_message method path code text))
read_reply method path (failed e) = err (other_error e)
read_reply method path (response size pieces (some e)) = err (other_error e)
read_reply method path (response size pieces none) = ok (concat pieces)

-- An action on the puller, which returns or raises.
abbrev pub Act : Type 0 → Type 0 → Type 0
Act S A = Puller S → Puller S × Result Failure A

module _ {S A B : Type 0} where
  abbrev pub proceed : Puller S × Result Failure A → (A → Act S B) → Puller S × Result Failure B
  proceed (s, err e) next = (s, err e)
  proceed (s, ok a) next = next a s

  infixl 5 ◌>>=◌ ◌>>◌
  abbrev pub ◌>>=◌ : Act S A → (A → Act S B) → Act S B
  (act >>= next) s = proceed (act s) next

  abbrev pub ◌>>◌ : Act S A → Act S B → Act S B
  (act >> next) s = proceed (act s) (λ a. next)

module _ {S : Type 0} where
  abbrev pub write_file : FilePath → Bytes → Puller S → Puller S
  write_file path content s = record s { files = Dict.put s.files path content }

  unfoldable pub append_file : FilePath → Bytes → Puller S → Puller S
  append_file path chunk s = elim (Dict.get s.files path) [
    | none ↦ write_file path chunk s
    | some old ↦ write_file path (old ++ chunk) s
  ]

  -- `path.unlink(missing_ok=True)`
  abbrev pub unlink : FilePath → Puller S → Puller S
  unlink path s = record s { files = Dict.pop s.files path }

module _ {F S : Type 0} (o : Outside F S) where
  unfoldable pub monotonic : Puller S → Puller S × ℕ
  monotonic s = (record s { readings = s.readings + 1 }, o.clock s.readings)

  abbrev pub ask : Request F → Puller S → Puller S × Reply
  ask req s = let (server, reply) = o.send req s.server in (record s { server = server }, reply)

  module _ (c : Client) where
    unfoldable pub request_of : Text → Text → Body F → Bool → Request F
    request_of method path body with_client = record {
      method = method;
      url = c.base ++ path;
      headers = typed_headers c body with_client;
      body = body;
    }

    -- `_request`: the whole body, with the client's id in the headers or not.
    unfoldable pub request : Text → Text → Body F → Bool → Act S Bytes
    request method path body with_client s =
        let (s', reply) = ask (request_of method path body with_client) s in
        (s', read_reply method path reply)

    unfoldable pub pair_failure : Failure → Failure
    pair_failure (other_error e) = other_error e
    pair_failure (runtime_error e) =
        if contains (codes "HTTP 409") e
        then runtime_error (
            codes "another pull client is already paired; re-run with --override "
            ++ codes "to take over. Server said: "
            ++ e)
        else runtime_error e

    unfoldable pub read_info : Bytes → Result Failure (Option ℕ)
    read_info raw = elim (o.files_pulled (if is_empty raw then codes "{}" else raw)) [
      | err e ↦ err (other_error e)
      | ok info ↦ ok info
    ]

    -- What `pair` returns, as far as it is used: the number of files pulled so far.
    unfoldable pub pair : Text → Bool → Act S (Option ℕ)
    pair hostname override s =
        let body = pair_body c.client_id hostname override in
        let (s', answer) = request (codes "POST") (codes "/api/v1/pair") body false s in
        (s', elim answer [ err e ↦ err (pair_failure e) | ok raw ↦ read_info raw ])

    -- At most one report in 0.35 s but for a forced one; a report that fails is dropped.
    unfoldable pub report_status : Bool → StatusUpdate F → Puller S → Puller S
    report_status force status s =
        let (s₁, now) = monotonic s in
        if not force && ltb (now - s₁.last_status_at) 350_000
        then s₁
        else let (s₂, answer) =
            request (codes "POST") (codes "/api/v1/status") (status_body c.client_id status) false
              s₁ in
          elim answer [ err e ↦ s₂ | ok raw ↦ record s₂ { last_status_at = now } ]

    unfoldable pub list_manifest : Act S Text
    list_manifest s =
        let (s', answer) = request (codes "GET") (codes "/api/v1/list") no_body true s in
        (s', Result.◌>>=◌ answer (λ raw. or_raise (codes "invalid utf-8") (o.decode raw)))

    -- The loop over the pieces; an empty one is the end.
    unfoldable pub read_pieces :
        (Progress → Puller S → Puller S)
        → FilePath
        → Option ℕ
        → Option Text
        → List Bytes
        → ℕ
        → Progress
        → Act S ℕ
    read_pieces on_tick dest total stopped [] done prog s = elim stopped [
      | some e ↦ (s, err (other_error e))
      | none ↦ ((finish monotonic on_tick prog s).0, ok done)
    ]
    read_pieces on_tick dest total stopped ([] ∷ rest) done prog s =
        ((finish monotonic on_tick prog s).0, ok done)
    read_pieces on_tick dest total stopped ((b ∷ chunk) ∷ rest) done prog s =
        let done' = done + length (b ∷ chunk) in
        let (s', prog') =
          update monotonic on_tick done' total prog (append_file dest (b ∷ chunk) s) in
        read_pieces on_tick dest total stopped rest done' prog' s'

    -- What is made of the response: a file is opened for it, and its pieces are written there.
    unfoldable pub receive : Text → FilePath → (Progress → Puller S → Puller S) → Reply → Act S ℕ
    receive file_id dest on_tick (http_error code text) s =
        (s, err (runtime_error (http_message (codes "GET") (file_url file_id) code text)))
    receive file_id dest on_tick (failed e) s = (s, err (other_error e))
    receive file_id dest on_tick (response total pieces stopped) s =
        let (s', prog) = start monotonic on_tick total (write_file dest [] s) in
        read_pieces on_tick dest total stopped pieces 0 prog s'

    unfoldable pub download : Text → FilePath → (Progress → Puller S → Puller S) → Act S ℕ
    download file_id dest on_tick s =
        let (s', reply) = ask (request_of (codes "GET") (file_url file_id) no_body true) s in
        receive file_id dest on_tick reply s'

    unfoldable pub delete : Text → Act S (Unit {0})
    delete file_id s =
        let (s', answer) = request (codes "DELETE") (file_url file_id) no_body true s in
        (s', Result.◌>>=◌ answer (λ raw. ok tt))
