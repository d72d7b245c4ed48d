-- ===== src/Api/ContractTests.antt =====
-- The contract of the routes at concrete data: a framework that reads the client's requests, and a server
-- that holds one encrypted file.
use mathlib.Core.Path.{subst}
use aestor.Base.{
  ℕ, ◌+◌, ◌≡◌, refl, sym, ap, ◌∙◌, false, Option, none, some, List, [], ◌∷◌, ◌++◌, All, length,
  take, drop, if◌then◌else◌, ◌==◌, list_eq, list_beq, nat_eq, arith,
}
use aestor.Base.Dict
use aestor.Base.Result.{Result, ok}
use aestor.Base.Text.{Text, codes, strip, is_space}
use aestor.Auth.Guards.{Guard, Credentials}
use aestor.Completed.Files.{Directory, manifest_name}
use aestor.Completed.Printing.{IsPlain}
use aestor.Completed.Rows.{Row, print}
use aestor.Encryption.Crypto.{Bytes}
use aestor.Encryption.Encrypt.{encrypt_file}
use aestor.Encryption.Tests.{toy, toy-IsLawful, drawn, drawn-HasSizes, key-fits}
use aestor.Manager.Tests.{floats}
use aestor.Pairing.Service.{owner}
use aestor.Pairing.State.{Data, absent, or_blank}
use aestor.Pull.Client.{
  Body, no_body, pair_body, status_body, Request, Outside, Puller, request_of, headers,
  typed_headers,
}
use aestor.Pull.Cycle.{cycle}
use aestor.Pull.Honest.{IsHonest}
use aestor.Pull.Kept.{tmp_dir}
use aestor.Pull.ServerTests.{
  pieces_of, pieces_of-Gives, client, setup, names, line_opens, text, out,
}
use aestor.Api.Contract.{file_api, file_api-IsHonest}
use aestor.Api.Delivered.{Upload, cycle-uploads}
use aestor.Api.Routes.{Server, ApiCall, post_pair, post_status, get_list, get_file, delete_file}
use aestor.Api.Serving.{Framework, IsHttp, outside}
use aestor.Api.Shelf.{IsShelf, IsUuid, rows_of, rows_of-Holds, blob_of}

abbrev guard : Guard
guard = record {
  api_bearer_token = codes "token";
  web_password = codes "pw";
  loads = λ t. none;
  sha256 = λ t. t;
}

abbrev credentials_in : Option Text → Option Credentials
credentials_in none = none
credentials_in (some header) = some (record { scheme = take 6 header; token = drop 7 header })

abbrev on_path : Text → Text → Option Text → ApiCall ℕ
on_path method url client_id =
    if method == codes "DELETE"
    then delete_file (drop 14 url) client_id
    else if url == codes "/api/v1/list"
    then get_list client_id
    else get_file (drop 14 url) client_id

abbrev call_of_body : Request ℕ → Body ℕ → ApiCall ℕ
call_of_body req no_body =
    on_path req.method req.url (Dict.get req.headers (codes "X-Aestor-Client-Id"))
call_of_body req (pair_body id host override) = post_pair id (some host) override
call_of_body req (status_body id status) = post_status id status

abbrev framework : Framework ℕ
framework = record {
  call_of = λ req.
      some
        (credentials_in (Dict.get req.headers (codes "Authorization")), call_of_body req req.body);
  encode = λ t. t;
  info_json = λ answer. [];
  pieces_of = pieces_of;
  status_of = λ e. (404, []);
  utcnow = λ n. n;
  server_clock = λ n. n;
  pair_text = λ d. [];
}

no_info : Bytes → Result Text (Option ℕ)
no_info raw = ok none

abbrev seen : Outside ℕ (ℕ × Server ℕ)
seen = outside framework guard (λ n. n) (λ done elapsed. done) some no_info

framework-IsHttp : IsHttp framework seen client
unfolding request_of headers typed_headers Dict.get Dict.put list_beq drop take
framework-IsHttp = record {
  on_status = λ status. refl;
  on_list = refl;
  on_get = λ id named. refl;
  on_delete = λ id named. refl;
  in_pieces = pieces_of-Gives;
  utf8 = λ t. refl;
}

abbrev upload : Upload
upload = record { row = (codes "ab12", codes "line"); entropy = drawn; content = text }

abbrev rows : List Row
rows = upload.row ∷ []

abbrev shelf : Directory
shelf = (manifest_name, print rows) ∷ (codes "ab12", (encrypt_file toy drawn text).written) ∷ []

rows_there : Dict.get shelf manifest_name ≡ some (print rows)
unfolding Dict.get list_beq
rows_there = refl

rows-IsPlain : All IsPlain rows
unfolding is_space
rows-IsPlain = ground arith

rows_of-shelf : rows_of shelf ≡ rows
rows_of-shelf = rows_of-Holds rows shelf rows_there rows-IsPlain

shelf-IsShelf : IsShelf shelf
shelf-IsShelf = record {
  written = rows_there ∙ ap (λ r. some (print r)) (sym rows_of-shelf);
  plain = subst (All IsPlain) (sym rows_of-shelf) rows-IsPlain;
  named = subst (All (λ (row : Row). IsUuid row.0)) (sym rows_of-shelf) (ground arith);
}

abbrev me : Data ℕ
me = record {
  client_id = codes "me";
  hostname = none;
  paired_at = none;
  last_seen = none;
  phase = codes "idle";
  file_id = none;
  bytes_done = none;
  bytes_total = none;
  progress = none;
  rate_bps = none;
  message = none;
  queue_remaining = none;
  files_pulled = some 0;
}

abbrev server : Server ℕ
server = record {
  pairing = record { pair_data = some me; disk = absent; dirty_disk = false; last_persist = 0 };
  files = shelf;
  dirty = false;
}

mine : owner server.pairing ≡ some (strip (or_blank (some client.client_id)))
unfolding owner strip
mine = refl

blob_there :
    blob_of shelf upload.row.0
    ≡ some (encrypt_file setup.crypto upload.entropy upload.content).written
unfolding blob_of Dict.get list_beq
blob_there = rw rows_of-shelf refl

file_api-IsHonest_example : IsHonest seen client (file_api client)
file_api-IsHonest_example =
    file_api-IsHonest framework guard (λ n. n) (λ done elapsed. done) some no_info client
      framework-IsHttp refl

abbrev puller : Puller (ℕ × Server ℕ)
puller = record { server = (0, server); files = []; dirs = []; readings = 0; last_status_at = 0 }

cycle-uploads_example :
    let after = cycle floats seen client setup names out (tmp_dir out) (puller, 0) in
    (after.1 ≡ 0 + length (upload ∷ []))
    × All
        (λ u.
          (t : Text) × (Dict.get after.0.files (out ++ t ∷ []) ≡ some u.content)
          × (blob_of after.0.server.1.files u.row.0 ≡ none))
        (upload ∷ [])
cycle-uploads_example =
    cycle-uploads floats framework guard (λ n. n) (λ done elapsed. done) some no_info client
      framework-IsHttp refl setup names toy-IsLawful out (upload ∷ []) puller 0
      (mine, shelf-IsShelf) rows_of-shelf (blob_there, tt)
      (
        record {
          sizes = drawn-HasSizes;
          key_fits = omega (arith, key-fits);
          content_fits = omega arith;
          payload = codes "a b";
          line = line_opens;
        },
        tt,
      )
      (tt, tt)
