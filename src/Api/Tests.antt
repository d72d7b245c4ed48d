-- ===== src/Api/Tests.antt =====
-- The theorems on the routes at concrete data. The digest is the text itself here.
use aestor.Base.{
  ◌≡◌, ◌≢◌, refl, false, none, some, List, [], ◌∷◌, All, arith, list_eq, nat_eq, list_beq,
}
use aestor.Base.Dict
use aestor.Base.Result.{ok, err}
use aestor.Base.Text.{Text, codes, strip, lower}
use aestor.Auth.Guards.{Guard, token_matches, require_api_bearer}
use aestor.Completed.Files.{manifest_name, manifest_tmp, meta_name}
use aestor.Completed.Rows.{Row, print, without}
use aestor.Pairing.Service.{owner}
use aestor.Pairing.State.{Data, absent, or_blank}
use aestor.Api.Deleting.{delete_file-seen}
use aestor.Api.Exclusive.{gives_content, route_all-others}
use aestor.Api.Routes.{
  Server, pair_name, pair_tmp, file_not_found, manifest_answer, Context, ApiCall, post_pair,
  get_list, get_file, delete_file, route, route_all,
}

abbrev guard : Guard
guard = record {
  api_bearer_token = codes "t0k";
  web_password = codes "pw";
  loads = λ t. none;
  sha256 = λ t. t;
}

abbrev context : Context (List Text)
context = record {
  now = 1000;
  mono = 9_000_000;
  guard = guard;
  credentials = some (record { scheme = codes "Bearer"; token = codes "t0k" });
  pair_text = λ d. [];
}

abbrev me : Data (List Text)
me = record {
  client_id = codes "me";
  hostname = none;
  paired_at = none;
  last_seen = none;
  phase = codes "idle";
  file_id = none;
  bytes_done = none;
  bytes_total = none;
  progress = none;
  rate_bps = none;
  message = none;
  queue_remaining = none;
  files_pulled = some 0;
}

abbrev rows : List Row
rows = (codes "a", codes "x") ∷ (codes "b", codes "y") ∷ []

abbrev server : Server (List Text)
server = record {
  pairing = record { pair_data = some me; disk = absent; dirty_disk = false; last_persist = 0 };
  files = (manifest_name, print rows) ∷ (codes "a", 1 ∷ []) ∷ (codes "b", 2 ∷ []) ∷ [];
  dirty = false;
}

mine : owner server.pairing ≡ some (strip (or_blank (some (codes "me"))))
unfolding owner strip
mine = refl

let_through : require_api_bearer context.guard context.credentials ≡ ok tt
unfolding require_api_bearer token_matches lower list_beq
let_through = refl

rows_there : Dict.get server.files manifest_name ≡ some (print rows)
unfolding Dict.get list_beq
rows_there = refl

abbrev intruders : List (Context (List Text) × ApiCall (List Text))
intruders =
    (context, post_pair (codes "you") none false)
    ∷ (context, delete_file (codes "a") (some (codes "you")))
    ∷ (context, get_list none)
    ∷ []

strip-you : strip (codes "you") ≡ codes "you"
unfolding strip
strip-you = refl

route_all-others_example :
    let after = route_all intruders server in
    (owner after.0.pairing ≡ some (codes "me"))
    × (after.0.files ≡ server.files)
    × All (λ answer. gives_content answer ≡ false) after.1
unfolding strip owner
route_all-others_example =
    route_all-others (codes "me") intruders server refl
      (refl, ((ground arith), ((ground arith), tt)))

delete_file-seen_example :
    let after = (route context (delete_file (codes "a") (some (codes "me"))) server).0 in
    ((route context (get_file (codes "a") (some (codes "me"))) after).1 ≡ err file_not_found)
    × ((route context (get_list (some (codes "me"))) after).1
        ≡ ok (manifest_answer (print (without (codes "a") rows))))
    × ((name : Text)
        → name ≢ codes "a"
        → name ≢ meta_name (codes "a")
        → name ≢ manifest_name
        → name ≢ manifest_tmp
        → name ≢ pair_name
        → name ≢ pair_tmp
        → (route context (get_file name (some (codes "me"))) after).1
          ≡ (route context (get_file name (some (codes "me"))) server).1)
delete_file-seen_example =
    delete_file-seen context context (some (codes "me")) (codes "a") rows server (let_through, mine)
      let_through (ground arith) (ground arith) (ground arith) (ground arith) rows_there
