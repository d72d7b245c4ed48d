-- ===== src/Pull/ServerTests.antt =====
-- The theorems on the pull client at concrete data: a server in the memory, that holds one file.
use mathlib.Core.Path.{subst}
use aestor.Base.{
  sym, ◌∙◌, ℕ, ◌+◌, ◌≡◌, refl, true, false, Option, none, some, List, [], ◌∷◌, ◌++◌, All, length,
  take, drop, is_empty, append-nil, if◌then◌else◌, ◌==◌, list_eq, list_beq, nat_eq, arith,
}
use aestor.Base.Dict
use aestor.Base.Dict.{Dict, get-pop}
use aestor.Base.Result.{ok}
use aestor.Base.Text.{Text, codes, strip, lstrip, is_space, starts_with}
use aestor.Completed.Parse.{parse_manifest_text, parse_lines, splitlines_after, is_break, split_tab}
use aestor.Completed.Rows.{Row}
use aestor.Encryption.Chunks.{concat}
use aestor.Encryption.Crypto.{Bytes}
use aestor.Encryption.Encrypt.{encrypt_file}
use aestor.Encryption.ManifestLine.{decrypt_manifest_line, decrypt_line_bytes, open_line}
use aestor.Encryption.Frame.{line_magic, unpack_u32}
use aestor.Encryption.Files.{decrypt-encrypt}
use aestor.Encryption.Tests.{
  toy, toy-IsLawful, drawn, drawn-HasSizes, key-fits, filled, toy_tag, toy_unseal,
}
use aestor.Jobs.Record.{FilePath}
use aestor.Manager.Tests.{floats}
use aestor.Pull.Client.{Request, Reply, response, Outside, Puller, Client, request_of}
use aestor.Pull.Cycle.{Names, cycle, run_client}
use aestor.Pull.Drained.{list_rows_honest, Item, IsReadable, cycle_drains}
use aestor.Pull.Honest.{Api, IsHonest}
use aestor.Pull.Kept.{tmp_dir, tmp_dir-out_dir, process_one-Leaves}
use aestor.Pull.Outcome.{Leaves}
use aestor.Pull.Paths.{IsPart}
use aestor.Pull.Process.{Setup, process_one}
use aestor.Pull.Safety.{NamesParts, run_client_keeps}
use aestor.Pull.Tests.{ascii_word}

-- Blobs under ids; the manifest is fixed.
abbrev Shelf : Type 0
Shelf = Dict Text Bytes

abbrev manifest : Text
manifest = codes "ab12\tline\n"

abbrev pub pieces_of : Bytes → List Bytes
pieces_of [] = []
pieces_of (b ∷ bytes) = (b ∷ bytes) ∷ []

serve_blob : Option Bytes → Reply
serve_blob none = response none [] none
serve_blob (some blob) = response (some (length blob)) (pieces_of blob) none

-- By the method and the path, which starts with "/api/v1/files/" unless it is the list.
serve : Request ℕ → Shelf → Shelf × Reply
serve req shelf =
    let id = drop 14 req.url in
    if req.method == codes "POST"
    then (shelf, response none [] none)
    else if req.method == codes "DELETE"
    then (Dict.pop shelf id, response none [] none)
    else if req.url == codes "/api/v1/list"
    then (shelf, response none (manifest ∷ []) none)
    else (shelf, serve_blob (Dict.get shelf id))

abbrev outside : Outside ℕ Shelf
outside = record {
  send = serve;
  clock = λ n. n;
  rate = λ done elapsed. done;
  decode = some;
  files_pulled = λ raw. ok none;
}

abbrev pub client : Client
client = record { base = []; token = codes "token"; client_id = codes "me" }

abbrev row : Row
row = (codes "ab12", codes "line")

abbrev api : Api Shelf
api = record {
  blobs = λ shelf id. Dict.get shelf id;
  rows = λ shelf. row ∷ [];
  good = λ shelf. Unit;
}

pub pieces_of-Gives :
    (blob : Bytes)
    → All (λ piece. is_empty piece ≡ false) (pieces_of blob) × (concat (pieces_of blob) ≡ blob)
pieces_of-Gives [] = (tt, refl)
pieces_of-Gives (b ∷ bytes) = ((refl, tt), append-nil (b ∷ bytes))

manifest_parses : parse_manifest_text manifest ≡ ok (row ∷ [])
unfolding parse_manifest_text parse_lines splitlines_after is_break split_tab strip lstrip is_space
    starts_with
manifest_parses = refl

shelf-IsHonest : IsHonest outside client api
unfolding serve request_of serve_blob drop list_beq
shelf-IsHonest = record {
  on_status = λ status shelf fine. (tt, λ id. refl, refl);
  on_list = λ shelf fine. (
    tt,
    λ id. refl,
    (manifest, manifest, (none, manifest ∷ [], refl, (refl, tt), refl), refl, manifest_parses),
  );
  on_get = λ id shelf blob fine e.
      let (full, whole) = pieces_of-Gives blob in
      (tt, λ other. refl, (some (length blob), pieces_of blob, rw e refl, full, whole));
  on_delete = λ id shelf blob fine e. (tt, λ other. get-pop shelf id other, (none, [], refl));
}

abbrev pub setup : Setup
setup = record { crypto = toy; is_word = ascii_word; fault_text = λ f. codes "fault" }

-- Every line stands for the one that hides "a b".
abbrev pub names : Names Text
names = record {
  codec = record {
    dumps = λ p. p;
    loads = some;
    b64encode = λ b. b;
    b64decode = λ t. some (
        line_magic
        ++ (0 ∷ 0 ∷ 0 ∷ 44 ∷ [])
        ++ (filled 32 1 ++ filled 12 2)
        ++ (codes "a b" ++ toy_tag));
  };
  name_of = λ p. p;
}

pub line_opens : decrypt_manifest_line names.codec toy (codes "line") ≡ ok (codes "a b")
unfolding decrypt_manifest_line decrypt_line_bytes open_line unpack_u32 take drop list_beq
    toy_unseal filled
line_opens = refl

abbrev pub text : Bytes
text = codes "hello"

-- The file as the server has encrypted it.
abbrev item : Item
item = record { row = row; blob = (encrypt_file toy drawn text).written; content = text }

item-IsReadable : IsReadable setup names item
item-IsReadable =
    let back =
      decrypt-encrypt toy toy-IsLawful drawn drawn-HasSizes (omega (arith, key-fits)) text
        (omega arith) in
    ((codes "a b", line_opens), (5, back.1))

abbrev fresh : Puller Shelf
fresh = record {
  server = (codes "ab12", item.blob) ∷ [];
  files = [];
  dirs = [];
  readings = 0;
  last_status_at = 0;
}

blob_there : api.blobs fresh.server (codes "ab12") ≡ some item.blob
unfolding Dict.get list_beq
blob_there = refl

abbrev pub out : FilePath
out = codes "out" ∷ []

ab12-IsPart : IsPart (codes "ab12")
ab12-IsPart = (ground arith, λ e. cc, λ e. cc, λ e. cc)

cycle_drains_example :
    let after = cycle floats outside client setup names out (tmp_dir out) (fresh, 0) in
    (after.1 ≡ 0 + length (item ∷ []))
    × All
        (λ (item : Item).
          (t : Text) × (Dict.get after.0.files (out ++ t ∷ []) ≡ some item.content)
          × (api.blobs after.0.server item.row.0 ≡ none))
        (item ∷ [])
cycle_drains_example =
    cycle_drains floats outside client api shelf-IsHonest setup names out (item ∷ []) fresh 0 tt
      refl (blob_there, tt) (item-IsReadable, tt) (tt, tt) (ab12-IsPart, tt)

process_one-Leaves_example : Leaves setup (tmp_dir out ++ codes "ab12" ∷ []) fresh (
    process_one floats outside client setup out
      (tmp_dir out)
      (codes "ab12")
      (codes "a b")
      1
      1
      0
      fresh)
process_one-Leaves_example =
    process_one-Leaves floats outside client setup out (codes "ab12") (codes "a b") 1 1 0 fresh
      ab12-IsPart

-- A file that was there before.
abbrev with_note : Puller Shelf
with_note = record fresh { files = (out ++ codes "note" ∷ [], text) ∷ [] }

note_there : Dict.get with_note.files (out ++ codes "note" ∷ []) ≡ some text
unfolding Dict.get list_beq
note_there = refl

listed-IsPart : NamesParts floats outside client setup names out
listed-IsPart s rows e =
    let listed =
      list_rows_honest floats outside client api shelf-IsHonest setup names out (api.blobs s.server)
        s (tt, λ id. refl) in
    let same : row ∷ [] ≡ rows = cc (sym listed.0 ∙ e) in
    subst (All (λ row. IsPart row.0)) same (ab12-IsPart, tt)

run_client_keeps_example :
    Dict.get
      (run_client floats outside client setup names out
        (tmp_dir out)
        true
        (codes "host")
        false
        2
        with_note).0.files
      (out ++ codes "note" ∷ [])
    ≡ some text
run_client_keeps_example =
    run_client_keeps floats outside client setup names out (out ++ codes "note" ∷ []) text
      (λ id part. tmp_dir-out_dir out id (codes "note")) true (codes "host") false 2 with_note
      listed-IsPart note_there
