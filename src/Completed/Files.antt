-- ===== src/Completed/Files.antt =====
-- The directory of completed files: blobs under their ids, <id>.json beside them, and manifest.db with a
-- line for each. A text file is its code points. `secure_delete` overwrites before it unlinks; what is
-- left of it in the directory is that the file is gone.
use aestor.Base.{
  ℕ, Bool, true, false, not, ◌&&◌, ◌||◌, none, some, List, [], ◌∷◌, ◌++◌, nat_beq, filter_by,
  if◌then◌else◌, list_eq, nat_eq,
}
use aestor.Base.Dict
use aestor.Base.Dict.{Dict}
use aestor.Base.Result.{Result, ok, err}
use aestor.Base.Text.{Text, codes, starts_with}
use aestor.Encryption.Crypto.{Bytes, Crypto, Entropy}
use aestor.Encryption.Encrypt.{encrypt_file}
use aestor.Encryption.Frame.{Fault}

-- The files of `completed_dir` by name.
abbrev pub Directory : Type 0
Directory = Dict Text (List ℕ)

abbrev pub manifest_name : Text
manifest_name = codes "manifest.db"

abbrev pub manifest_tmp : Text
manifest_tmp = codes "manifest.db.tmp"

abbrev pub meta_name : Text → Text
meta_name file_id = file_id ++ codes ".json"

abbrev pub tmp_name : Text → Text
tmp_name file_id = file_id ++ codes ".tmp"

unfoldable pub has_file : Directory → Text → Bool
has_file d file_id = elim (Dict.get d file_id) [ none ↦ false | some content ↦ true ]

-- What the text mode of `open` reads: "\r\n" and "\r" as "\n". `returned` says that a "\r" is just
-- behind.
unfoldable pub read_newlines : Bool → Text → Text
read_newlines returned [] = []
read_newlines returned (c ∷ s) =
    let behind = read_newlines true s in
    let rest = read_newlines false s in
    if nat_beq c 13 then 10 ∷ behind else if returned && nat_beq c 10 then rest else c ∷ rest

unfoldable pub read_text : Text → Text
read_text s = read_newlines false s

-- The lines of a text with their ends, as a file is iterated.
abbrev cons_first : ℕ → List Text → List Text
cons_first c [] = (c ∷ []) ∷ []
cons_first c (l ∷ ls) = (c ∷ l) ∷ ls

unfoldable pub lines : Text → List Text
lines [] = []
lines (c ∷ s) = let rest = lines s in if nat_beq c 10 then (10 ∷ []) ∷ rest else cons_first c rest

unfoldable pub concat_lines : List Text → Text
concat_lines [] = []
concat_lines (l ∷ ls) = l ++ concat_lines ls

unfoldable pub any_starts : Text → List Text → Bool
any_starts prefix [] = false
any_starts prefix (l ∷ ls) =
    let rest = any_starts prefix ls in if starts_with l prefix then true else rest

-- `f"{file_id}\t"` and `f"{file_id}\t{b64}\n"`
abbrev pub row_prefix : Text → Text
row_prefix file_id = file_id ++ 9 ∷ []

abbrev pub row_line : Text → Text → Text
row_line file_id b64 = file_id ++ 9 ∷ (b64 ++ 10 ∷ [])

unfoldable pub manifest_has : Directory → Text → Bool
manifest_has d file_id = elim (Dict.get d manifest_name) [
  | none ↦ false
  | some text ↦ any_starts (row_prefix file_id) (lines (read_text text))
]

unfoldable pub without_rows : Text → Text → Text
without_rows file_id text =
    concat_lines
      (filter_by (λ line. not (starts_with line (row_prefix file_id))) (lines (read_text text)))

-- The lines that are kept are written to `manifest.db.tmp`, which then replaces the manifest.
unfoldable pub rewrite_manifest_without : Text → Directory → Directory
rewrite_manifest_without file_id d = elim (Dict.get d manifest_name) [
  | none ↦ d
  | some text ↦
      Dict.put (Dict.pop (Dict.put d manifest_tmp (without_rows file_id text)) manifest_tmp)
        manifest_name (without_rows file_id text)
]

unfoldable pub secure_delete : Text → Directory → Directory
secure_delete name d = Dict.pop d name

unfoldable pub delete_completed : Text → Directory → Directory × Bool
delete_completed file_id d =
    if not (has_file d file_id || has_file d (meta_name file_id) || manifest_has d file_id)
    then (d, false)
    else (
      rewrite_manifest_without file_id (Dict.pop (secure_delete file_id d) (meta_name file_id)),
      true,
    )

-- `open("a")` on the manifest: it is made where it is missing.
unfoldable pub append_row : Text → Text → Directory → Directory
append_row file_id b64 d = elim (Dict.get d manifest_name) [
  | none ↦ Dict.put d manifest_name (row_line file_id b64)
  | some text ↦ Dict.put d manifest_name (text ++ row_line file_id b64)
]

-- `b64` is `encrypt_manifest_payload` of the id and the name.
unfoldable pub append_completed :
    Crypto → Entropy → Text → Text → Bytes → Directory → Directory × Result Fault (Unit {0})
append_completed c e file_id b64 source d =
    let run = encrypt_file c e source in
    elim (run.result) [
      | err x ↦ (Dict.pop d (tmp_name file_id), err x)
      | ok size ↦ (
        append_row file_id b64 (Dict.put (Dict.pop d (tmp_name file_id)) file_id run.written),
        ok tt,
      )
    ]

unfoldable pub write_duration : Text → Text → Directory → Directory
write_duration file_id json d = Dict.put d (meta_name file_id) json
