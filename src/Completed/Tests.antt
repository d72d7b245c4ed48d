-- ===== src/Completed/Tests.antt =====
-- The theorems on the directory of completed files at concrete data.
use aestor.Base.{
  ℕ, All, length, false, is_empty, ◌==◌, ◌≡◌, ◌≢◌, refl, true, ◌||◌, none, some, List, [], ◌∷◌,
  ◌++◌, take, arith, list_eq, nat_eq, list_beq,
}
use aestor.Base.Dict
use aestor.Base.Result.{ok}
use aestor.Base.Text.{Text, codes}
use aestor.Encryption.Crypto.{Crypto, Entropy}
use aestor.Encryption.Frame.{pack_u32, u32_bytes}
use aestor.Encryption.Encrypt.{encrypt_file, encrypt_loop}
use aestor.Completed.Files.{
  Directory, manifest_name, manifest_tmp, meta_name, tmp_name, has_file, delete_completed,
  append_completed,
}
use aestor.Completed.Rows.{Row, print, without, has_row}
use aestor.Base.Text.{is_space}
use aestor.Completed.Parse.{parse_manifest_text}
use aestor.Completed.Printing.{parse_manifest_text-print}
use aestor.Completed.Lookup.{Holds}
use aestor.Completed.Deletion.{delete_completed_lem, delete_manifest}
use aestor.Base.Sort.{IsFalling, any_by}
use aestor.Completed.Listed.{list_file_ids_lem}
use aestor.Completed.Listing.{FileRow, list_file_ids}
use aestor.Completed.Storing.{delete-append_completed}

abbrev rows : List Row
rows = (codes "a", codes "AA==") ∷ (codes "b", codes "QQ==") ∷ []

-- One blob, the duration of another, and the manifest.
abbrev shelf : Directory
shelf = (codes "a", 1 ∷ 2 ∷ []) ∷ (codes "b.json", 3 ∷ []) ∷ (manifest_name, print rows) ∷ []

shelf-Holds : Holds rows shelf
unfolding Dict.get list_beq
shelf-Holds = refl

delete_completed_lem_example :
    let d' = (delete_completed (codes "a") shelf).0 in
    Holds (without (codes "a") rows) d'
    × (Dict.get d' (codes "a") ≡ none)
    × (Dict.get d' (meta_name (codes "a")) ≡ none)
    × ((name : Text)
        → name ≢ codes "a"
        → name ≢ meta_name (codes "a")
        → name ≢ manifest_name
        → name ≢ manifest_tmp
        → Dict.get d' name ≡ Dict.get shelf name)
    × ((delete_completed (codes "a") shelf).1 ≡ (
        has_file shelf (codes "a")
        || has_file shelf (meta_name (codes "a"))
        || has_row (codes "a") rows))
delete_completed_lem_example =
    delete_completed_lem (codes "a") rows shelf (ground arith) (ground arith) (ground arith)
      shelf-Holds

delete_manifest_example :
    ((delete_completed manifest_name shelf).1 ≡ true)
    × (Dict.get (delete_completed manifest_name shelf).0 manifest_name ≡ none)
delete_manifest_example = delete_manifest rows shelf shelf-Holds

abbrev toy : Crypto
toy = record {
  seal = λ k n a p. p;
  unseal = λ k n a t. some t;
  rsa_encrypt = λ s m. m;
  rsa_decrypt = some;
}

abbrev entropy : Entropy
entropy = record { aes_key = 1 ∷ []; nonce_base = 2 ∷ []; seed = 0 }

made : (encrypt_file toy entropy []).result ≡ ok 14
unfolding encrypt_file encrypt_loop pack_u32 u32_bytes take
made = refl

delete-append_completed_example :
    let stored = (append_completed toy entropy (codes "c") (codes "Zg==") [] shelf).0 in
    let left = (delete_completed (codes "c") stored).0 in
    (Dict.get stored (codes "c") ≡ some (encrypt_file toy entropy []).written)
    × Holds (rows ++ (codes "c", codes "Zg==") ∷ []) stored
    × ((delete_completed (codes "c") stored).1 ≡ true)
    × Holds rows left
    × (Dict.get left (codes "c") ≡ none)
    × ((name : Text)
        → name ≢ codes "c"
        → name ≢ meta_name (codes "c")
        → name ≢ tmp_name (codes "c")
        → name ≢ manifest_name
        → name ≢ manifest_tmp
        → Dict.get left name ≡ Dict.get shelf name)
unfolding list_beq
delete-append_completed_example =
    delete-append_completed toy entropy (codes "c") (codes "Zg==") [] rows shelf made (ground arith)
      (ground arith) (ground arith) refl (ground arith) shelf-Holds

parse_manifest_text-print_example : parse_manifest_text (print rows) ≡ ok rows
unfolding is_space
parse_manifest_text-print_example = parse_manifest_text-print rows (ground arith)

times : Text → ℕ
times name = length name

list_file_ids_lem_example :
    let rows = list_file_ids (λ text. some (length text)) times shelf in
    IsFalling (λ (row : FileRow ℕ). times row.id) rows
    × All
        (λ row.
          (content : List ℕ) × (Dict.get shelf row.id ≡ some content)
          × (row.encrypted_size_bytes ≡ length content))
        rows
    × ((id : Text)
        → All (λ c. c ≢ 46) id
        → any_by (λ (row : FileRow ℕ). row.id == id) rows ≡ has_file shelf id)
    × ((id : Text)
        → is_empty id ≡ false
        → any_by (λ (row : FileRow ℕ). row.id == meta_name id) rows ≡ false)
    × (any_by (λ (row : FileRow ℕ). row.id == manifest_name) rows ≡ false)
list_file_ids_lem_example = list_file_ids_lem (λ text. some (length text)) times shelf
