-- ===== src/Api/Delivered.antt =====
-- A cycle of scripts/pull.py against the routes of backend/app/main.py, on what encrypt_file has written.
use aestor.Base.{
  true, ◌≢◌, true, arith, ℕ, suc, ◌+◌, ◌*◌, ◌<◌, ◌≤◌, ◌≡◌, refl, ap, sym, ◌∙◌, Option, none, some,
  List, [], ◌∷◌, ◌++◌, All, map, length, list_eq, nat_eq,
}
use aestor.Base.Dict
use aestor.Base.Result.{Result, ok}
use aestor.Base.Text.{Text}
use aestor.Auth.Guards.{Guard}
use aestor.Completed.Rows.{Row}
use aestor.Encryption.Crypto.{Bytes, IsLawful, Entropy, HasSizes}
use aestor.Encryption.Encrypt.{encrypt_file}
use aestor.Encryption.Files.{decrypt-encrypt}
use aestor.Encryption.Frame.{u32_limit, chunk_size}
use aestor.Encryption.ManifestLine.{decrypt_manifest_line}
use aestor.Jobs.Record.{FilePath, Floats}
use aestor.Pull.Client.{Outside, Puller, Client}
use aestor.Pull.Cycle.{Names, cycle}
use aestor.Pull.Drained.{Item, IsReadable, Distinct, cycle_drains}
use aestor.Pull.Kept.{tmp_dir}
use aestor.Pull.Paths.{IsPart}
use aestor.Pull.Process.{Setup}
use aestor.Api.Contract.{IsReady, file_api, file_api-IsHonest}
use aestor.Api.Routes.{Server}
use aestor.Api.Serving.{Framework, outside, IsHttp}
use aestor.Api.Shelf.{rows_of, blob_of, is_id_char, IsUuid}
use aestor.Completed.Printing.{IsPlain}

-- A file that `append_completed` has encrypted: the random values drawn, its row and its content.
pub record Upload : Type 0 where
  pub row : Row
  pub entropy : Entropy
  pub content : Bytes

map-All :
    {A B : Type 0} (f : A → B) (Q : B → Type 0) (xs : List A)
    → All (λ x. Q (f x)) xs
    → All Q (map f xs)
map-All f Q [] all = tt
map-All f Q (x ∷ xs) (h, all) = (h, map-All f Q xs all)

All-map :
    {A B : Type 0} (f : A → B) (Q : B → Type 0) (xs : List A)
    → All Q (map f xs)
    → All (λ x. Q (f x)) xs
All-map f Q [] all = tt
All-map f Q (x ∷ xs) (h, all) = (h, All-map f Q xs all)

map-map :
    {A B C : Type 0} (f : A → B) (g : B → C) (xs : List A)
    → map g (map f xs) ≡ map (λ x. g (f x)) xs
map-map f g [] = refl
map-map f g (x ∷ xs) = ap (◌∷◌ (g (f x))) (map-map f g xs)

length-map : {A B : Type 0} (f : A → B) (xs : List A) → length (map f xs) ≡ length xs
length-map f [] = refl
length-map f (x ∷ xs) = ap suc (length-map f xs)

-- An id of `new_id()` is one part of a path.
flat_uuid : (id : Text) → IsUuid id → All (λ c. c ≢ 47) id
flat_uuid [] h = tt
flat_uuid (c ∷ id) (e, h) = (ground arith, flat_uuid id h)

no_dot : (c : ℕ) → is_id_char c ≡ true → c ≢ 46
no_dot c e = ground arith

uuid-IsPart : (row : Row) → IsUuid row.0 → IsPlain row → IsPart row.0
uuid-IsPart ([], b64) named plain = elim plain [ ]
uuid-IsPart (c ∷ id, []) named plain = elim plain [ ]
uuid-IsPart (c ∷ id, d ∷ b64) (e, named) plain =
    (flat_uuid (c ∷ id) (e, named), λ x. cc, λ x. no_dot c e (cc x), λ x. no_dot c e (cc x))

uuids-IsPart :
    (rows : List Row)
    → All (λ (row : Row). IsUuid row.0) rows
    → All IsPlain rows
    → All (λ (row : Row). IsPart row.0) rows
uuids-IsPart [] named plain = tt
uuids-IsPart (row ∷ rows) (n, named) (p, plain) =
    (uuid-IsPart row n p, uuids-IsPart rows named plain)

module _ (setup : Setup) {P : Type 0} (names : Names P) where
  abbrev pub item_of : Upload → Item
  item_of u = record {
    row = u.row;
    blob = (encrypt_file setup.crypto u.entropy u.content).written;
    content = u.content;
  }

  -- Its key and nonce have their sizes, its wrapped key and its content their bounds, and its line
  -- decrypts.
  pub record IsUpload (u : Upload) : Type 0 where
    pub sizes : HasSizes u.entropy
    pub key_fits :
        length (setup.crypto.rsa_encrypt u.entropy.seed (u.entropy.aes_key ++ u.entropy.nonce_base))
        < u32_limit
    pub content_fits : length u.content ≤ chunk_size * u32_limit
    pub payload : P
    pub line : decrypt_manifest_line names.codec setup.crypto u.row.1 ≡ ok payload

  module _ (lawful : IsLawful setup.crypto) where
    uploads-IsReadable :
        (uploads : List Upload)
        → All IsUpload uploads
        → All (IsReadable setup names) (map item_of uploads)
    uploads-IsReadable [] all = tt
    uploads-IsReadable (u ∷ uploads) (up, all) = (
      (
        (up.payload, up.line),
        (
          length u.content,
          (decrypt-encrypt setup.crypto lawful u.entropy up.sizes up.key_fits u.content
              up.content_fits).1,
        ),
      ),
      uploads-IsReadable uploads all,
    )

module _ (fl : Floats) (http : Framework (fl.F)) (guard : Guard) (clock : ℕ → ℕ)
    (rate : ℕ → ℕ → fl.F) (decode : Bytes → Option Text)
    (files_pulled : Bytes → Result Text (Option ℕ)) (c : Client)
    (laws : IsHttp http (outside http guard clock rate decode files_pulled) c)
    (token : c.token ≡ guard.api_bearer_token) (setup : Setup) {P : Type 0} (names : Names P)
    (lawful : IsLawful setup.crypto) (out_dir : FilePath) where
  abbrev seen : Outside (fl.F) (ℕ × Server (fl.F))
  seen = outside http guard clock rate decode files_pulled

  -- The content is in the output directory, and its blob is off the server.
  abbrev pub IsDelivered : Puller (ℕ × Server (fl.F)) → Upload → Type 0
  IsDelivered q u =
      (t : Text) × (Dict.get q.files (out_dir ++ t ∷ []) ≡ some u.content)
      × (blob_of q.server.1.files u.row.0 ≡ none)

  -- Where the routes are served as documented, the client has the API token and holds the slot, and the
  -- manifest lists files with different ids that `encrypt_file` has encrypted within its bounds, with
  -- lines that decrypt: one cycle of the client raises the count by their number, the content of each is
  -- then a file of the output directory, and its blob is off the server.
  pub cycle-uploads :
      (uploads : List Upload) (q : Puller (ℕ × Server (fl.F))) (pulled : ℕ)
      → IsReady c q.server
      → rows_of q.server.1.files ≡ map (λ u. u.row) uploads
      → All
          (λ u.
            blob_of q.server.1.files u.row.0
            ≡ some (encrypt_file setup.crypto u.entropy u.content).written)
          uploads
      → All (IsUpload setup names) uploads
      → Distinct (map (item_of setup names) uploads)
      → let after = cycle fl seen c setup names out_dir (tmp_dir out_dir) (q, pulled) in
        (after.1 ≡ pulled + length uploads) × All (IsDelivered after.0) uploads
  cycle-uploads uploads q pulled ready rows stored up distinct =
      let f = item_of setup names in
      let (count, all) =
        cycle_drains fl seen c (file_api c)
          (file_api-IsHonest http guard clock rate decode files_pulled c laws token) setup names
          out_dir (map f uploads) q pulled ready (rows ∙ sym (map-map f (λ item. item.row) uploads))
          (map-All f (λ item. blob_of q.server.1.files item.row.0 ≡ some item.blob) uploads stored)
          (uploads-IsReadable setup names lawful uploads up) distinct
          (map-All f (λ item. IsPart item.row.0) uploads
            (All-map (λ u. u.row) (λ row. IsPart row.0) uploads
              (rw rows at
                (uuids-IsPart (rows_of q.server.1.files) ready.1.named ready.1.plain)))) in
      (
        count ∙ ap (λ n. pulled + n) (length-map f uploads),
        All-map f
            (λ item.
              (t : Text) × (Dict.get _ (out_dir ++ t ∷ []) ≡ some item.content)
              × (blob_of _ item.row.0 ≡ none))
            uploads all,
      )
