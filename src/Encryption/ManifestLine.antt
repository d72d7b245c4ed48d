-- ===== src/Encryption/ManifestLine.antt =====
-- Manifest lines: `encrypt_manifest_payload` and `decrypt_manifest_line` of
-- backend/app/services/encryption.py. JSON and base64 are parameters.
use aestor.Base.{
  ◌<◌, ◌≡◌, refl, sym, ◌++◌, length, take, drop, take-append, drop-append, take_all, Option, none,
  some, not, if◌then◌else◌, ◌==◌, list_eq, nat_eq, eq_refl, arith,
}
use aestor.Base.Result.{Result, ok, err, ◌>>=◌}
use aestor.Base.Text.{Text, strip}
use aestor.Encryption.Crypto.{Bytes, Crypto, IsLawful, Entropy, HasSizes}
use aestor.Encryption.Frame.{
  Fault, bad_line_magic, malformed_line, invalid_tag, rsa_failed, json_error, line_magic, u32_limit,
  u32_bytes, pack_u32, unpack_u32, pack_u32-eq, unpack_u32-bytes, length-u32_bytes,
}

-- `json.dumps` and `json.loads` on payloads, as UTF-8, and base64.
pub record Codec (P : Type 0) : Type 0 where
  pub dumps : P → Bytes
  pub loads : Bytes → Option P
  pub b64encode : Bytes → Text
  pub b64decode : Text → Option Bytes

-- Their documented behaviour: each pair round-trips, and base64 has no blanks at its ends.
pub record IsExact (P : Type 0) (codec : Codec P) : Type 0 where
  pub loads-dumps : (p : P) → codec.loads (codec.dumps p) ≡ some p
  pub decode-encode : (b : Bytes) → codec.b64decode (codec.b64encode b) ≡ some b
  pub strip-encode : (b : Bytes) → strip (codec.b64encode b) ≡ codec.b64encode b

abbrev pub or_fault : {A : Type 0} → Fault → Option A → Result Fault A
or_fault e none = err e
or_fault e (some a) = ok a

module _ {P : Type 0} (codec : Codec P) (c : Crypto) where
  unfoldable pub encrypt_manifest_payload : Entropy → P → Result Fault Text
  encrypt_manifest_payload e payload =
      let cipher = c.seal e.aes_key e.nonce_base line_magic (codec.dumps payload) in
      let rsa_blob = c.rsa_encrypt e.seed (e.aes_key ++ e.nonce_base) in
      do
        len ← pack_u32 (length rsa_blob)
        ok (codec.b64encode (line_magic ++ (len ++ (rsa_blob ++ cipher))))

  -- `wrap[:32]`, `wrap[32:44]`, and what they open.
  unfoldable pub open_line : Bytes → Bytes → Result Fault P
  open_line wrap cipher = do
    plain ←
        or_fault invalid_tag (c.unseal (take 32 wrap) (take 12 (drop 32 wrap)) line_magic cipher)
    or_fault json_error (codec.loads plain)

  unfoldable pub decrypt_line_bytes : Bytes → Result Fault P
  decrypt_line_bytes blob = if not (take 8 blob == line_magic) then err bad_line_magic else (do
    rsa_len ← unpack_u32 (take 4 (drop 8 blob))
    wrap ← or_fault rsa_failed (c.rsa_decrypt (take rsa_len (drop 4 (drop 8 blob))))
    open_line wrap (drop rsa_len (drop 4 (drop 8 blob))))

  unfoldable pub decrypt_manifest_line : Text → Result Fault P
  decrypt_manifest_line b64 = do
    blob ← or_fault malformed_line (codec.b64decode (strip b64))
    decrypt_line_bytes blob

  module _ (L : IsLawful c) (E : IsExact P codec) (e : Entropy) (sizes : HasSizes e)
      (payload : P) where
    abbrev cipher : Bytes
    cipher = c.seal e.aes_key e.nonce_base line_magic (codec.dumps payload)

    abbrev rsa_blob : Bytes
    rsa_blob = c.rsa_encrypt e.seed (e.aes_key ++ e.nonce_base)

    open_line-cipher : open_line (e.aes_key ++ e.nonce_base) cipher ≡ ok payload
    unfolding open_line
    open_line-cipher =
        let key = take-append e.aes_key e.nonce_base 32 (sym sizes.key_size) in
        let back = drop-append e.aes_key e.nonce_base 32 (sym sizes.key_size) in
        let nonce = take_all e.nonce_base 12 (omega (arith, sizes.nonce_size)) in
        rw (key, back, open_line)
          (rw (nonce, L.unseal-seal e.aes_key e.nonce_base line_magic (codec.dumps payload))
            (rw (E.loads-dumps payload) refl))

    decrypt_line_bytes-line :
        length rsa_blob < u32_limit
        → decrypt_line_bytes (line_magic ++ (u32_bytes (length rsa_blob) ++ (rsa_blob ++ cipher)))
          ≡ ok payload
    unfolding decrypt_line_bytes
    decrypt_line_bytes-line fits =
        let n = length rsa_blob in
        let rest = u32_bytes n ++ (rsa_blob ++ cipher) in
        let four = sym (length-u32_bytes n) in
        rw
          (
            take-append line_magic rest 8 refl,
            drop-append line_magic rest 8 refl,
            take-append (u32_bytes n) (rsa_blob ++ cipher) 4 four,
            drop-append (u32_bytes n) (rsa_blob ++ cipher) 4 four,
            unpack_u32-bytes n fits,
            decrypt_line_bytes,
          )
          (rw (eq_refl line_magic) (
            rw
              (
                take-append rsa_blob cipher n refl,
                drop-append rsa_blob cipher n refl,
                L.decrypt-encrypt e.seed (e.aes_key ++ e.nonce_base),
              )
              open_line-cipher))

    -- With a lawful cipher, JSON and base64 that round-trip, a key and a nonce of the sizes that are
    -- drawn and a wrapped key of less than 2^32 bytes: the payload is encrypted to some text, and
    -- decrypting that text gives the payload back.
    pub decrypt-encrypt_line :
        length rsa_blob < u32_limit
        → (line : Text) × (encrypt_manifest_payload e payload ≡ ok line)
          × (decrypt_manifest_line line ≡ ok payload)
    unfolding encrypt_manifest_payload decrypt_manifest_line
    decrypt-encrypt_line fits =
        let bytes = line_magic ++ (u32_bytes (length rsa_blob) ++ (rsa_blob ++ cipher)) in
        (
          codec.b64encode bytes,
          rw (pack_u32-eq (length rsa_blob) fits, encrypt_manifest_payload) refl,
          rw (E.strip-encode bytes, decrypt_manifest_line)
              (rw (E.decode-encode bytes) (decrypt_line_bytes-line fits)),
        )
