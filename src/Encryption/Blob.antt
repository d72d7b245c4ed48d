-- ===== src/Encryption/Blob.antt =====
-- What `decrypt_file` makes of blobs that are laid out as documented, whole or cut.
use aestor.Base.{
  ℕ, suc, ◌+◌, ◌-◌, ◌*◌, ◌≤◌, ◌<◌, ◌≡◌, refl, sym, some, List, [], ◌++◌, All, length, length-append,
  append_assoc, take-append, drop-append, take_all, arith, le→ltb, eq_refl, list_eq, nat_eq, min,
}
use native.Mathlib.Nat.{zero-add}
use aestor.Base.Result.{ok}
use aestor.Encryption.Crypto.{Bytes, Crypto, IsLawful, Entropy, HasSizes}
use aestor.Encryption.Frame.{
  u32_bytes, file_magic_v2, chunk_size, u32_limit, pack_u32-eq, unpack_u32-bytes, length-u32_bytes,
  read_exact-append,
}
use aestor.Encryption.Encrypt.{report, encrypt_loop, encrypt_file}
use aestor.Encryption.Chunks.{concat, chunks, IsSmall, length-chunks}
use aestor.Encryption.Loops.{Wrote, encrypt_loop-frames, decrypt_loop-frames}
use aestor.Encryption.Decrypt.{
  read_head, decrypt_loop, decrypt_body, decrypt_file, open_head, unwrap,
}
use aestor.Encryption.Shape.{frames, length-frames, frames-append}

unwrap-eq :
    (c : Crypto) (rsa_blob wrap : Bytes)
    → c.rsa_decrypt rsa_blob ≡ some wrap
    → 44 ≤ length wrap
    → unwrap c rsa_blob ≡ ok wrap
unfolding unwrap
unwrap-eq c rsa_blob wrap e h = rw (e, unwrap) (rw (le→ltb (length wrap) 44 h) refl)

decrypt_body-v2 :
    (c : Crypto) (aes_key nonce_base : Bytes) (total : ℕ) (rest : Bytes) (reports : List (ℕ × ℕ))
    → decrypt_body c aes_key nonce_base total file_magic_v2 rest reports
      ≡ decrypt_loop c aes_key nonce_base total (suc (length rest)) rest 0 0 [] reports
unfolding decrypt_body
decrypt_body-v2 c aes_key nonce_base total rest reports = rw (eq_refl file_magic_v2) refl

module _ (c : Crypto) (L : IsLawful c) (e : Entropy) where
  abbrev rsa_of : Bytes
  rsa_of = c.rsa_encrypt e.seed (e.aes_key ++ e.nonce_base)

  -- A whole blob: its magic, the wrapped key with its length, and a frame for each chunk.
  pub blob : List Bytes → Bytes
  blob xs =
      file_magic_v2
      ++ (u32_bytes (length rsa_of) ++ (rsa_of ++ frames c e.aes_key e.nonce_base 0 xs))

  blob-append :
      (xs : List Bytes)
      → blob xs
        ≡ (file_magic_v2 ++ (u32_bytes (length rsa_of) ++ rsa_of))
          ++ frames c e.aes_key e.nonce_base 0 xs
  unfolding blob
  blob-append xs =
      rw (append_assoc (u32_bytes (length rsa_of)) rsa_of (frames c e.aes_key e.nonce_base 0 xs))
        refl

  pub length-blob :
      (xs : List Bytes)
      → length (blob xs) ≡ 12 + length rsa_of + length (concat xs) + 20 * length xs
  unfolding blob
  length-blob xs = omega (
    arith,
    length-append (u32_bytes (length rsa_of)) (rsa_of ++ frames c e.aes_key e.nonce_base 0 xs),
    length-append rsa_of (frames c e.aes_key e.nonce_base 0 xs),
    length-u32_bytes (length rsa_of),
    length-frames c L e.aes_key e.nonce_base 0 xs,
  )

  pub blob-prefix : (xs ys : List Bytes) → (rest : Bytes) × (blob (xs ++ ys) ≡ blob xs ++ rest)
  unfolding blob
  blob-prefix xs ys =
      let (rest, split) = frames-append c e.aes_key e.nonce_base 0 xs ys in
      (
        rest,
        rw
            (
              split,
              append_assoc (u32_bytes (length rsa_of))
                  (rsa_of ++ frames c e.aes_key e.nonce_base 0 xs) rest,
            )
            (rw (append_assoc rsa_of (frames c e.aes_key e.nonce_base 0 xs) rest) refl),
      )

  module _ (sizes : HasSizes e) (rsa_fits : length rsa_of < u32_limit) where
    encrypt_file-loop :
        (source : Bytes)
        → encrypt_file c e source
          ≡ encrypt_loop c e.aes_key e.nonce_base
              (length source)
              (suc (length source))
              source
              0
              0
              (file_magic_v2 ++ (u32_bytes (length rsa_of) ++ rsa_of))
              []
    unfolding encrypt_file
    encrypt_file-loop source = rw (pack_u32-eq (length rsa_of) rsa_fits, encrypt_file) refl

    pub encrypt_file-blob :
        (source : Bytes)
        → length source ≤ chunk_size * u32_limit
        → let whole = blob (chunks (suc (length source)) source) in
          Wrote (encrypt_file c e source) whole (length whole)
    encrypt_file-blob source h =
        rw (encrypt_file-loop source, blob-append)
          (encrypt_loop-frames c L e.aes_key e.nonce_base sizes.nonce_size (length source)
            (suc (length source)) source 0 0 _ _ (omega arith)
            (omega (arith, length-chunks (suc (length source)) source)))

    read_head-blob :
        (xs : List Bytes)
        → read_head (blob xs)
          ≡ ok (record {
            magic = file_magic_v2;
            rsa_blob = rsa_of;
            rest = frames c e.aes_key e.nonce_base 0 xs;
          })
    unfolding read_head blob
    read_head-blob xs =
        let tail = rsa_of ++ frames c e.aes_key e.nonce_base 0 xs in
        rw (read_exact-append file_magic_v2 (u32_bytes (length rsa_of) ++ tail) 8 refl) (
          rw
            (read_exact-append (u32_bytes (length rsa_of)) tail 4
              (sym (length-u32_bytes (length rsa_of))))
            (rw (unpack_u32-bytes (length rsa_of) rsa_fits)
              (rw (read_exact-append rsa_of (frames c e.aes_key e.nonce_base 0 xs) _ refl) refl)))

    open_head-blob :
        (xs : List Bytes)
        → open_head c (blob xs)
          ≡ ok (
            record {
              magic = file_magic_v2;
              rsa_blob = rsa_of;
              rest = frames c e.aes_key e.nonce_base 0 xs;
            },
            e.aes_key ++ e.nonce_base,
          )
    unfolding open_head
    open_head-blob xs = rw (read_head-blob xs) (
        rw
          (unwrap-eq c rsa_of (e.aes_key ++ e.nonce_base) (L.decrypt-encrypt e.seed _)
            (omega (arith, length-append e.aes_key e.nonce_base, sizes.key_size, sizes.nonce_size)))
          refl)

    pub decrypt_file-blob :
        (xs : List Bytes)
        → length xs ≤ u32_limit
        → All IsSmall xs
        → Wrote (decrypt_file c (blob xs)) (concat xs) (length (concat xs))
    unfolding decrypt_file
    decrypt_file-blob xs h small =
        rw (open_head-blob xs, decrypt_file)
          (rw (take-append e.aes_key e.nonce_base 32 (sym sizes.key_size)) (
            rw (drop-append e.aes_key e.nonce_base 32 (sym sizes.key_size)) (
              rw (take_all e.nonce_base 12 (omega (arith, sizes.nonce_size))) (
                rw decrypt_body-v2 (
                  rw zero-add at (
                    decrypt_loop-frames c L e.aes_key e.nonce_base sizes.nonce_size
                      (length (blob xs)) (suc (length (frames c e.aes_key e.nonce_base 0 xs))) xs 0
                      0 []
                      (report []
                        (min (length (blob xs) - length (frames c e.aes_key e.nonce_base 0 xs))
                          (length (blob xs)))
                        (length (blob xs)))
                      (omega (arith, length-frames c L e.aes_key e.nonce_base 0 xs)) (omega arith)
                      small))))))
