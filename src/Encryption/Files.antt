-- ===== src/Encryption/Files.antt =====
-- `encrypt_file` and `decrypt_file` together.
use aestor.Base.{
  ℕ, suc, ◌+◌, ◌*◌, ◌≤◌, ◌<◌, ◌-◌, ◌/◌, ◌≡◌, refl, ap, ◌∙◌, ◌++◌, length, take, drop, List, arith,
  take-append-drop, length-take, take-append, All-take,
}
use aestor.Base.Result.{ok}
use aestor.Encryption.Crypto.{Bytes, Crypto, IsLawful, Entropy, HasSizes}
use aestor.Encryption.Frame.{chunk_size, u32_limit}
use aestor.Encryption.Chunks.{
  concat, chunks, concat-chunks, IsSmall, chunks-IsSmall, length-chunks, le-length-chunks,
  take-chunks,
}
use aestor.Encryption.Encrypt.{encrypt_file}
use aestor.Encryption.Decrypt.{decrypt_file}
use aestor.Encryption.Loops.{Wrote}
use aestor.Encryption.Blob.{blob, length-blob, blob-prefix, encrypt_file-blob, decrypt_file-blob}

module _ (c : Crypto) (L : IsLawful c) (e : Entropy) (sizes : HasSizes e)
    (rsa_fits : length (c.rsa_encrypt e.seed (e.aes_key ++ e.nonce_base)) < u32_limit)
    (source : Bytes) (fits : length source ≤ chunk_size * u32_limit) where
  abbrev parts : List Bytes
  parts = chunks (suc (length source)) source

  -- With a lawful cipher, a key and a nonce of the sizes that are drawn, a wrapped key of less than 2^32
  -- bytes and a source of at most 2^32 chunks: `encrypt_file` returns the size of what it wrote, and
  -- `decrypt_file` on that writes the source back and returns its size.
  pub decrypt-encrypt :
      let run = encrypt_file c e source in
      (run.result ≡ ok (length run.written))
      × Wrote (decrypt_file c run.written) source (length source)
  decrypt-encrypt =
      let made = encrypt_file-blob c L e sizes rsa_fits source fits in
      let read =
        decrypt_file-blob c L e sizes rsa_fits parts
          (omega (arith, length-chunks (suc (length source)) source))
          (chunks-IsSmall (suc (length source)) source) in
      rw (made.0, made.1)
        (refl, rw (concat-chunks (suc (length source)) source (omega arith)) at read)

  -- Under the same conditions, `encrypt_file` returns 12 bytes and the wrapped key for the head, the
  -- size of the source, and 20 bytes for each chunk that the source starts.
  encrypt_file-size :
      (encrypt_file c e source).result
      ≡ ok (
          12
          + length (c.rsa_encrypt e.seed (e.aes_key ++ e.nonce_base))
          + length source
          + 20 * ((length source + chunk_size - 1) / chunk_size))
  encrypt_file-size =
      let count = length-chunks (suc (length source)) source in
      let count' = le-length-chunks (suc (length source)) source (omega arith) in
      rw (encrypt_file-blob c L e sizes rsa_fits source fits).1 (
        ap ok (
          omega (
            arith,
            length-blob c L e parts,
            ap length (concat-chunks (suc (length source)) source (omega arith)),
            count,
            count',
          )))

  -- With a lawful cipher, a key and a nonce of the sizes that are drawn, a wrapped key of less than
  -- 2^32 bytes and a source of at most 2^32 chunks, of which the first n are full: a blob that is cut
  -- behind its n-th frame is decrypted with no error. What is written is the first n chunks of the
  -- source, and the loss of the rest is not noticed.
  pub decrypt_cut :
      (n : ℕ)
      → n * chunk_size ≤ length source
      → let run = encrypt_file c e source in
        let head = 12 + length (c.rsa_encrypt e.seed (e.aes_key ++ e.nonce_base)) in
        Wrote
          (decrypt_file c (take (head + n * (chunk_size + 20)) run.written))
          (take (n * chunk_size) source)
          (n * chunk_size)
  decrypt_cut n h =
      let made = encrypt_file-blob c L e sizes rsa_fits source fits in
      let (front, count) = take-chunks n (suc (length source)) source (omega arith) h in
      let (rest, split) = blob-prefix c L e (take n parts) (drop n parts) in
      let size : length (concat (take n parts)) ≡ n * chunk_size =
        omega (arith, ap length front, length-take (n * chunk_size) source) in
      let whole : blob c L e parts ≡ blob c L e (take n parts) ++ rest =
        rw take-append-drop at split in
      let small = All-take IsSmall n parts (chunks-IsSmall (suc (length source)) source) in
      let read =
        decrypt_file-blob c L e sizes rsa_fits (take n parts) (omega (arith, count)) small in
      let head = 12 + length (c.rsa_encrypt e.seed (e.aes_key ++ e.nonce_base)) in
      rw (made.0, whole)
        (rw
          (take-append (blob c L e (take n parts)) rest (head + n * (chunk_size + 20))
            (omega (arith, length-blob c L e (take n parts), size, count)))
          (read.0 ∙ front, rw size at read.1))
