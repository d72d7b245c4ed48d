-- ===== src/Encryption/Shape.antt =====
-- The layout of an AESTOR02 blob as its documentation gives it, and what the two loops make of it.
use aestor.Base.{
  ℕ, ◌+◌, ◌*◌, ◌/◌, ◌%◌, ◌^◌, ◌≤◌, ◌<◌, ◌≡◌, refl, sym, List, [], ◌∷◌, ◌++◌, length, take, drop,
  length-append, append_assoc, arith, some, le→ltb,
}
use aestor.Base.Result.{ok}
use aestor.Encryption.Crypto.{Bytes, Crypto, IsLawful}
use aestor.Encryption.Frame.{
  u32_bytes, nonce_of, aad_of, file_magic_v2, max_chunk_size, u32_limit, pack_u32-eq, unpack_u32,
  chunk_nonce-eq, chunk_aad-eq, length-u32_bytes, read_exact-append,
}
use aestor.Encryption.Encrypt.{seal_frame}
use aestor.Encryption.Chunks.{concat}
use aestor.Encryption.Decrypt.{read_frame, open_frame}

abbrev u32_value : ℕ → ℕ
u32_value n = ((n / 2 ^ 24 % 256 * 256 + n / 2 ^ 16 % 256) * 256 + n / 2 ^ 8 % 256) * 256 + n % 256

u32_value-eq : (n : ℕ) → n < u32_limit → u32_value n ≡ n
u32_value-eq n h = omega arith

-- A length and as many bytes are read back as one frame.
read_frame-bytes :
    (ct rest : Bytes)
    → 16 ≤ length ct
    → length ct ≤ max_chunk_size + 16
    → read_frame ((u32_bytes (length ct) ++ ct) ++ rest) ≡ ok (some (ct, rest))
unfolding read_frame u32_bytes take drop unpack_u32
read_frame-bytes ct rest lo hi = rw (u32_value-eq (length ct) (omega arith)) (
    rw (le→ltb (length ct) 16 lo, le→ltb (max_chunk_size + 16) (length ct) hi)
      (rw (read_exact-append ct rest (length ct) refl) refl))

module _ (c : Crypto) (aes_key nonce_base : Bytes) where
  abbrev pub sealed : ℕ → Bytes → Bytes
  sealed index chunk = c.seal aes_key (nonce_of nonce_base index) (aad_of file_magic_v2 index) chunk

  -- ct_len : u32 BE, then ct||tag.
  unfoldable pub frame : ℕ → Bytes → Bytes
  frame index chunk = u32_bytes (length (sealed index chunk)) ++ sealed index chunk

  unfoldable pub frames : ℕ → List Bytes → Bytes
  frames index [] = []
  frames index (x ∷ xs) = frame index x ++ frames (index + 1) xs

  -- The frames of the first chunks are a prefix of those of all chunks.
  pub frames-append :
      (index : ℕ) (xs ys : List Bytes)
      → (rest : Bytes) × (frames index (xs ++ ys) ≡ frames index xs ++ rest)
  unfolding frames
  frames-append index [] ys = (frames index ys, refl)
  frames-append index (x ∷ xs) ys =
      let (rest, e) = frames-append (index + 1) xs ys in
      (rest, rw e (sym (append_assoc (frame index x) (frames (index + 1) xs) rest)))

module _ (c : Crypto) (L : IsLawful c) (aes_key nonce_base : Bytes) where
  module _ (nonce_size : length nonce_base ≡ 12) where
    pub seal_frame-eq :
        (index : ℕ) (chunk : Bytes)
        → index < u32_limit
        → length chunk ≤ max_chunk_size
        → seal_frame c aes_key nonce_base index chunk ≡ ok (frame c aes_key nonce_base index chunk)
    unfolding seal_frame frame
    seal_frame-eq index chunk lt small =
        rw (chunk_nonce-eq nonce_base index nonce_size lt, chunk_aad-eq file_magic_v2 index lt)
          (rw
            (pack_u32-eq (length (sealed c aes_key nonce_base index chunk))
              (omega (arith, L.length-seal)))
            refl)

    pub open_frame-eq :
        (index : ℕ) (chunk : Bytes)
        → index < u32_limit
        → open_frame c aes_key nonce_base index (sealed c aes_key nonce_base index chunk) ≡ ok chunk
    unfolding open_frame
    open_frame-eq index chunk lt =
        rw (chunk_nonce-eq nonce_base index nonce_size lt, chunk_aad-eq file_magic_v2 index lt)
          (rw L.unseal-seal refl)

  pub read_frame-eq :
      (index : ℕ) (chunk rest : Bytes)
      → length chunk ≤ max_chunk_size
      → read_frame (frame c aes_key nonce_base index chunk ++ rest)
        ≡ ok (some (sealed c aes_key nonce_base index chunk, rest))
  unfolding frame
  read_frame-eq index chunk rest small =
      read_frame-bytes (sealed c aes_key nonce_base index chunk) rest (omega (arith, L.length-seal))
        (omega (arith, L.length-seal))

  length-frame :
      (index : ℕ) (chunk : Bytes)
      → length (frame c aes_key nonce_base index chunk) ≡ length chunk + 20
  unfolding frame
  length-frame index chunk = omega (
    arith,
    length-append (u32_bytes (length (sealed c aes_key nonce_base index chunk)))
        (sealed c aes_key nonce_base index chunk),
    length-u32_bytes (length (sealed c aes_key nonce_base index chunk)),
    L.length-seal,
  )

  -- Every frame is 20 bytes longer than its chunk.
  pub length-frames :
      (index : ℕ) (xs : List Bytes)
      → length (frames c aes_key nonce_base index xs) ≡ length (concat xs) + 20 * length xs
  unfolding frames
  length-frames index [] = refl
  length-frames index (x ∷ xs) = omega (
    arith,
    length-append (frame c aes_key nonce_base index x) (frames c aes_key nonce_base (index + 1) xs),
    length-append x (concat xs),
    length-frame index x,
    length-frames (index + 1) xs,
  )
