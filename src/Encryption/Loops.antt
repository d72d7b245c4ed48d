-- ===== src/Encryption/Loops.antt =====
-- What the two loops of encryption.py make of chunks and of frames.
use aestor.Base.{
  ℕ, zero, suc, ◌+◌, ◌-◌, ◌≤◌, ◌<◌, ◌≡◌, refl, some, List, [], ◌∷◌, ◌++◌, All, length, take, drop,
  length-drop, length-append, append_assoc, append-nil, arith, list_eq, nat_eq, min,
}
use native.Mathlib.Nat.{add-zero, add_assoc}
use aestor.Base.Result.{ok}
use aestor.Encryption.Crypto.{Bytes, Crypto, IsLawful}
use aestor.Encryption.Frame.{chunk_size, u32_limit}
use aestor.Encryption.Encrypt.{Run, report, seal_frame, encrypt_loop}
use aestor.Encryption.Chunks.{concat, chunks, chunks-nil, chunks-cons, IsSmall, chunks-IsSmall}
use aestor.Encryption.Decrypt.{read_frame, open_frame, decrypt_loop}
use aestor.Encryption.Shape.{frames, seal_frame-eq, open_frame-eq, read_frame-eq}

-- A run that returned `n` after writing `plain`.
abbrev pub Wrote : Run → Bytes → ℕ → Type 0
Wrote run plain n = (run.written ≡ plain) × (run.result ≡ ok n)

module _ (c : Crypto) (aes_key nonce_base : Bytes) (total : ℕ) where
  encrypt_loop-nil :
      (fuel index done : ℕ) (out : Bytes) (reports : List (ℕ × ℕ))
      → Wrote
          (encrypt_loop c aes_key nonce_base total (suc fuel) [] index done out reports)
          out
          (length out)
  unfolding encrypt_loop take
  encrypt_loop-nil fuel index done out reports = (refl, refl)

  encrypt_loop-cons :
      (fuel b : ℕ) (inp : Bytes) (index done : ℕ) (out : Bytes) (reports : List (ℕ × ℕ))
      {sealed_chunk : Bytes}
      → seal_frame c aes_key nonce_base index (take chunk_size (b ∷ inp)) ≡ ok sealed_chunk
      → let done' = done + length (take chunk_size (b ∷ inp)) in
        encrypt_loop c aes_key nonce_base total (suc fuel) (b ∷ inp) index done out reports
        ≡ encrypt_loop c aes_key nonce_base total fuel
            (drop chunk_size (b ∷ inp))
            (index + 1)
            done'
            (out ++ sealed_chunk)
            (report reports done' total)
  unfolding encrypt_loop take
  encrypt_loop-cons fuel b inp index done out reports e = rw (e, encrypt_loop) refl

  decrypt_loop-step :
      (fuel : ℕ) (inp ct rest plain : Bytes) (index n : ℕ) (out : Bytes) (reports : List (ℕ × ℕ))
      → read_frame inp ≡ ok (some (ct, rest))
      → open_frame c aes_key nonce_base index ct ≡ ok plain
      → decrypt_loop c aes_key nonce_base total (suc fuel) inp index n out reports
        ≡ decrypt_loop c aes_key nonce_base total fuel rest
            (index + 1)
            (n + length plain)
            (out ++ plain)
            (report reports (min (total - length rest) total) total)
  unfolding decrypt_loop
  decrypt_loop-step fuel inp ct rest plain index n out reports e f =
      rw (e, decrypt_loop) (rw f refl)

  decrypt_loop-nil :
      (fuel index n : ℕ) (out : Bytes) (reports : List (ℕ × ℕ))
      → Wrote (decrypt_loop c aes_key nonce_base total (suc fuel) [] index n out reports) out n
  unfolding decrypt_loop read_frame take
  decrypt_loop-nil fuel index n out reports = (refl, refl)

module _ (c : Crypto) (L : IsLawful c) (aes_key nonce_base : Bytes) where
  module _ (nonce_size : length nonce_base ≡ 12) (total : ℕ) where
    pub encrypt_loop-frames :
        (fuel : ℕ) (inp : Bytes) (index done : ℕ) (out : Bytes) (reports : List (ℕ × ℕ))
        → length inp < fuel
        → index + length (chunks fuel inp) ≤ u32_limit
        → let whole = out ++ frames c aes_key nonce_base index (chunks fuel inp) in
          Wrote
            (encrypt_loop c aes_key nonce_base total fuel inp index done out reports)
            whole
            (length whole)
    unfolding frames
    encrypt_loop-frames zero inp index done out reports h lt = absurd (omega arith)
    encrypt_loop-frames (suc fuel) [] index done out reports h lt =
        rw chunks-nil
          (rw append-nil (encrypt_loop-nil c aes_key nonce_base total fuel index done out reports))
    encrypt_loop-frames (suc fuel) (b ∷ inp) index done out reports h lt =
        let room = rw (chunks-cons fuel b inp) at lt in
        let small = (rw (chunks-cons fuel b inp) at (chunks-IsSmall (suc fuel) (b ∷ inp))).0 in
        rw chunks-cons (
          rw
            (encrypt_loop-cons c aes_key nonce_base total fuel b inp index done out reports
              (seal_frame-eq c L aes_key nonce_base nonce_size index _ (omega arith) small))
            (rw (← append_assoc out _ _) (
              encrypt_loop-frames fuel (drop chunk_size (b ∷ inp)) (index + 1) _ _ _
                (omega (arith, length-drop chunk_size (b ∷ inp))) (omega arith))))

    pub decrypt_loop-frames :
        (fuel : ℕ) (xs : List Bytes) (index n : ℕ) (out : Bytes) (reports : List (ℕ × ℕ))
        → length xs < fuel
        → index + length xs ≤ u32_limit
        → All IsSmall xs
        → Wrote
            (decrypt_loop c aes_key nonce_base total fuel
              (frames c aes_key nonce_base index xs)
              index
              n
              out
              reports)
            (out ++ concat xs)
            (n + length (concat xs))
    unfolding frames
    decrypt_loop-frames zero xs index n out reports h lt small = absurd (omega arith)
    decrypt_loop-frames (suc fuel) [] index n out reports h lt small =
        rw (append-nil, add-zero)
          (decrypt_loop-nil c aes_key nonce_base total fuel index n out reports)
    decrypt_loop-frames (suc fuel) (x ∷ xs) index n out reports h lt small =
        rw
          (decrypt_loop-step c aes_key nonce_base total fuel _ _ _ _ index n out reports
            (read_frame-eq c L aes_key nonce_base index x
              (frames c aes_key nonce_base (index + 1) xs) small.0)
            (open_frame-eq c L aes_key nonce_base nonce_size index x (omega arith)))
          (rw (← append_assoc out _ _, length-append x (concat xs), ← add_assoc)
            (decrypt_loop-frames fuel xs (index + 1) _ _ _ (omega arith) (omega arith) small.1))
