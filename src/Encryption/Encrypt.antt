-- ===== src/Encryption/Encrypt.antt =====
-- `Encryptor.encrypt_file` of backend/app/services/encryption.py.
use aestor.Base.{
  ℕ, zero, suc, ◌+◌, true, false, List, [], ◌∷◌, ◌++◌, length, take, drop, is_empty, nat_beq,
  if◌then◌else◌,
}
use aestor.Base.Result.{Result, ok, err, ◌>>=◌}
use aestor.Encryption.Crypto.{Bytes, Crypto, Entropy}
use aestor.Encryption.Frame.{
  Fault, out_of_fuel, file_magic_v2, chunk_size, pack_u32, chunk_nonce, chunk_aad,
}

-- What a run leaves behind: the bytes in the destination, also when it raises, the calls of
-- `on_progress`, and the number that it returns.
pub record Run : Type 0 where
  pub written : Bytes
  pub reports : List (ℕ × ℕ)
  pub result : Result Fault ℕ

-- One call of `on_progress`, behind those before it.
abbrev pub report : List (ℕ × ℕ) → ℕ → ℕ → List (ℕ × ℕ)
report reports done total = reports ++ (done, total) ∷ []

-- `if on_progress is not None and total == 0: on_progress(0, 0)`
abbrev pub report_empty : List (ℕ × ℕ) → ℕ → List (ℕ × ℕ)
report_empty reports total = if nat_beq total 0 then report reports 0 0 else reports

module _ (c : Crypto) where
  -- One chunk as it is written: the length of its ciphertext, and the ciphertext.
  unfoldable pub seal_frame : Bytes → Bytes → ℕ → Bytes → Result Fault Bytes
  seal_frame aes_key nonce_base index chunk = do
    nonce ← chunk_nonce nonce_base index
    aad ← chunk_aad file_magic_v2 index
    let ct = c.seal aes_key nonce aad chunk
    len ← pack_u32 (length ct)
    ok (len ++ ct)

  module _ (aes_key nonce_base : Bytes) (total : ℕ) where
    -- The `while True` loop. The state is the rest of the source, the chunk's index, the bytes done,
    -- what has been written and the calls made.
    unfoldable pub encrypt_loop : ℕ → Bytes → ℕ → ℕ → Bytes → List (ℕ × ℕ) → Run
    encrypt_loop zero inp index done out reports = record {
      written = out;
      reports = reports;
      result = err out_of_fuel;
    }
    encrypt_loop (suc fuel) inp index done out reports =
        let chunk = take chunk_size inp in
        elim (is_empty chunk) [
          | true ↦ record {
            written = out;
            reports = report_empty reports total;
            result = ok (length out);
          }
          | false ↦ elim (seal_frame aes_key nonce_base index chunk) [
            | err e ↦ record { written = out; reports = reports; result = err e }
            | ok frame ↦
                let done' = done + length chunk in
                encrypt_loop fuel (drop chunk_size inp) (index + 1) done' (out ++ frame)
                  (report reports done' total)
          ]
        ]

  -- `source` is the content of the source file. A round of the loop takes a byte at least.
  unfoldable pub encrypt_file : Entropy → Bytes → Run
  encrypt_file e source =
      let rsa_blob = c.rsa_encrypt e.seed (e.aes_key ++ e.nonce_base) in
      elim (pack_u32 (length rsa_blob)) [
        | err x ↦ record { written = file_magic_v2; reports = []; result = err x }
        | ok len ↦
            encrypt_loop e.aes_key e.nonce_base (length source) (suc (length source)) source 0 0
              (file_magic_v2 ++ (len ++ rsa_blob)) []
      ]
