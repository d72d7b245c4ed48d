-- ===== src/Encryption/Decrypt.antt =====
-- `decrypt_file` of backend/app/services/encryption.py.
use aestor.Base.{
  ℕ, zero, suc, ◌+◌, ◌-◌, min, not, ◌||◌, Option, none, some, List, [], ◌++◌, length, take, drop,
  is_empty, nat_beq, ltb, if◌then◌else◌, ◌==◌, list_eq, nat_eq,
}
use aestor.Base.Result.{Result, ok, err, ◌>>=◌}
use aestor.Encryption.Crypto.{Bytes, Crypto}
use aestor.Encryption.Frame.{
  Fault, ciphertext_truncated, bad_key_material, invalid_chunk_length, bad_file_magic, invalid_tag,
  rsa_failed, out_of_fuel, file_magic_v1, file_magic_v2, max_chunk_size, unpack_u32, chunk_nonce,
  chunk_aad, read_exact,
}
use aestor.Encryption.Encrypt.{Run, report, report_empty}

-- The head of a blob: its magic, the wrapped key, and what follows.
pub record Head : Type 0 where
  pub magic : Bytes
  pub rsa_blob : Bytes
  pub rest : Bytes

unfoldable pub read_head : Bytes → Result Fault Head
read_head inp = do
  (magic, inp₁) ← read_exact inp 8
  (len_bytes, inp₂) ← read_exact inp₁ 4
  rsa_len ← unpack_u32 len_bytes
  (rsa_blob, rest) ← read_exact inp₂ rsa_len
  ok (record { magic = magic; rsa_blob = rsa_blob; rest = rest })

-- The next ciphertext and the bytes behind it, or `none` at the end of the file.
unfoldable pub read_frame : Bytes → Result Fault (Option (Bytes × Bytes))
read_frame inp =
    let len_bytes = take 4 inp in
    if is_empty len_bytes
    then ok none
    else if not (nat_beq (length len_bytes) 4)
    then err ciphertext_truncated
    else do
      ct_len ← unpack_u32 len_bytes
      if ltb ct_len 16 || ltb (max_chunk_size + 16) ct_len
          then err invalid_chunk_length
          else do (ct, rest) ← read_exact (drop 4 inp) ct_len; ok (some (ct, rest))

abbrev pub unseal_or_fail : Option Bytes → Result Fault Bytes
unseal_or_fail none = err invalid_tag
unseal_or_fail (some plain) = ok plain

module _ (c : Crypto) where
  unfoldable pub open_frame : Bytes → Bytes → ℕ → Bytes → Result Fault Bytes
  open_frame aes_key nonce_base index ct = do
    nonce ← chunk_nonce nonce_base index
    aad ← chunk_aad file_magic_v2 index
    unseal_or_fail (c.unseal aes_key nonce aad ct)

  module _ (aes_key nonce_base : Bytes) (total : ℕ) where
    -- The `while True` loop of the v2 format. The position in the source is `total` less the bytes
    -- that are left.
    unfoldable pub decrypt_loop : ℕ → Bytes → ℕ → ℕ → Bytes → List (ℕ × ℕ) → Run
    decrypt_loop zero inp index plain_total out reports = record {
      written = out;
      reports = reports;
      result = err out_of_fuel;
    }
    decrypt_loop (suc fuel) inp index plain_total out reports = elim (read_frame inp) [
      | err e ↦ record { written = out; reports = reports; result = err e }
      | ok none ↦ record {
        written = out;
        reports = report_empty reports total;
        result = ok plain_total;
      }
      | ok (some (ct, rest)) ↦ elim (open_frame aes_key nonce_base index ct) [
        | err e ↦ record { written = out; reports = reports; result = err e }
        | ok plain ↦
            decrypt_loop fuel rest (index + 1) (plain_total + length plain) (out ++ plain)
              (report reports (min (total - length rest) total) total)
      ]
    ]

    -- The v1 format: one ciphertext up to the end of the file.
    unfoldable pub decrypt_v1 : Bytes → List (ℕ × ℕ) → Run
    decrypt_v1 cipher reports = elim (c.unseal aes_key nonce_base file_magic_v1 cipher) [
      | none ↦ record { written = []; reports = reports; result = err invalid_tag }
      | some plain ↦ record {
        written = plain;
        reports = report reports (min total total) total;
        result = ok (length plain);
      }
    ]

    -- The choice by the magic, after the key has been unwrapped and the first report made.
    unfoldable pub decrypt_body : Bytes → Bytes → List (ℕ × ℕ) → Run
    decrypt_body magic rest reports =
        if magic == file_magic_v2
        then decrypt_loop (suc (length rest)) rest 0 0 [] reports
        else if magic == file_magic_v1
        then decrypt_v1 rest reports
        else record { written = []; reports = reports; result = err bad_file_magic }

  unfoldable pub unwrap : Bytes → Result Fault Bytes
  unwrap rsa_blob = elim (c.rsa_decrypt rsa_blob) [
    | none ↦ err rsa_failed
    | some wrap ↦ if ltb (length wrap) 44 then err bad_key_material else ok wrap
  ]

  unfoldable pub open_head : Bytes → Result Fault (Head × Bytes)
  open_head source = do head ← read_head source; wrap ← unwrap head.rsa_blob; ok (head, wrap)

  -- `source` is the content of the blob.
  unfoldable pub decrypt_file : Bytes → Run
  decrypt_file source =
      let total = length source in
      elim (open_head source) [
        | err e ↦ record { written = []; reports = []; result = err e }
        | ok (head, wrap) ↦
            decrypt_body (take 32 wrap) (take 12 (drop 32 wrap)) total head.magic head.rest
              (report [] (min (total - length head.rest) total) total)
      ]
