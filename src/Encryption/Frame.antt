-- ===== src/Encryption/Frame.antt =====
-- The constants of encryption.py, its big-endian lengths, chunk nonces and associated data.
use aestor.Base.{
  ℕ, ◌+◌, ◌*◌, ◌/◌, ◌%◌, ◌^◌, ◌<◌, ◌≡◌, refl, ap, [], ◌∷◌, ◌++◌, length, take, drop, take-append,
  drop-append, ltb, leb, nat_beq, not, if◌then◌else◌, arith, lt→ltb,
}
use aestor.Base.Text.{codes}
use aestor.Base.Result.{Result, ok, err, ◌>>=◌}
use aestor.Encryption.Crypto.{Bytes}

-- The exceptions that encryption.py raises, by their place.
pub data Fault : Type 0 where
  nonce_base_size index_range struct_error : Fault
  truncated_blob ciphertext_truncated bad_key_material invalid_chunk_length : Fault
  bad_file_magic bad_line_magic malformed_line invalid_tag rsa_failed json_error : Fault
  out_of_fuel : Fault

abbrev pub file_magic_v1 : Bytes
file_magic_v1 = codes "AESTOR01"

abbrev pub file_magic_v2 : Bytes
file_magic_v2 = codes "AESTOR02"

abbrev pub line_magic : Bytes
line_magic = codes "AESTORL1"

abbrev pub chunk_size : ℕ
chunk_size = 512 * 1024

abbrev pub max_chunk_size : ℕ
max_chunk_size = 4 * 1024 * 1024

abbrev pub u32_limit : ℕ
u32_limit = 2 ^ 32

-- The four bytes of a number below 2³², the highest first.
unfoldable pub u32_bytes : ℕ → Bytes
u32_bytes n = n / 2 ^ 24 % 256 ∷ n / 2 ^ 16 % 256 ∷ n / 2 ^ 8 % 256 ∷ n % 256 ∷ []

-- `struct.pack(">I", n)`
unfoldable pub pack_u32 : ℕ → Result Fault Bytes
pack_u32 n = if ltb n u32_limit then ok (u32_bytes n) else err struct_error

-- `struct.unpack(">I", b)`
unfoldable pub unpack_u32 : Bytes → Result Fault ℕ
unpack_u32 (a ∷ b ∷ c ∷ d ∷ []) = ok (((a * 256 + b) * 256 + c) * 256 + d)
unpack_u32 _ = err struct_error

unfoldable pub chunk_nonce : Bytes → ℕ → Result Fault Bytes
unfolding pack_u32 u32_bytes
chunk_nonce nonce_base index =
    if not (nat_beq (length nonce_base) 12)
    then err nonce_base_size
    else if leb u32_limit index
    then err index_range
    else (do suffix ← pack_u32 index; ok (take 8 nonce_base ++ suffix))

unfoldable pub chunk_aad : Bytes → ℕ → Result Fault Bytes
unfolding pack_u32 u32_bytes
chunk_aad magic index = do suffix ← pack_u32 index; ok (magic ++ suffix)

-- `_read_exact`: the bytes read, and the bytes that are left.
unfoldable pub read_exact : Bytes → ℕ → Result Fault (Bytes × Bytes)
read_exact inp n =
    if not (nat_beq (length (take n inp)) n)
    then err truncated_blob
    else ok (take n inp, drop n inp)

pub length-u32_bytes : (n : ℕ) → length (u32_bytes n) ≡ 4
unfolding u32_bytes
length-u32_bytes n = refl

pub pack_u32-eq : (n : ℕ) → n < u32_limit → pack_u32 n ≡ ok (u32_bytes n)
unfolding pack_u32
pack_u32-eq n h = rw (lt→ltb n u32_limit h)

pub unpack_u32-bytes : (n : ℕ) → n < u32_limit → unpack_u32 (u32_bytes n) ≡ ok n
unfolding unpack_u32 u32_bytes
unpack_u32-bytes n h = ap ok (omega arith)

pub read_exact-append :
    (xs ys : Bytes) (n : ℕ) → n ≡ length xs → read_exact (xs ++ ys) n ≡ ok (xs, ys)
unfolding read_exact
read_exact-append xs ys n h = rw (take-append xs ys n h, drop-append xs ys n h) (ground arith)

-- The nonce and the data of chunk `index`, once it is known to be in range.
abbrev pub nonce_of : Bytes → ℕ → Bytes
nonce_of nonce_base index = take 8 nonce_base ++ u32_bytes index

abbrev pub aad_of : Bytes → ℕ → Bytes
aad_of magic index = magic ++ u32_bytes index

pub chunk_nonce-eq :
    (nonce_base : Bytes) (index : ℕ)
    → length nonce_base ≡ 12
    → index < u32_limit
    → chunk_nonce nonce_base index ≡ ok (nonce_of nonce_base index)
unfolding chunk_nonce
chunk_nonce-eq nonce_base index h lt = ground arith

pub chunk_aad-eq :
    (magic : Bytes) (index : ℕ)
    → index < u32_limit
    → chunk_aad magic index ≡ ok (aad_of magic index)
unfolding chunk_aad
chunk_aad-eq magic index lt = ground arith
