-- ===== src/Encryption/Tests.antt =====
-- A toy instance of the cipher interface, and the theorems on files at concrete data.
use aestor.Base.Blanks.{NoSpace, strip-NoSpace}
use aestor.Base.{
  ℕ, map, false, ap, zero, suc, ◌+◌, ◌-◌, ◌*◌, ◌≡◌, refl, Option, none, some, [], ◌∷◌, ◌++◌, length,
  take, if◌then◌else◌, ◌==◌, list_eq, nat_eq, eq_iff, eq_refl, length-append, take-append, arith,
}
use aestor.Base.Result.{ok}
use aestor.Encryption.Crypto.{Bytes, Crypto, IsLawful, Entropy, HasSizes}
use aestor.Encryption.Frame.{chunk_size}
use aestor.Encryption.Encrypt.{encrypt_file}
use aestor.Encryption.Decrypt.{decrypt_file}
use aestor.Encryption.Loops.{Wrote}
use aestor.Base.Text.{Text, is_space}
use aestor.Encryption.ManifestLine.{
  Codec, IsExact, encrypt_manifest_payload, decrypt_manifest_line, decrypt-encrypt_line,
}
use aestor.Encryption.Files.{decrypt-encrypt, decrypt_cut}

abbrev pub toy_tag : Bytes
toy_tag = 0 ∷ 1 ∷ 2 ∷ 3 ∷ 4 ∷ 5 ∷ 6 ∷ 7 ∷ 8 ∷ 9 ∷ 10 ∷ 11 ∷ 12 ∷ 13 ∷ 14 ∷ 15 ∷ []

unfoldable pub toy_unseal : Bytes → Option Bytes
toy_unseal t = let p = take (length t - 16) t in if p ++ toy_tag == t then some p else none

abbrev pub toy : Crypto
toy = record {
  seal = λ k n a p. p ++ toy_tag;
  unseal = λ k n a t. toy_unseal t;
  rsa_encrypt = λ s m. m;
  rsa_decrypt = some;
}

toy_unseal-seal : (p : Bytes) → toy_unseal (p ++ toy_tag) ≡ some p
unfolding toy_unseal
toy_unseal-seal p =
    rw (take-append p toy_tag (length (p ++ toy_tag) - 16) (omega (arith, length-append p toy_tag)))
      (rw (eq_refl (p ++ toy_tag)) refl)

toy_seal-unseal : (t p : Bytes) → toy_unseal t ≡ some p → p ++ toy_tag ≡ t
unfolding toy_unseal
toy_seal-unseal t p h = ground (arith, eq_iff (take (length t - 16) t ++ toy_tag) t)

pub toy-IsLawful : IsLawful toy
toy-IsLawful = record {
  unseal-seal = λ k n a p. toy_unseal-seal p;
  seal-unseal = λ k n a t p h. toy_seal-unseal t p h;
  length-seal = λ k n a p. length-append p toy_tag;
  decrypt-encrypt = λ s m. refl;
}

unfoldable pub filled : ℕ → ℕ → Bytes
filled zero b = []
filled (suc n) b = b ∷ filled n b

length-filled : (n b : ℕ) → length (filled n b) ≡ n
unfolding filled
length-filled zero b = refl
length-filled (suc n) b = omega (arith, length-filled n b)

-- One full chunk and a rest.
source : Bytes
source = filled (chunk_size + 5) 7

length-source : length source ≡ 524293
unfolding source
length-source = length-filled (chunk_size + 5) 7

abbrev pub drawn : Entropy
drawn = record { aes_key = filled 32 1; nonce_base = filled 12 2; seed = 0 }

pub drawn-HasSizes : HasSizes drawn
drawn-HasSizes = record { key_size = length-filled 32 1; nonce_size = length-filled 12 2 }

pub key-fits : length (filled 32 1 ++ filled 12 2) ≡ 44
unfolding filled
key-fits = refl

decrypt-encrypt_example :
    ((encrypt_file toy drawn source).result ≡ ok (length (encrypt_file toy drawn source).written))
    × Wrote (decrypt_file toy (encrypt_file toy drawn source).written) source (length source)
decrypt-encrypt_example =
    decrypt-encrypt toy toy-IsLawful drawn drawn-HasSizes (omega (arith, key-fits)) source
      (omega (arith, length-source))

decrypt_cut_example :
    Wrote
      (decrypt_file toy (
        take
          (12 + length (filled 32 1 ++ filled 12 2) + 1 * (chunk_size + 20))
          (encrypt_file toy drawn source).written))
      (take (1 * chunk_size) source)
      (1 * chunk_size)
decrypt_cut_example =
    decrypt_cut toy toy-IsLawful drawn drawn-HasSizes (omega (arith, key-fits)) source
      (omega (arith, length-source)) 1 (omega (arith, length-source))

-- Base64 as a shift of every byte into letters, and JSON as the text itself.
abbrev letters : Bytes → Text
letters = map (λ b. b + 20000)

abbrev bytes_of : Text → Bytes
bytes_of = map (λ c. c - 20000)

abbrev plain_codec : Codec Text
plain_codec = record {
  dumps = λ p. p;
  loads = some;
  b64encode = letters;
  b64decode = λ t. some (bytes_of t);
}

bytes_of-letters : (b : Bytes) → bytes_of (letters b) ≡ b
bytes_of-letters [] = refl
bytes_of-letters (x ∷ b) = rw (bytes_of-letters b) (ap (λ y. y ∷ b) (omega arith))

letter-is_space : (b : ℕ) → is_space (b + 20000) ≡ false
unfolding is_space
letter-is_space b = ground arith

letters-NoSpace : (b : Bytes) → NoSpace (letters b)
letters-NoSpace [] = tt
letters-NoSpace (x ∷ b) = (letter-is_space x, letters-NoSpace b)

plain_codec-IsExact : IsExact Text plain_codec
plain_codec-IsExact = record {
  loads-dumps = λ p. refl;
  decode-encode = λ b. ap some (bytes_of-letters b);
  strip-encode = λ b. strip-NoSpace (letters b) (letters-NoSpace b);
}

decrypt-encrypt_line_example :
    (line : Text) × (encrypt_manifest_payload plain_codec toy drawn (7 ∷ 8 ∷ []) ≡ ok line)
    × (decrypt_manifest_line plain_codec toy line ≡ ok (7 ∷ 8 ∷ []))
decrypt-encrypt_line_example =
    decrypt-encrypt_line plain_codec toy toy-IsLawful plain_codec-IsExact drawn drawn-HasSizes
      (7 ∷ 8 ∷ []) (omega (arith, key-fits))
