-- ===== src/Encryption/Crypto.antt =====
-- What encryption.py takes from the `cryptography` package and from `os.urandom`.
use aestor.Base.{ℕ, ◌+◌, ◌≡◌, Option, some, List, length}

abbrev pub Bytes : Type 0
Bytes = List ℕ

-- AES-256-GCM and RSA-OAEP with one key pair. `seal key nonce aad plain` is `AESGCM(key).encrypt`,
-- `unseal` is `decrypt` (`none` for `InvalidTag`), and the padding of `rsa_encrypt` draws on a seed.
pub record Crypto : Type 0 where
  pub seal : Bytes → Bytes → Bytes → Bytes → Bytes
  pub unseal : Bytes → Bytes → Bytes → Bytes → Option Bytes
  pub rsa_encrypt : ℕ → Bytes → Bytes
  pub rsa_decrypt : Bytes → Option Bytes

-- The documented behaviour: decryption inverts encryption, a sealed text is 16 bytes longer, and
-- GCM accepts a text only if sealing its result gives that text again.
pub record IsLawful (c : Crypto) : Type 0 where
  pub unseal-seal : (k n a p : Bytes) → c.unseal k n a (c.seal k n a p) ≡ some p
  pub seal-unseal : (k n a t p : Bytes) → c.unseal k n a t ≡ some p → c.seal k n a p ≡ t
  pub length-seal : (k n a p : Bytes) → length (c.seal k n a p) ≡ length p + 16
  pub decrypt-encrypt : (s : ℕ) (m : Bytes) → c.rsa_decrypt (c.rsa_encrypt s m) ≡ some m

-- The random values that one encryption draws.
pub record Entropy : Type 0 where
  pub aes_key : Bytes
  pub nonce_base : Bytes
  pub seed : ℕ

-- `AESGCM.generate_key(bit_length=256)` gives 32 bytes, and `os.urandom(12)` twelve.
pub record HasSizes (e : Entropy) : Type 0 where
  pub key_size : length e.aes_key ≡ 32
  pub nonce_size : length e.nonce_base ≡ 12
