-- ===== src/Encryption/Chunks.antt =====
-- The parts that successive reads of a file give, as `encrypt_file` makes them.
use aestor.Base.{
  ℕ, zero, suc, ◌+◌, ◌*◌, ◌≤◌, ◌<◌, ◌≡◌, refl, ap, true, false, List, [], ◌∷◌, ◌++◌, All, length,
  take, drop, is_empty, take-append-drop, length-take, length-drop, take-zero, take-cons, take-add,
  arith,
}
use native.Mathlib.Nat.{zero-mul as zero_mul}
use aestor.Encryption.Crypto.{Bytes}
use aestor.Encryption.Frame.{chunk_size, max_chunk_size}

-- Reads of at most `chunk_size` bytes, up to the first that gives none.
pub chunks : ℕ → Bytes → List Bytes
chunks zero inp = []
chunks (suc fuel) inp =
    let rest = chunks fuel (drop chunk_size inp) in
    elim (is_empty (take chunk_size inp)) [ true ↦ [] | false ↦ take chunk_size inp ∷ rest ]

abbrev pub concat : List Bytes → Bytes
concat [] = []
concat (x ∷ xs) = x ++ concat xs

pub chunks-nil : (fuel : ℕ) → chunks fuel [] ≡ []
unfolding chunks take
chunks-nil zero = refl
chunks-nil (suc fuel) = refl

pub chunks-cons :
    (fuel b : ℕ) (inp : Bytes)
    → chunks (suc fuel) (b ∷ inp)
      ≡ take chunk_size (b ∷ inp) ∷ chunks fuel (drop chunk_size (b ∷ inp))
unfolding chunks take
chunks-cons fuel b inp = refl

-- The parts put together are the file.
pub concat-chunks : (fuel : ℕ) (inp : Bytes) → length inp < fuel → concat (chunks fuel inp) ≡ inp
concat-chunks zero inp h = absurd (omega arith)
concat-chunks (suc fuel) [] h = rw chunks-nil refl
concat-chunks (suc fuel) (b ∷ inp) h = rw chunks-cons (
    rw (concat-chunks fuel (drop chunk_size (b ∷ inp)) (omega (arith, length-drop {0})))
      (take-append-drop chunk_size (b ∷ inp)))

abbrev pub IsSmall : Bytes → Type 0
IsSmall chunk = length chunk ≤ max_chunk_size

pub chunks-IsSmall : (fuel : ℕ) (inp : Bytes) → All IsSmall (chunks fuel inp)
chunks-IsSmall zero inp = unfold chunks in tt
chunks-IsSmall (suc fuel) [] = rw chunks-nil tt
chunks-IsSmall (suc fuel) (b ∷ inp) = rw chunks-cons (
  omega (arith, length-take chunk_size (b ∷ inp)),
  chunks-IsSmall fuel (drop chunk_size (b ∷ inp)),
)

-- All parts but the last are full.
pub length-chunks :
    (fuel : ℕ) (inp : Bytes) → chunk_size * length (chunks fuel inp) < length inp + chunk_size
length-chunks zero inp = unfold chunks in omega arith
length-chunks (suc fuel) [] = rw chunks-nil (omega arith)
length-chunks (suc fuel) (b ∷ inp) = rw chunks-cons (
    omega (arith, length-drop chunk_size (b ∷ inp), length-chunks fuel (drop chunk_size (b ∷ inp))))

-- The first `n` parts of a file that has as many full ones.
pub take-chunks :
    (n fuel : ℕ) (inp : Bytes)
    → length inp < fuel
    → n * chunk_size ≤ length inp
    → (concat (take n (chunks fuel inp)) ≡ take (n * chunk_size) inp)
      × (length (take n (chunks fuel inp)) ≡ n)
take-chunks zero fuel inp h m = rw take-zero (rw (zero_mul, take-zero) (refl, refl))
take-chunks (suc n) zero inp h m = absurd (omega arith)
take-chunks (suc n) (suc fuel) [] h m = absurd (omega arith)
take-chunks (suc n) (suc fuel) (b ∷ inp) h m =
    let rest = drop chunk_size (b ∷ inp) in
    let ih =
      take-chunks n fuel rest (omega (arith, length-drop chunk_size (b ∷ inp)))
        (omega (arith, length-drop chunk_size (b ∷ inp))) in
    rw chunks-cons (
      rw take-cons (
        rw (ih.0)
            (take-add chunk_size (n * chunk_size) (suc n * chunk_size) (b ∷ inp) (omega arith)),
        ap suc ih.1,
      ))

-- No read is wasted.
pub le-length-chunks :
    (fuel : ℕ) (inp : Bytes)
    → length inp < fuel
    → length inp ≤ chunk_size * length (chunks fuel inp)
le-length-chunks zero inp h = absurd (omega arith)
le-length-chunks (suc fuel) [] h = rw chunks-nil (omega arith)
le-length-chunks (suc fuel) (b ∷ inp) h = rw chunks-cons (
    omega (
      arith,
      length-drop chunk_size (b ∷ inp),
      le-length-chunks fuel (drop chunk_size (b ∷ inp))
          (omega (arith, length-drop chunk_size (b ∷ inp))),
    ))
