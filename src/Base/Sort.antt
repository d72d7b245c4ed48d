-- ===== src/Base/Sort.antt =====
-- Python's `sorted(…, key=…, reverse=True)`: by falling key, equal keys in their first order.
use mathlib.Core.List.{Perm}
use mathlib.Core.List.Perm
use Prim.Native.Nat.{ℕ, ◌≤◌}
use mathlib.Core.Logic.{inl, inr}
use mathlib.Core.List.{List, [], ◌∷◌}
use native.Mathlib.Omega.{arith}
use mathlib.Core.Path.{◌≡◌, refl, ◌∙◌}
use mathlib.Core.Bool.{Bool, true, false}
use aestor.Base.Tests.{leb, Bool-cases, if◌then◌else◌}
use aestor.Base.Lists.{All}

module _ {ℓ} {A : Type ℓ} where
  abbrev pub any_by : (A → Bool) → List A → Bool
  any_by p [] = false
  any_by p (x ∷ xs) = let rest = any_by p xs in if p x then true else rest

module _ {ℓ} {A : Type ℓ} (key : A → ℕ) where
  unfoldable pub insert_desc : A → List A → List A
  insert_desc x [] = x ∷ []
  insert_desc x (y ∷ ys) =
      let later = insert_desc x ys in if leb (key y) (key x) then x ∷ y ∷ ys else y ∷ later

  unfoldable pub sort_desc : List A → List A
  unfolding insert_desc
  sort_desc [] = []
  sort_desc (x ∷ xs) = insert_desc x (sort_desc xs)

  -- No item has a later one with a larger key.
  abbrev pub IsFalling : List A → Type 0
  IsFalling [] = Unit
  IsFalling (x ∷ xs) = All (λ y. key y ≤ key x) xs × IsFalling xs

  perm-insert_desc : (x : A) (ys : List A) → Perm (insert_desc x ys) (x ∷ ys)
  unfolding insert_desc
  perm-insert_desc x [] = Perm.refl (x ∷ [])
  perm-insert_desc x (y ∷ ys) = elim (Bool-cases (leb (key y) (key x))) [
    | inl e ↦ rw e (Perm.refl (x ∷ y ∷ ys))
    | inr e ↦ rw e (Perm.trans (Perm.cons y (perm-insert_desc x ys)) (Perm.swap x y ys))
  ]

  pub perm-sort_desc : (xs : List A) → Perm (sort_desc xs) xs
  unfolding sort_desc
  perm-sort_desc [] = Perm.refl []
  perm-sort_desc (x ∷ xs) =
      Perm.trans (perm-insert_desc x (sort_desc xs)) (Perm.cons x (perm-sort_desc xs))

  All-le : (a b : ℕ) (xs : List A) → a ≤ b → All (λ y. key y ≤ a) xs → All (λ y. key y ≤ b) xs
  All-le a b [] h all = tt
  All-le a b (x ∷ xs) h all = (omega arith, All-le a b xs h all.1)

  All-insert_desc :
      (n : ℕ) (x : A) (ys : List A)
      → key x ≤ n
      → All (λ y. key y ≤ n) ys
      → All (λ y. key y ≤ n) (insert_desc x ys)
  unfolding insert_desc
  All-insert_desc n x [] h all = (h, tt)
  All-insert_desc n x (y ∷ ys) h all = elim (Bool-cases (leb (key y) (key x))) [
    | inl e ↦ rw e (h, all)
    | inr e ↦ rw e (all.0, All-insert_desc n x ys h all.1)
  ]

  insert_desc-IsFalling : (x : A) (ys : List A) → IsFalling ys → IsFalling (insert_desc x ys)
  unfolding insert_desc
  insert_desc-IsFalling x [] f = (tt, tt)
  insert_desc-IsFalling x (y ∷ ys) f = elim (Bool-cases (leb (key y) (key x))) [
    | inl e ↦
        let le : key y ≤ key x = ground arith in rw e ((le, All-le (key y) (key x) ys le f.0), f)
    | inr e ↦ rw e (All-insert_desc (key y) x ys (ground arith) f.0, insert_desc-IsFalling x ys f.1)
  ]

  pub sort_desc-IsFalling : (xs : List A) → IsFalling (sort_desc xs)
  unfolding sort_desc
  sort_desc-IsFalling [] = tt
  sort_desc-IsFalling (x ∷ xs) = insert_desc-IsFalling x (sort_desc xs) (sort_desc-IsFalling xs)

  any_by-insert_desc :
      (p : A → Bool) (x : A) (ys : List A) → any_by p (insert_desc x ys) ≡ any_by p (x ∷ ys)
  unfolding insert_desc
  any_by-insert_desc p x [] = refl
  any_by-insert_desc p x (y ∷ ys) = ground (arith, any_by-insert_desc p x ys)

  -- Sorting keeps the items.
  pub any_by-sort_desc : (p : A → Bool) (xs : List A) → any_by p (sort_desc xs) ≡ any_by p xs
  unfolding sort_desc
  any_by-sort_desc p [] = refl
  any_by-sort_desc p (x ∷ xs) =
      any_by-insert_desc p x (sort_desc xs) ∙ ground (arith, any_by-sort_desc p xs)
