-- ===== src/Base/Blanks.antt =====
-- Texts without a blank, and `strip` on texts with no blank at their ends.
use mathlib.Core.List.{reverse, reverse_aux, reverse-reverse, reverse-append}
use mathlib.Core.Path.{◌≡◌, refl, ap, ◌∙◌}
use mathlib.Core.Bool.{false}
use mathlib.Core.List.{[], ◌∷◌, ◌++◌}
use native.Mathlib.Omega.{arith}
use Prim.Native.Nat.{ℕ}
use aestor.Base.Lists.{All}
use aestor.Base.Text.{Text, is_space, lstrip, strip}

abbrev pub NoSpace : Text → Type 0
NoSpace t = All (λ c. is_space c ≡ false) t

-- The text is not empty, and its first code point is not a blank.
abbrev pub BeginsSolid : Text → Type 0
BeginsSolid t = (c : ℕ) × (s : Text) × (t ≡ c ∷ s) × (is_space c ≡ false)

reverse_aux-NoSpace : (s r : Text) → NoSpace s → NoSpace r → NoSpace (reverse_aux s r)
reverse_aux-NoSpace [] r a b = b
reverse_aux-NoSpace (c ∷ s) r (solid, a) b = reverse_aux-NoSpace s (c ∷ r) a (solid, b)

pub lstrip-BeginsSolid : (t : Text) → BeginsSolid t → lstrip t ≡ t
unfolding lstrip
lstrip-BeginsSolid t (c, s, e, solid) = rw e (rw solid refl)

lstrip-NoSpace : (t : Text) → NoSpace t → lstrip t ≡ t
unfolding lstrip
lstrip-NoSpace [] a = refl
lstrip-NoSpace (c ∷ t) (solid, a) = ground arith

pub strip-NoSpace : (t : Text) → NoSpace t → strip t ≡ t
unfolding strip
strip-NoSpace t a =
    ap (λ u. reverse (lstrip (reverse u))) (lstrip-NoSpace t a)
    ∙ ap reverse (lstrip-NoSpace (reverse t) (reverse_aux-NoSpace t [] a tt))
    ∙ reverse-reverse t

BeginsSolid-append : (t u : Text) → BeginsSolid t → BeginsSolid (t ++ u)
BeginsSolid-append t u (c, s, e, solid) = (c, s ++ u, ap (λ x. x ++ u) e, solid)

reverse_aux-BeginsSolid : (t r : Text) → NoSpace t → BeginsSolid r → BeginsSolid (reverse_aux t r)
reverse_aux-BeginsSolid [] r a b = b
reverse_aux-BeginsSolid (c ∷ t) r (solid, a) b =
    reverse_aux-BeginsSolid t (c ∷ r) a (c, r, refl, solid)

-- A text between two that are not empty and have no blanks is kept by `strip`.
pub strip-between :
    (c d : ℕ) (s m t : Text)
    → NoSpace (c ∷ s)
    → NoSpace (d ∷ t)
    → strip ((c ∷ s) ++ m ++ d ∷ t) ≡ (c ∷ s) ++ m ++ d ∷ t
unfolding strip
strip-between c d s m t a b =
    let whole = (c ∷ s) ++ m ++ d ∷ t in
    let last = reverse_aux-BeginsSolid t (d ∷ []) b.1 (d, [], refl, b.0) in
    let back : BeginsSolid (reverse whole) =
      rw (reverse-append ((c ∷ s) ++ m) (d ∷ t))
        (BeginsSolid-append (reverse (d ∷ t)) (reverse ((c ∷ s) ++ m)) last) in
    ap (λ u. reverse (lstrip (reverse u)))
      (lstrip-BeginsSolid whole (c, s ++ m ++ d ∷ t, refl, a.0))
    ∙ ap reverse (lstrip-BeginsSolid (reverse whole) back)
    ∙ reverse-reverse whole
