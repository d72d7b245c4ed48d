-- ===== src/Pull/SafeName.antt =====
-- The names that `_safe_name` and `_unique_path` of scripts/pull.py give are names of plain files.
use mathlib.Core.List.{reverse, reverse_aux, reverse-append, reverse-reverse}
use aestor.Base.{
  ℕ, zero, suc, ◌+◌, ◌/◌, ◌%◌, ◌<◌, ◌≡◌, ◌≢◌, refl, ap, sym, ◌∙◌, inl, inr, Bool, true, false, none,
  some, Option-cases, List, [], ◌∷◌, ◌++◌, All, length, arith, append-nil, if◌then◌else◌, nat_beq,
}
use aestor.Base.Text.{Text, strip}
use aestor.Jobs.Record.{or_text}
use aestor.Pull.Names.{
  digits_before, decimal, lstrip_by, strip_by, is_safe, sub_unsafe, is_edge, path_name, safe_name,
  split_dot, stem_suffix, candidate, unique_path,
}
use aestor.Pull.Fresh.{Lists, unique_path-ends}

abbrev NoSlash : Text → Type 0
NoSlash t = All (λ c. c ≢ 47) t

-- A name with no slash that does not begin with a dot, so that it is in the directory and not hidden.
abbrev pub IsFileName : Text → Type 0
IsFileName t = NoSlash t × ((c : ℕ) × (s : Text) × (t ≡ c ∷ s) × (c ≢ 46))

NoSlash-append : (s t : Text) → NoSlash s → NoSlash t → NoSlash (s ++ t)
NoSlash-append [] t a b = b
NoSlash-append (c ∷ s) t a b = (a.0, NoSlash-append s t a.1 b)

NoSlash-front : (s t : Text) → NoSlash (s ++ t) → NoSlash s
NoSlash-front [] t a = tt
NoSlash-front (c ∷ s) t a = (a.0, NoSlash-front s t a.1)

NoSlash-back : (s t : Text) → NoSlash (s ++ t) → NoSlash t
NoSlash-back [] t a = a
NoSlash-back (c ∷ s) t a = NoSlash-back s t a.1

reverse_aux-NoSlash : (s r : Text) → NoSlash s → NoSlash r → NoSlash (reverse_aux s r)
reverse_aux-NoSlash [] r a b = b
reverse_aux-NoSlash (c ∷ s) r a b = reverse_aux-NoSlash s (c ∷ r) a.1 (a.0, b)

-- `lstrip` cuts a front off, and what is left does not begin with a character that it strips.
lstrip_by-back : (p : ℕ → Bool) (s : Text) → (cut : Text) × (cut ++ lstrip_by p s ≡ s)
unfolding lstrip_by
lstrip_by-back p [] = ([], refl)
lstrip_by-back p (c ∷ s) =
    elim (p c) as (λ b. (cut : Text) × (cut ++ (if b then lstrip_by p s else c ∷ s) ≡ c ∷ s)) [
      | true ↦ let (cut, e) = lstrip_by-back p s in (c ∷ cut, ap (◌∷◌ c) e)
      | false ↦ ([], refl)
    ]

lstrip_by-head : (p : ℕ → Bool) (s : Text) (c : ℕ) (t : Text) → lstrip_by p s ≡ c ∷ t → p c ≡ false
unfolding lstrip_by
lstrip_by-head p [] c t h = cc
lstrip_by-head p (d ∷ s) c t h = ground (arith, lstrip_by-head p s c t)

strip_by-front : (p : ℕ → Bool) (s : Text) → (cut : Text) × (strip_by p s ++ cut ≡ lstrip_by p s)
unfolding strip_by
strip_by-front p s =
    let u = lstrip_by p s in
    let (cut, e) = lstrip_by-back p (reverse u) in
    (
      reverse cut,
      sym (reverse-append cut (lstrip_by p (reverse u))) ∙ ap reverse e ∙ reverse-reverse u,
    )

strip_by-head : (p : ℕ → Bool) (s : Text) (c : ℕ) (t : Text) → strip_by p s ≡ c ∷ t → p c ≡ false
strip_by-head p s c t h =
    let (cut, e) = strip_by-front p s in
    lstrip_by-head p s c (t ++ cut) (sym e ∙ ap (λ x. x ++ cut) h)

strip_by-NoSlash : (p : ℕ → Bool) (s : Text) → NoSlash s → NoSlash (strip_by p s)
strip_by-NoSlash p s a =
    let (cut, e) = lstrip_by-back p s in
    let (cut', e') = strip_by-front p s in
    NoSlash-front (strip_by p s) cut' (rw e' (NoSlash-back cut (lstrip_by p s) (rw e a)))

or_text-IsFileName :
    (t fallback : Text)
    → NoSlash t
    → ((c : ℕ) (s : Text) → t ≡ c ∷ s → is_edge c ≡ false)
    → IsFileName fallback
    → IsFileName (or_text t fallback)
or_text-IsFileName [] fallback a head h = h
or_text-IsFileName (c ∷ s) fallback a head h =
    (a, (c, s, refl, λ e. cc (head c s refl, ap is_edge e)))

split_dot-eq : (t : Text) (p : Text × Text) → split_dot t ≡ some p → t ≡ p.0 ++ 46 ∷ p.1
unfolding split_dot
split_dot-eq [] p h = cc
split_dot-eq (c ∷ s) p h = elim (Option-cases (split_dot s)) [
  | inl e ↦
      let h' : (if nat_beq c 46 then some ([], s) else none) ≡ some p = rw (e, split_dot) at h in
      ground arith
  | inr (q, e) ↦
      let h' : some (c ∷ q.0, q.1) ≡ some p = rw (e, split_dot) at h in
      let later = split_dot-eq s q e in ground arith
]

-- The stem and the suffix are the name, and the stem begins it.
abbrev Splits : Text → Text × Text → Type 0
Splits t p = (p.0 ++ p.1 ≡ t) × ((c : ℕ) (s : Text) → t ≡ c ∷ s → (r : Text) × (p.0 ≡ c ∷ r))

stem_suffix-Splits : (t : Text) → Splits t (stem_suffix t)
unfolding stem_suffix
stem_suffix-Splits t = elim (Option-cases (split_dot t)) [
  | inl e ↦ rw (e, stem_suffix) (append-nil t, λ c s h. (s, h))
  | inr (([], b), e) ↦ rw (e, stem_suffix) (append-nil t, λ c s h. (s, h))
  | inr ((a ∷ front, []), e) ↦ rw (e, stem_suffix) (append-nil t, λ c s h. (s, h))
  | inr ((a ∷ front, b ∷ back), e) ↦
      let whole = split_dot-eq t (a ∷ front, b ∷ back) e in
      rw (e, stem_suffix) (sym whole, λ c s h. (front, cc (sym whole ∙ h)))
]

digits_before-NoSlash :
    (fuel n : ℕ) (later : Text) → NoSlash later → NoSlash (digits_before fuel n later)
unfolding digits_before
digits_before-NoSlash zero n later a = a
digits_before-NoSlash (suc fuel) n later a =
    ground (arith, digits_before-NoSlash fuel (n / 10) ((48 + n % 10) ∷ later))

candidate-IsFileName : (t : Text) (n : ℕ) → IsFileName t → IsFileName (candidate t n)
unfolding candidate
candidate-IsFileName t n (a, (c, s, e, dot)) =
    let (whole, front) = stem_suffix-Splits t in
    let parts = stem_suffix t in
    let (r, e') = front c s e in
    (
      NoSlash-append parts.0 (45 ∷ (decimal n ++ parts.1))
          (NoSlash-front parts.0 parts.1 (rw whole a))
          (
            omega arith,
            NoSlash-append (decimal n) parts.1 (digits_before-NoSlash (suc n) n [] tt)
                (NoSlash-back parts.0 parts.1 (rw whole a)),
          ),
      (c, r ++ 45 ∷ (decimal n ++ parts.1), ap (λ x. x ++ 45 ∷ (decimal n ++ parts.1)) e', dot),
    )

module _ (is_word : ℕ → Bool) (word : is_word 47 ≡ false) where
  is_safe-slash : (c : ℕ) → is_safe is_word c ≡ true → c ≢ 47
  unfolding is_safe
  is_safe-slash c h e = ground (arith, rw e at h)

  sub_unsafe-NoSlash : (in_run : Bool) (s : Text) → NoSlash (sub_unsafe is_word in_run s)
  unfolding sub_unsafe
  sub_unsafe-NoSlash in_run [] = tt
  sub_unsafe-NoSlash in_run (c ∷ s) =
      ground (arith, is_safe-slash c, sub_unsafe-NoSlash true s, sub_unsafe-NoSlash false s)

  pub safe_name-IsFileName :
      (name fallback : Text) → IsFileName fallback → IsFileName (safe_name is_word name fallback)
  unfolding safe_name
  safe_name-IsFileName name fallback h =
      let cleaned = sub_unsafe is_word false (or_text (strip (path_name name)) fallback) in
      or_text-IsFileName (strip_by is_edge cleaned) fallback
        (strip_by-NoSlash is_edge cleaned (sub_unsafe-NoSlash false _))
        (strip_by-head is_edge cleaned) h

  -- Where `\w` does not match a slash: for every name that the server gives and a file name to fall
  -- back to, with more fuel than there are names in the directory, the client takes a name that is free
  -- there, that has no slash and that does not begin with a dot.
  pub unique_path-safe_name :
      (exists : Text → Bool) (names : List Text) (fuel : ℕ) (name fallback : Text)
      → Lists names exists
      → length names < fuel
      → IsFileName fallback
      → (t : Text) × (unique_path exists fuel (safe_name is_word name fallback) ≡ some t)
        × (exists t ≡ false)
        × IsFileName t
  unique_path-safe_name exists names fuel name fallback lists lt h =
      let safe = safe_name is_word name fallback in
      let whole = safe_name-IsFileName name fallback h in
      let (t, found, free, which) = unique_path-ends exists names fuel safe lists lt in
      elim which [
        | inl e ↦ (t, found, free, rw e whole)
        | inr (k, e) ↦ (t, found, free, rw e (candidate-IsFileName safe k whole))
      ]
