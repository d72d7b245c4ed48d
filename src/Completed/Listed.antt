-- ===== src/Completed/Listed.antt =====
-- What `list_file_ids` of backend/app/services/store.py shows.
use mathlib.Core.List.{reverse, reverse_aux}
use aestor.Base.{
  ℕ, ◌≡◌, ◌≢◌, refl, ap, sym, ◌∙◌, Bool, true, false, ◌&&◌, Option, none, some, List, [], ◌∷◌, ◌++◌,
  All, map, length, arith, filter_by, is_empty, ◌==◌, list_eq, list_beq, nat_eq, eq_iff,
  nat_beq_iff, inl, inr, Bool-cases, Option-cases, if_rule, eq_refl, ◌≤◌,
}
use aestor.Base.Dict
use aestor.Base.Sort.{sort_desc, sort_desc-IsFalling, IsFalling, any_by, any_by-sort_desc}
use aestor.Base.Text.{Text, codes, ends_with, starts_with}
use aestor.Completed.Files.{Directory, manifest_name, meta_name, has_file}
use aestor.Pull.Names.{split_dot, stem_suffix}
use aestor.Completed.Listing.{FileRow, is_listed, row_of, list_file_ids}

abbrev pub has_name : Text → List Text → Bool
has_name x names = any_by (λ y. y == x) names

no_dot : (t : Text) → All (λ c. c ≢ 46) t → split_dot t ≡ none
unfolding split_dot
no_dot [] h = refl
no_dot (c ∷ t) (ne, h) = rw (no_dot t h) (ground (arith, nat_beq_iff c 46))

dotted : (t u : Text) → All (λ c. c ≢ 46) u → split_dot (t ++ 46 ∷ u) ≡ some (t, u)
unfolding split_dot
dotted [] u h = rw (no_dot u h) refl
dotted (c ∷ t) u h = rw (dotted t u h) refl

suffix-plain : (id : Text) → All (λ c. c ≢ 46) id → (stem_suffix id).1 ≡ []
unfolding stem_suffix
suffix-plain id h = rw (no_dot id h, stem_suffix) refl

suffix-meta_name :
    (id : Text) → is_empty id ≡ false → (stem_suffix (meta_name id)).1 ≡ codes ".json"
unfolding stem_suffix
suffix-meta_name id h = rw (dotted id (codes "json") (ground arith), stem_suffix) (rw h refl)

reverse_aux-All : (P : ℕ → Type 0) (s r : Text) → All P s → All P r → All P (reverse_aux s r)
reverse_aux-All P [] r a b = b
reverse_aux-All P (c ∷ s) r (h, a) b = reverse_aux-All P s (c ∷ r) a (h, b)

undotted_end : (t : Text) → All (λ c. c ≢ 46) t → starts_with t (codes "pmt.bd.") ≡ false
unfolding starts_with
undotted_end (a ∷ b ∷ c ∷ d ∷ t) h = ground (arith, nat_beq_iff d 46, h.1.1.1.0)
undotted_end (a ∷ b ∷ c ∷ []) h = ground arith
undotted_end (a ∷ b ∷ []) h = ground arith
undotted_end (a ∷ []) h = ground arith
undotted_end [] h = refl

undotted : (id name : Text) → All (λ c. c ≢ 46) id → split_dot name ≢ none → (id == name) ≡ false
undotted id name h dot =
    ground (arith, eq_iff id name, λ (e : id ≡ name). dot (sym (ap split_dot e) ∙ no_dot id h))

-- A name without a dot is shown, that of a duration is not.
plain-is_listed : (id : Text) → All (λ c. c ≢ 46) id → is_listed id ≡ true
unfolding is_listed ends_with list_beq
plain-is_listed id h =
    rw
      (
        suffix-plain id h,
        undotted id manifest_name h (unfold split_dot in λ e. cc),
        undotted id (codes "pair.json") h (unfold split_dot in λ e. cc),
        undotted_end (reverse id) (reverse_aux-All (λ c. c ≢ 46) id [] h tt),
      )
      refl

meta-is_listed : (id : Text) → is_empty id ≡ false → is_listed (meta_name id) ≡ false
unfolding is_listed list_beq
meta-is_listed id h = rw (suffix-meta_name id h) (ground arith)

manifest-is_listed : is_listed manifest_name ≡ false
unfolding is_listed list_beq
manifest-is_listed = refl

any_by-filter_by :
    (x : Text) (names : List Text)
    → has_name x (filter_by is_listed names) ≡ (is_listed x && has_name x names)
any_by-filter_by x [] = ground arith
any_by-filter_by x (y ∷ ys) =
    ground (arith, any_by-filter_by x ys, eq_iff y x, λ (e : y ≡ x). ap is_listed e)

names-get : (d : Directory) (x : Text) → has_name x (map (λ entry. entry.0) d) ≡ has_file d x
unfolding has_file Dict.get
names-get [] x = refl
names-get ((k, content) ∷ d) x = ground (arith, names-get d x)

All-has :
    (P : Text → Type 0) (names : List Text)
    → ((x : Text) → has_name x names ≡ true → P x)
    → All P names
All-has P [] h = tt
All-has P (x ∷ xs) h = (
  h x (rw (eq_refl x) refl),
  All-has P xs (λ y there.
      h y (if_rule (λ b. b ≡ true) (x == y) true (has_name y xs) (λ e. refl) (λ e. there))),
)

module _ {F : Type 0} (read_float : Text → Option F) (mtime : Text → ℕ) (d : Directory) where
  -- The row of `id` is among these.
  abbrev pub shows : List (FileRow F) → Text → Bool
  shows rows id = any_by (λ row. row.id == id) rows

  abbrev names_of : List Text
  names_of = filter_by is_listed (sort_desc mtime (map (λ entry. entry.0) d))

  All-filter :
      (P : Text → Type 0) (names : List Text) → All P names → All P (filter_by is_listed names)
  All-filter P [] all = tt
  All-filter P (x ∷ xs) (h, all) = elim (Bool-cases (is_listed x)) [
    | inl e ↦ rw e (h, All-filter P xs all)
    | inr e ↦ rw e (All-filter P xs all)
  ]

  IsFalling-filter :
      (names : List Text) → IsFalling mtime names → IsFalling mtime (filter_by is_listed names)
  IsFalling-filter [] f = tt
  IsFalling-filter (x ∷ xs) f = elim (Bool-cases (is_listed x)) [
    | inl e ↦ rw e (All-filter (λ y. mtime y ≤ mtime x) xs f.0, IsFalling-filter xs f.1)
    | inr e ↦ rw e (IsFalling-filter xs f.1)
  ]

  All-row_of :
      (P : FileRow F → Type 0) (names : List Text)
      → All (λ name. P (row_of read_float mtime d name)) names
      → All P (map (row_of read_float mtime d) names)
  All-row_of P [] all = tt
  All-row_of P (x ∷ xs) (h, all) = (h, All-row_of P xs all)

  IsFalling-row_of :
      (names : List Text)
      → IsFalling mtime names
      → IsFalling (λ (row : FileRow F). mtime row.id) (map (row_of read_float mtime d) names)
  unfolding row_of
  IsFalling-row_of [] f = tt
  IsFalling-row_of (x ∷ xs) f =
      (All-row_of (λ row. mtime row.id ≤ mtime x) xs f.0, IsFalling-row_of xs f.1)

  shows-row_of :
      (id : Text) (names : List Text)
      → shows (map (row_of read_float mtime d) names) id ≡ has_name id names
  unfolding row_of
  shows-row_of id [] = refl
  shows-row_of id (x ∷ xs) = rw (shows-row_of id xs) refl

  has_name-names_of : (id : Text) → has_name id names_of ≡ (is_listed id && has_file d id)
  has_name-names_of id =
      any_by-filter_by id (sort_desc mtime (map (λ entry. entry.0) d))
      ∙ ap (λ b. is_listed id && b)
          (any_by-sort_desc mtime (λ y. y == id) (map (λ entry. entry.0) d) ∙ names-get d id)

  has_file-content :
      (id : Text) → has_file d id ≡ true → (content : List ℕ) × (Dict.get d id ≡ some content)
  unfolding has_file
  has_file-content id h = elim (Option-cases (Dict.get d id)) [
    | inl e ↦ ground arith
    | inr found ↦ found
  ]

  -- `list_file_ids` shows the files from the last that was modified on, each with its size: every file
  -- whose name has no dot, as the ids have none; no file of a duration, and not the manifest.
  pub list_file_ids_lem :
      let rows = list_file_ids read_float mtime d in
      IsFalling (λ (row : FileRow F). mtime row.id) rows
      × All
          (λ row.
            (content : List ℕ) × (Dict.get d row.id ≡ some content)
            × (row.encrypted_size_bytes ≡ length content))
          rows
      × ((id : Text) → All (λ c. c ≢ 46) id → shows rows id ≡ has_file d id)
      × ((id : Text) → is_empty id ≡ false → shows rows (meta_name id) ≡ false)
      × (shows rows manifest_name ≡ false)
  unfolding list_file_ids row_of
  list_file_ids_lem =
      let shown = λ (id : Text). shows-row_of id names_of ∙ has_name-names_of id in
      (
        IsFalling-row_of names_of (
            IsFalling-filter (sort_desc mtime (map (λ entry. entry.0) d))
              (sort_desc-IsFalling mtime (map (λ entry. entry.0) d))),
        All-row_of _ names_of (
            All-has _ names_of (λ x there.
              let (content, got) = has_file-content x (ground (arith, has_name-names_of x)) in
              (content, got, rw got refl))),
        (λ id h. shown id ∙ rw (plain-is_listed id h) refl),
        (λ id h. shown (meta_name id) ∙ rw (meta-is_listed id h) refl),
        shown manifest_name ∙ rw manifest-is_listed refl,
      )
