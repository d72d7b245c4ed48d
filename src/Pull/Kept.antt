-- ===== src/Pull/Kept.antt =====
-- What `process_one` of scripts/pull.py leaves in the output directory and in the one for blobs.
use aestor.Base.{
  ℕ, ◌+◌, ◌-◌, ◌≡◌, ◌≢◌, refl, ap, inl, inr, true, none, some, Option-cases, List, [], ◌∷◌, ◌++◌,
  length, if◌then◌else◌, eq_iff, eq_refl, list_eq, nat_eq, arith, length-append,
}
use aestor.Base.Dict
use aestor.Base.Dict.{Dict}
use aestor.Base.Text.{Text, codes}
use aestor.Encryption.Crypto.{Bytes}
use aestor.Jobs.Record.{FilePath, Floats}
use aestor.Pull.Client.{Outside, Puller, Client}
use aestor.Pull.Outcome.{Leaves, attempt-Leaves}
use aestor.Pull.Fresh.{has_name, Lists, unique_path-ends}
use aestor.Pull.Names.{last_part, safe_name, unique_path}
use aestor.Pull.Paths.{IsPart, join-part}
use aestor.Pull.Process.{Setup, has_dir, exists_in, path_fuel, process_one}

last_part-snoc : (found : Text) (path : FilePath) (t : Text) → last_part found (path ++ t ∷ []) ≡ t
unfolding last_part
last_part-snoc found [] t = refl
last_part-snoc found (l ∷ path) t = last_part-snoc l path t

has_name-append :
    (ls ks : List Text) (t : Text)
    → has_name (ls ++ ks) t ≡ (if has_name ls t then true else has_name ks t)
unfolding has_name
has_name-append [] ks t = refl
has_name-append (l ∷ ls) ks t = ground (arith, has_name-append ls ks t)

-- The last parts of the paths of files and of directories.
file_names : Dict FilePath Bytes → List Text
file_names [] = []
file_names ((path, content) ∷ files) = last_part [] path ∷ file_names files

dir_names : List FilePath → List Text
dir_names [] = []
dir_names (path ∷ dirs) = last_part [] path ∷ dir_names dirs

length-file_names : (files : Dict FilePath Bytes) → length (file_names files) ≡ length files
unfolding file_names
length-file_names [] = refl
length-file_names (entry ∷ files) = omega (arith, length-file_names files)

length-dir_names : (dirs : List FilePath) → length (dir_names dirs) ≡ length dirs
unfolding dir_names
length-dir_names [] = refl
length-dir_names (path ∷ dirs) = omega (arith, length-dir_names dirs)

has_name-file_names :
    (files : Dict FilePath Bytes) (path : FilePath) (content : Bytes)
    → Dict.get files path ≡ some content
    → has_name (file_names files) (last_part [] path) ≡ true
unfolding Dict.get file_names has_name
has_name-file_names [] path content h = cc
has_name-file_names ((p, x) ∷ files) path content h = ground (
  arith,
  eq_iff p path,
  has_name-file_names files path content,
  eq_refl (last_part [] path),
  λ (e : p ≡ path). ap (last_part []) e,
)

has_name-dir_names :
    (dirs : List FilePath) (path : FilePath)
    → has_dir dirs path ≡ true
    → has_name (dir_names dirs) (last_part [] path) ≡ true
unfolding has_dir dir_names has_name
has_name-dir_names [] path h = cc
has_name-dir_names (p ∷ dirs) path h = ground (
  arith,
  eq_iff p path,
  has_name-dir_names dirs path,
  eq_refl (last_part [] path),
  λ (e : p ≡ path). ap (last_part []) e,
)

module _ {S : Type 0} (s : Puller S) (out_dir : FilePath) where
  names_at : List Text
  names_at = file_names s.files ++ dir_names s.dirs

  names_at-Lists : Lists names_at (exists_in s out_dir)
  unfolding exists_in names_at
  names_at-Lists t h =
      let path = out_dir ++ t ∷ [] in
      let last = last_part-snoc [] out_dir t in
      let joined = has_name-append (file_names s.files) (dir_names s.dirs) t in
      elim (Option-cases (Dict.get s.files path)) [
        | inl e ↦
            let h' : has_dir s.dirs path ≡ true = rw (e, exists_in) at h in
            let there = has_name-dir_names s.dirs path h' in
            let there' : has_name (dir_names s.dirs) t ≡ true = rw last at there in ground arith
        | inr (content, e) ↦
            let there = has_name-file_names s.files path content e in
            let there' : has_name (file_names s.files) t ≡ true = rw last at there in ground arith
      ]

  -- The name for a new file is found, and there is no file under it.
  pub place :
      (filename : Text)
      → (t : Text) × (unique_path (exists_in s out_dir) (path_fuel s) filename ≡ some t)
        × (Dict.get s.files (out_dir ++ t ∷ []) ≡ none)
  unfolding path_fuel exists_in names_at
  place filename =
      let (t, found, free, which) =
        unique_path-ends (exists_in s out_dir) names_at (path_fuel s) filename names_at-Lists (
          omega (
            arith,
            length-append (file_names s.files) (dir_names s.dirs),
            length-file_names s.files,
            length-dir_names s.dirs,
          )) in
      (t, found, ground arith)

abbrev pub tmp_dir : FilePath → FilePath
tmp_dir out_dir = out_dir ++ codes ".tmp" ∷ []

-- No file of the output directory is one of the directory for blobs.
pub tmp_dir-out_dir :
    (out_dir : FilePath) (id t : Text) → tmp_dir out_dir ++ id ∷ [] ≢ out_dir ++ t ∷ []
tmp_dir-out_dir out_dir id t e = omega (
  arith,
  ap length e,
  length-append (tmp_dir out_dir) (id ∷ []),
  length-append out_dir (codes ".tmp" ∷ []),
  length-append out_dir (t ∷ []),
)

module _ (fl : Floats) {S : Type 0} (o : Outside (fl.F) S) (c : Client) (setup : Setup)
    (out_dir : FilePath) where
  -- For an id that is one part of a path, a client that keeps blobs in ".tmp" of its output directory,
  -- and whatever else the server answers and whichever step fails: after `process_one` the blob is
  -- gone and no directory has changed. Where it raises, every other file is as it was before. Where it
  -- returns a path, there was no file there before, there is now what `decrypt_file` made of some
  -- bytes with no error, and the files elsewhere are as they were.
  pub process_one-Leaves :
      (file_id name : Text) (index total_files pulled : ℕ) (s : Puller S)
      → IsPart file_id
      → Leaves setup (tmp_dir out_dir ++ file_id ∷ []) s (
          process_one fl o c setup out_dir
            (tmp_dir out_dir)
            file_id
            name
            index
            total_files
            pulled
            s)
  unfolding process_one
  process_one-Leaves file_id name index total_files pulled s part =
      let (t, found, free) = place s out_dir (safe_name setup.is_word name file_id) in
      rw (found, join-part (tmp_dir out_dir) file_id part, process_one)
        (attempt-Leaves fl o c (λ s. Unit) (λ status server q. tt) (λ id server q. tt) setup file_id
          (total_files + 1 - index) pulled (tmp_dir out_dir ++ file_id ∷ []) (out_dir ++ t ∷ []) s
          (tmp_dir-out_dir out_dir file_id t) free tt)
