-- ===== src/Pull/Paths.antt =====
-- `work_dir / file_id` of scripts/pull.py, whose id is whatever the server's manifest says. A path is
-- its parts from the root.
use aestor.Base.{
  ◌≡◌, ◌≢◌, refl, false, ◌||◌, List, [], ◌∷◌, ◌++◌, All, arith, is_empty, nat_beq_iff,
  if◌then◌else◌, ◌==◌, list_eq, nat_eq, eq_iff,
}
use aestor.Base.Text.{Text, codes, starts_with}
use aestor.Jobs.Record.{FilePath}
use aestor.Pull.Names.{split_slash}

unfoldable pub parent : FilePath → FilePath
parent [] = []
parent (p ∷ []) = []
parent (p ∷ q ∷ ps) = p ∷ parent (q ∷ ps)

-- Empty parts and single dots are no parts of a path; two dots lead the file system up.
unfoldable pub step_into : FilePath → Text → FilePath
step_into dir part =
    if is_empty part || part == codes "."
    then dir
    else if part == codes ".."
    then parent dir
    else dir ++ part ∷ []

unfoldable pub walk : FilePath → List Text → FilePath
walk dir [] = dir
walk dir (part ∷ parts) = walk (step_into dir part) parts

-- `dir / name`: a name that begins with a slash starts at the root.
unfoldable pub join : FilePath → Text → FilePath
join dir name = walk (if starts_with name (codes "/") then [] else dir) (split_slash name)

-- The name of a file in the directory itself.
abbrev pub IsPart : Text → Type 0
IsPart name = All (λ c. c ≢ 47) name × (name ≢ []) × (name ≢ codes ".") × (name ≢ codes "..")

split_slash-part : (name : Text) → All (λ c. c ≢ 47) name → split_slash name ≡ name ∷ []
unfolding split_slash
split_slash-part [] h = refl
split_slash-part (c ∷ s) (ne, h) = rw (split_slash-part s h) (ground (arith, nat_beq_iff c 47))

no_root : (name : Text) → All (λ c. c ≢ 47) name → starts_with name (codes "/") ≡ false
unfolding starts_with
no_root [] h = refl
no_root (c ∷ s) (ne, h) = ground (arith, nat_beq_iff c 47)

is_empty-full : (name : Text) → name ≢ [] → is_empty name ≡ false
is_empty-full [] ne = absurd (ne refl)
is_empty-full (c ∷ s) ne = refl

step_into-part :
    (dir : FilePath) (name : Text) → IsPart name → step_into dir name ≡ dir ++ name ∷ []
unfolding step_into
step_into-part dir name (flat, full, here, up) =
    ground (arith, is_empty-full name full, eq_iff name (codes "."), eq_iff name (codes ".."))

pub join-part : (dir : FilePath) (name : Text) → IsPart name → join dir name ≡ dir ++ name ∷ []
unfolding join walk
join-part dir name part =
    rw (no_root name part.0, split_slash-part name part.0) (step_into-part dir name part)
