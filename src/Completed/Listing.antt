-- ===== src/Completed/Listing.antt =====
-- `list_file_ids` and `_read_duration` of backend/app/services/store.py: what the web shows of the
-- directory of completed files.
use aestor.Base.{
  ℕ, Bool, not, ◌&&◌, ◌||◌, Option, none, some, List, map, length, filter_by, ◌==◌, list_eq, nat_eq,
}
use aestor.Base.Dict
use aestor.Base.Sort.{sort_desc}
use aestor.Base.Text.{Text, codes, ends_with}
use aestor.Completed.Files.{Directory, manifest_name, meta_name}
use aestor.Pull.Names.{stem_suffix}

-- `{"id": …, "encrypted_size_bytes": …, "duration_seconds": …}`
pub record FileRow (F : Type 0) : Type 0 where
  pub id : Text
  pub encrypted_size_bytes : ℕ
  pub duration_seconds : Option F

-- None of the `continue`s is taken for a file of the name.
unfoldable pub is_listed : Text → Bool
is_listed name =
    let suffix = (stem_suffix name).1 in
    not (name == manifest_name)
    && not (suffix == codes ".json" || suffix == codes ".tmp")
    && not (ends_with name (codes ".db.tmp") || name == codes "pair.json")

-- `float(json.loads(…).get("duration_seconds"))` of an object, none where it is missing or an exception
-- is caught; and the times of modification.
module _ {F : Type 0} (read_float : Text → Option F) (mtime : Text → ℕ) where
  unfoldable pub read_duration : Directory → Text → Option F
  read_duration d file_id = elim (Dict.get d (meta_name file_id)) [
    | none ↦ none
    | some text ↦ read_float text
  ]

  abbrev size_of : Option (List ℕ) → ℕ
  size_of none = 0
  size_of (some content) = length content

  unfoldable pub row_of : Directory → Text → FileRow F
  row_of d name = record {
    id = name;
    encrypted_size_bytes = size_of (Dict.get d name);
    duration_seconds = read_duration d name;
  }

  unfoldable pub list_file_ids : Directory → List (FileRow F)
  list_file_ids d =
      map (row_of d) (filter_by is_listed (sort_desc mtime (map (λ entry. entry.0) d)))
