-- ===== src/Jobs/Snapshot.antt =====
-- `to_persist_dict` and `from_persist_dict` of backend/app/services/store.py.
use aestor.Base.{
  ℕ, Bool, true, false, Option, none, some, [], ◌∷◌, ◌++◌, if◌then◌else◌, ◌==◌, list_eq, nat_eq,
}
use aestor.Base.Text.{Text, codes}
use aestor.Jobs.Record.{JobRecord, JobKind, JobStatus, Floats, FilePath, new_job, or_text}

-- The object that is written to job.json, key by key.
pub record Snapshot (F : Type 0) : Type 0 where
  pub id : Text
  pub kind : JobKind
  pub name : Text
  pub source : Text
  pub status : JobStatus
  pub progress : F
  pub total_bytes : Option ℕ
  pub downloaded_bytes : ℕ
  pub uploaded_bytes : ℕ
  pub error : Option Text
  pub created_at : ℕ
  pub updated_at : ℕ
  pub user_paused : Bool
  pub state : Option Text
  pub info_hash : Option Text
  pub torrent_path : Option FilePath
  pub active_duration_seconds : F

-- `path.is_relative_to(dir)` with `path.relative_to(dir)`.
unfoldable pub relative_to : FilePath → FilePath → Option FilePath
relative_to [] path = some path
relative_to (d ∷ dir) [] = none
relative_to (d ∷ dir) (p ∷ path) = elim (d == p) [ true ↦ relative_to dir path | false ↦ none ]

-- `path.name` as a path of one part; the root has none.
unfoldable pub file_name : FilePath → FilePath
file_name [] = []
file_name (p ∷ []) = p ∷ []
file_name (p ∷ q ∷ path) = file_name (q ∷ path)

-- The torrent's place: behind the work directory where it lies there, else its name alone.
unfoldable pub torrent_rel : Option FilePath → Option FilePath → Option FilePath
torrent_rel none work_dir = none
torrent_rel (some path) none = some (file_name path)
torrent_rel (some path) (some dir) = elim (relative_to dir path) [
  | none ↦ some (file_name path)
  | some rel ↦ some rel
]

abbrev pub source_torrent : Text
source_torrent = codes "source.torrent"

module _ (fl : Floats) where
  open fl use {F, zero, is_zero}

  unfoldable pub to_persist_dict : JobRecord F → Snapshot F
  to_persist_dict job = record {
    id = job.id;
    kind = job.kind;
    name = job.name;
    source = job.source;
    status = job.status;
    progress = job.progress;
    total_bytes = job.total_bytes;
    downloaded_bytes = job.downloaded_bytes;
    uploaded_bytes = job.uploaded_bytes;
    error = job.error;
    created_at = job.created_at;
    updated_at = job.updated_at;
    user_paused = job.user_paused;
    state = job.state;
    info_hash = job.info_hash;
    torrent_path = torrent_rel job.torrent_path job.work_dir;
    active_duration_seconds = job.active_duration_seconds;
  }

  -- The torrent's path in the new work directory, if a file is there. The relative path of the directory
  -- itself is ".", which is truthy, and the empty list here.
  unfoldable pub restored_path : (FilePath → Bool) → FilePath → Option FilePath → Option FilePath
  restored_path is_file work_dir rel = elim rel [
    | some r ↦ if is_file (work_dir ++ r) then some (work_dir ++ r) else none
    | none ↦
        if is_file (work_dir ++ source_torrent ∷ [])
        then some (work_dir ++ source_torrent ∷ [])
        else none
  ]

  -- `is_file` is the file system. A float that is 0 is read back as `0.0`, as `x or 0.0` does.
  unfoldable pub from_persist_dict : (FilePath → Bool) → ℕ → Snapshot F → FilePath → JobRecord F
  from_persist_dict is_file now d dir =
      record (new_job fl now d.id d.kind (or_text d.name (codes "download")) d.source none) {
        work_dir = some dir;
        status = d.status;
        progress = if is_zero d.progress then zero else d.progress;
        total_bytes = d.total_bytes;
        downloaded_bytes = d.downloaded_bytes;
        uploaded_bytes = d.uploaded_bytes;
        error = d.error;
        user_paused = d.user_paused;
        state = d.state;
        info_hash = d.info_hash;
        active_duration_seconds =
            if is_zero d.active_duration_seconds then zero else d.active_duration_seconds;
        created_at = d.created_at;
        updated_at = d.updated_at;
        torrent_path = restored_path is_file dir d.torrent_path;
        dirty = false;
      }
