-- ===== src/Jobs/Record.antt =====
-- `JobRecord` of backend/app/services/store.py, and the enums of backend/app/models.py.
use aestor.Base.{
  ℕ, ◌-◌, Bool, true, false, Option, none, List, [], ◌∷◌, ◌++◌, length, drop, take, ltb, is_empty,
  if◌then◌else◌, list_eq, nat_eq,
}
use aestor.Base.Text.{Text, codes}

pub data JobKind : Type 0 where
  magnet torrent http : JobKind

pub data JobStatus : Type 0 where
  queued downloading paused encrypting completed failed cancelled : JobStatus

-- The floats that a job holds, with the constants and the operations that the program uses.
pub record Floats : Type 1 where
  pub F : Type 0
  pub zero : F
  pub one : F
  pub is_zero : F → Bool
  -- `min(1.0, a / b)` and `a / rate`
  pub ratio : ℕ → ℕ → F
  pub over : ℕ → F → F
  -- `x > 0` and `x >= 0.9999`
  pub is_positive : F → Bool
  pub is_near_one : F → Bool

pub record SpeedSample (F : Type 0) : Type 0 where
  pub t : F
  pub down : F
  pub up : F

-- The fields of a peer that the store passes on; `connection` and the rest stay with the manager.
pub record PeerInfo (F : Type 0) : Type 0 where
  pub ip : Text
  pub port : ℕ
  pub client : Text
  pub down_speed : F
  pub up_speed : F
  pub progress : F
  pub seed : Bool
  pub encrypted : Bool
  pub connection : Text
  pub country : Option Text

-- A path is the list of its parts, from the root.
abbrev pub FilePath : Type 0
FilePath = List Text

-- Times are microseconds.
pub record JobRecord (F : Type 0) : Type 0 where
  pub id : Text
  pub kind : JobKind
  pub name : Text
  pub source : Text
  pub torrent_path : Option FilePath
  pub status : JobStatus
  pub progress : F
  pub download_rate : F
  pub upload_rate : F
  pub total_bytes : Option ℕ
  pub downloaded_bytes : ℕ
  pub uploaded_bytes : ℕ
  pub error : Option Text
  pub created_at : ℕ
  pub updated_at : ℕ
  pub completed_file_id : Option Text
  pub work_dir : Option FilePath
  pub handle_key : Option Text
  pub user_paused : Bool
  pub dirty : Bool
  pub state : Option Text
  pub eta_seconds : Option F
  pub num_peers : ℕ
  pub num_seeds : ℕ
  pub list_peers : ℕ
  pub list_seeds : ℕ
  pub num_pieces : ℕ
  pub pieces_done : ℕ
  pub distributed_copies : F
  pub current_tracker : Option Text
  pub has_metadata : Bool
  pub save_path : Option Text
  pub info_hash : Option Text
  pub active_duration_seconds : F
  pub payload_download_rate : F
  pub payload_upload_rate : F
  pub peers : List (PeerInfo F)
  pub speed_history : List (SpeedSample F)

abbrev pub speed_history_max : ℕ
speed_history_max = 90

-- `x or default` for a text.
abbrev pub or_text : Text → Text → Text
or_text t default = if is_empty t then default else t

module _ (fl : Floats) where
  open fl use {F, zero}

  -- `JobRecord(kind=…, name=…, source=…, torrent_path=…, job_id=…)` at the time `now`.
  unfoldable pub new_job : ℕ → Text → JobKind → Text → Text → Option FilePath → JobRecord F
  new_job now id kind name source torrent_path = record {
    id = id;
    kind = kind;
    name = name;
    source = source;
    torrent_path = torrent_path;
    status = queued;
    progress = zero;
    download_rate = zero;
    upload_rate = zero;
    total_bytes = none;
    downloaded_bytes = 0;
    uploaded_bytes = 0;
    error = none;
    created_at = now;
    updated_at = now;
    completed_file_id = none;
    work_dir = none;
    handle_key = none;
    user_paused = false;
    dirty = false;
    state = none;
    eta_seconds = none;
    num_peers = 0;
    num_seeds = 0;
    list_peers = 0;
    list_seeds = 0;
    num_pieces = 0;
    pieces_done = 0;
    distributed_copies = zero;
    current_tracker = none;
    has_metadata = false;
    save_path = none;
    info_hash = none;
    active_duration_seconds = zero;
    payload_download_rate = zero;
    payload_upload_rate = zero;
    peers = [];
    speed_history = [];
  }

module _ {F : Type 0} where
  unfoldable pub touch : ℕ → JobRecord F → JobRecord F
  touch now job = record job { updated_at = now; dirty = true }

  -- `deque(maxlen=90).append`: the oldest sample falls out of a full history.
  unfoldable pub push_speed : SpeedSample F → JobRecord F → JobRecord F
  push_speed sample job =
      let history = job.speed_history ++ sample ∷ [] in
      record job { speed_history = drop (length history - speed_history_max) history }

  -- `source_preview` of `to_info`; the other fields of `JobInfo` are the job's own.
  unfoldable pub source_preview : JobRecord F → Text
  source_preview job =
      if ltb 160 (length job.source) then take 157 job.source ++ codes "..." else job.source
