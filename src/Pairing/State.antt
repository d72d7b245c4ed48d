-- ===== src/Pairing/State.antt =====
-- The data of backend/app/services/pairing.py and of the pull models in backend/app/models.py.
use aestor.Base.{ℕ, Bool, Option, none, some, [], is_empty, if◌then◌else◌, ◌==◌, list_eq, nat_eq}
use aestor.Base.Text.{Text, codes}

pub data PullPhase : Type 0 where
  idle listing downloading decrypting deleting error : PullPhase

-- `PullPhase.value`
abbrev pub phase_value : PullPhase → Text
phase_value idle = codes "idle"
phase_value listing = codes "listing"
phase_value downloading = codes "downloading"
phase_value decrypting = codes "decrypting"
phase_value deleting = codes "deleting"
phase_value error = codes "error"

-- `PullPhase(raw)`, with IDLE for a `ValueError`.
unfoldable pub phase_of : Text → PullPhase
phase_of raw =
    if raw == codes "listing"
    then listing
    else if raw == codes "downloading"
    then downloading
    else if raw == codes "decrypting"
    then decrypting
    else if raw == codes "deleting"
    then deleting
    else if raw == codes "error"
    then error
    else idle

-- `_data` once a client is paired: the keys that `pair` writes. Times are microseconds; `F` is the
-- type of the floats, which are only passed on.
pub record Data (F : Type 0) : Type 0 where
  pub client_id : Text
  pub hostname : Option Text
  pub paired_at : Option ℕ
  pub last_seen : Option ℕ
  pub phase : Text
  pub file_id : Option Text
  pub bytes_done : Option ℕ
  pub bytes_total : Option ℕ
  pub progress : Option F
  pub rate_bps : Option F
  pub message : Option Text
  pub queue_remaining : Option ℕ
  pub files_pulled : Option ℕ

-- pair.json: missing, holding no JSON object, or holding saved data.
pub data Disk (F : Type 0) : Type 0 where
  absent corrupt : Disk F
  stored : Data F → Disk F

pub record Service (F : Type 0) : Type 0 where
  pub pair_data : Option (Data F)
  pub disk : Disk F
  pub dirty_disk : Bool
  pub last_persist : ℕ

-- `PullClientInfo`
pub record PullClientInfo (F : Type 0) : Type 0 where
  pub paired : Bool
  pub client_id : Option Text
  pub hostname : Option Text
  pub paired_at : Option ℕ
  pub last_seen : Option ℕ
  pub online : Bool
  pub phase : Option PullPhase
  pub file_id : Option Text
  pub bytes_done : Option ℕ
  pub bytes_total : Option ℕ
  pub progress : Option F
  pub rate_bps : Option F
  pub message : Option Text
  pub queue_remaining : Option ℕ
  pub files_pulled : Option ℕ

-- The fields of `PullStatusUpdate` behind the client's id.
pub record StatusUpdate (F : Type 0) : Type 0 where
  pub phase : PullPhase
  pub file_id : Option Text
  pub bytes_done : Option ℕ
  pub bytes_total : Option ℕ
  pub progress : Option F
  pub rate_bps : Option F
  pub message : Option Text
  pub queue_remaining : Option ℕ
  pub files_pulled : Option ℕ

-- `x or None` for a text.
abbrev pub or_none : Option Text → Option Text
or_none none = none
or_none (some t) = if is_empty t then none else some t

-- `x or ""` for a text.
abbrev pub or_blank : Option Text → Text
or_blank none = []
or_blank (some t) = t

-- `if new is not None: field = new`
abbrev pub keep_or {ℓ} : {A : Type ℓ} → Option A → Option A → Option A
keep_or none old = old
keep_or (some a) old = some a
