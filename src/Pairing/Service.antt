-- ===== src/Pairing/Service.antt =====
-- `PairingService` of backend/app/services/pairing.py. Each method holds the lock throughout, so a
-- call is one step: from the service to the service and its result or exception. `now` is
-- `utcnow()` and `mono` is `time.monotonic()`, in microseconds.
use aestor.Base.{
  ℕ, ◌-◌, Bool, true, false, not, ◌&&◌, Option, none, some, is_empty, ltb, leb, if◌then◌else◌, ◌==◌,
  list_eq, nat_eq,
}
use aestor.Base.Result.{Result, ok, err}
use aestor.Base.Text.{Text, codes, strip}
use aestor.Pairing.State.{
  idle, phase_value, phase_of, Data, Disk, absent, corrupt, stored, Service, PullClientInfo,
  StatusUpdate, or_none, or_blank, keep_or,
}

-- `ONLINE_TTL_SECONDS` and the 2 seconds between unforced saves.
abbrev pub online_ttl : ℕ
online_ttl = 45_000_000

abbrev pub save_interval : ℕ
save_interval = 2_000_000

-- `ValueError`, `PairingConflict` and the `PermissionError`s.
pub data PairingError (F : Type 0) : Type 0 where
  client_id_required no_client_paired header_required : PairingError F
  different_client : Text → PairingError F
  not_paired_client : PairingError F
  pairing_conflict : PullClientInfo F → PairingError F

unfoldable pub is_online : ℕ → Option ℕ → Bool
is_online now none = false
is_online now (some seen) = leb (now - seen) online_ttl

module _ {F : Type 0} where
  unfoldable pub load : Disk F → Option (Data F)
  load absent = none
  load corrupt = none
  load (stored d) = some d

  -- `PairingService(path)`
  unfoldable pub init : Disk F → Service F
  init disk = record { pair_data = load disk; disk = disk; dirty_disk = false; last_persist = 0 }

  -- `self._data = d`, then `_save(force=force)`.
  unfoldable pub save : Bool → ℕ → Data F → Service F → Service F
  save force mono d s =
      if not force && ltb (mono - s.last_persist) save_interval
      then record s { pair_data = some d; dirty_disk = true }
      else record s { pair_data = some d; disk = stored d; dirty_disk = false; last_persist = mono }

  abbrev unpaired : PullClientInfo F
  unpaired = record {
    paired = false;
    client_id = none;
    hostname = none;
    paired_at = none;
    last_seen = none;
    online = false;
    phase = none;
    file_id = none;
    bytes_done = none;
    bytes_total = none;
    progress = none;
    rate_bps = none;
    message = none;
    queue_remaining = none;
    files_pulled = none;
  }

  unfoldable pub info_of : ℕ → Data F → PullClientInfo F
  info_of now d = if is_empty d.client_id then unpaired else record {
    paired = true;
    client_id = some d.client_id;
    hostname = or_none d.hostname;
    paired_at = d.paired_at;
    last_seen = d.last_seen;
    online = is_online now d.last_seen;
    phase = some (phase_of (if is_empty d.phase then phase_value idle else d.phase));
    file_id = or_none d.file_id;
    bytes_done = d.bytes_done;
    bytes_total = d.bytes_total;
    progress = d.progress;
    rate_bps = d.rate_bps;
    message = or_none d.message;
    queue_remaining = d.queue_remaining;
    files_pulled = d.files_pulled;
  }

  unfoldable pub to_info : ℕ → Service F → PullClientInfo F
  to_info now s = elim s.pair_data [ none ↦ unpaired | some d ↦ info_of now d ]

  -- `self._data.get("client_id")`, as the tests read it: a blank id counts as none.
  unfoldable pub owner : Service F → Option Text
  owner s = elim s.pair_data [ none ↦ none | some d ↦ or_none (some d.client_id) ]

  -- The data that `pair` builds: a reconnecting client keeps its time of pairing and its count.
  abbrev fresh : ℕ → Text → Option Text → Data F
  fresh now client_id hostname = record {
    client_id = client_id;
    hostname = hostname;
    paired_at = some now;
    last_seen = some now;
    phase = phase_value idle;
    file_id = none;
    bytes_done = none;
    bytes_total = none;
    progress = none;
    rate_bps = none;
    message = some (codes "paired");
    queue_remaining = none;
    files_pulled = some 0;
  }

  unfoldable pub pair_with : ℕ → Text → Option Text → Option (Data F) → Data F
  pair_with now client_id hostname none = fresh now client_id hostname
  pair_with now client_id hostname (some d) =
      if d.client_id == client_id
      then record (fresh now client_id hostname) {
        paired_at = d.paired_at;
        message = some (codes "reconnected");
        files_pulled = d.files_pulled;
      }
      else fresh now client_id hostname

  -- `current_id and current_id != client_id and not override`
  unfoldable pub conflicts : Text → Bool → Service F → Bool
  conflicts client_id override s = elim (owner s) [
    | none ↦ false
    | some current ↦ not (current == client_id) && not override
  ]

  unfoldable pub pair :
      ℕ
      → ℕ
      → Text
      → Option Text
      → Bool
      → Service F
      → Service F × Result (PairingError F) (PullClientInfo F)
  pair now mono client_id hostname override s =
      let id = strip client_id in
      let host = or_none (some (strip (or_blank hostname))) in
      if is_empty id
      then (s, err client_id_required)
      else if conflicts id override s
      then (s, err (pairing_conflict (to_info now s)))
      else let s' = save true mono (pair_with now id host s.pair_data) s in
        (s', ok (to_info now s'))

  unfoldable pub clear : Service F → Service F
  clear s = record s { pair_data = none; disk = absent; dirty_disk = false }

  unfoldable pub require_client : Option Text → Service F → Result (PairingError F) (Unit {0})
  require_client client_id s =
      let id = strip (or_blank client_id) in
      elim (owner s) [
        | none ↦ err no_client_paired
        | some paired ↦
            if is_empty id
            then err header_required
            else if not (id == paired)
            then err (different_client paired)
            else ok tt
      ]

  -- `touch` and `update_status` compare the id as it is given.
  unfoldable pub touch : ℕ → ℕ → Text → Service F → Service F
  touch now mono client_id s = elim s.pair_data [
    | none ↦ s
    | some d ↦
        if d.client_id == client_id
        then save false mono (record d { last_seen = some now }) s
        else s
  ]

  unfoldable pub updated : ℕ → StatusUpdate F → Data F → Data F
  updated now u d = record d {
    last_seen = some now;
    phase = phase_value u.phase;
    file_id = u.file_id;
    bytes_done = u.bytes_done;
    bytes_total = u.bytes_total;
    progress = u.progress;
    rate_bps = u.rate_bps;
    message = keep_or u.message d.message;
    queue_remaining = keep_or u.queue_remaining d.queue_remaining;
    files_pulled = keep_or u.files_pulled d.files_pulled;
  }

  unfoldable pub update_status :
      ℕ
      → ℕ
      → Text
      → StatusUpdate F
      → Service F
      → Service F × Result (PairingError F) (PullClientInfo F)
  update_status now mono client_id u s = elim s.pair_data [
    | none ↦ (s, err not_paired_client)
    | some d ↦
        if d.client_id == client_id
        then (let s' = save true mono (updated now u d) s in (s', ok (to_info now s')))
        else (s, err not_paired_client)
  ]
