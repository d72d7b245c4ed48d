-- ===== src/Manager/State.antt =====
-- The state of `DownloadManager`, and what it asks of libtorrent, asyncio and the file system.
use aestor.Base.{
  ℕ, Bool, true, false, not, ◌&&◌, ◌||◌, Option, none, some, List, [], ◌∷◌, ◌++◌, leb, ltb,
  if◌then◌else◌, list_eq, nat_eq,
}
use aestor.Base.Dict
use aestor.Base.Dict.{Dict}
use aestor.Base.Text.{Text, codes, strip, lower, starts_with}
use aestor.Jobs.Record.{JobRecord, failed, Floats, FilePath, touch}
use aestor.Jobs.Registry.{Store, update_job}

-- A coroutine that `asyncio.create_task` starts for a job.
pub data Task : Type 0 where
  http_download fetch_torrent complete_torrent finalize_http : Text → Task

-- Requests to the outside, in the order in which they are made. `H` is the type of handles.
pub data Effect (H : Type 0) : Type 0 where
  pause_handle resume_handle save_fastresume : H → Effect H
  remove_torrent : H → Bool → Effect H
  spawn : Task → Effect H
  cancel_task : Text → Effect H
  make_dir remove_tree unlink : FilePath → Effect H
  delete_completed : Text → Effect H
  notify_failed : Text → Text → Effect H
  notify_completed : Text → Text → ℕ → Effect H

pub record Manager (F H : Type 0) : Type 0 where
  pub store : Store F
  pub handles : Dict Text H
  pub http_tasks : Dict Text Task
  -- whether `_session` is not None
  pub has_session : Bool
  pub effects : List (Effect H)

-- `RuntimeError` and `ValueError` of the manager, and what libtorrent raises.
pub data ManagerError : Type 0 where
  session_not_started unsupported_url : ManagerError
  libtorrent_error : Text → ManagerError

-- `handle.status()` as the test for a finished download reads it.
pub record TorrentStatus (F : Type 0) : Type 0 where
  pub is_finished : Bool
  pub is_seeding : Bool
  pub progress : F
  pub total_wanted : ℕ
  pub total_wanted_done : ℕ

unfoldable pub is_magnet : Text → Bool
is_magnet url = starts_with (lower (strip url)) (codes "magnet:")

unfoldable pub is_http : Text → Bool
is_http url =
    starts_with (lower (strip url)) (codes "http://")
    || starts_with (lower (strip url)) (codes "https://")

abbrev pub has_key : {V : Type 0} → Dict Text V → Text → Bool
has_key d k = elim (Dict.get d k) [ none ↦ false | some v ↦ true ]

module _ {F H : Type 0} where
  abbrev pub emit : Effect H → Manager F H → Manager F H
  emit effect m = record m { effects = m.effects ++ effect ∷ [] }

  -- An effect on the handle of a job, if it has one.
  abbrev pub emit_on : (H → Effect H) → Option H → Manager F H → Manager F H
  emit_on effect none m = m
  emit_on effect (some h) m = emit (effect h) m

  -- The job object is shared: a change that is not persisted is in the registry all the same.
  abbrev pub set_job : JobRecord F → Manager F H → Manager F H
  set_job job m = record m { store = record (m.store) { jobs = Dict.put m.store.jobs job.id job } }

module _ (fl : Floats) where
  open fl use {F, is_near_one}

  -- `_torrent_is_finished`; `none` stands for a call of `status()` that raises.
  unfoldable pub torrent_is_finished : Option (TorrentStatus F) → Bool
  torrent_is_finished none = false
  torrent_is_finished (some st) =
      let done = st.is_finished || st.is_seeding in
      if not done && (is_near_one st.progress && ltb 0 st.total_wanted)
      then leb st.total_wanted st.total_wanted_done
      else done

module _ (fl : Floats) {H : Type 0} where
  open fl use {F}

  -- `self.store.persist_job(job)`
  abbrev pub persist : JobRecord F → Manager F H → Manager F H
  persist job m = record m { store = update_job fl job m.store }

  unfoldable pub fail_job : ℕ → Text → JobRecord F → Manager F H → Manager F H
  fail_job now error job m =
      emit (notify_failed job.name error)
        (persist (touch now (record job { status = failed; error = some error })) m)
