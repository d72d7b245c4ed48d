-- ===== src/Manager/Control.antt =====
-- `pause`, `resume` and `cancel` of backend/app/services/download_manager.py.
use aestor.Base.{
  ℕ, Bool, true, false, not, ◌&&◌, Option, none, some, is_empty, if◌then◌else◌, list_eq, nat_eq,
}
use aestor.Base.Dict
use aestor.Base.Text.{Text}
use aestor.Jobs.Record.{
  JobRecord, JobStatus, queued, downloading, paused, encrypting, completed, Floats, FilePath, touch,
}
use aestor.Jobs.Registry.{get_job, remove_job}
use aestor.Manager.State.{
  Manager, pause_handle, resume_handle, save_fastresume, remove_torrent, cancel_task, remove_tree,
  delete_completed, emit, emit_on, persist,
}

-- The statuses that `pause` takes.
unfoldable pub is_pausable : JobStatus → Bool
is_pausable queued = true
is_pausable downloading = true
is_pausable _ = false

unfoldable pub is_paused : JobStatus → Bool
is_paused paused = true
is_paused _ = false

-- The statuses that `cancel` leaves alone.
unfoldable pub is_uncancellable : JobStatus → Bool
is_uncancellable completed = true
is_uncancellable encrypting = true
is_uncancellable _ = false

module _ (fl : Floats) where
  open fl use {F, zero}

  unfoldable pub paused_job : ℕ → JobRecord F → JobRecord F
  paused_job now job =
      touch now (record job {
        user_paused = true;
        status = paused;
        download_rate = zero;
        upload_rate = zero;
      })

  unfoldable pub resumed_job : ℕ → JobRecord F → JobRecord F
  resumed_job now job = touch now (record job { user_paused = false; status = downloading })

module _ (fl : Floats) {H : Type 0} where
  open fl use {F}

  abbrev pub job_of : Manager F H → Text → Option (JobRecord F)
  job_of m job_id = get_job m.store job_id

  unfoldable pub pause : ℕ → Text → Manager F H → Manager F H × Bool
  pause now job_id m = elim (job_of m job_id) [
    | none ↦ (m, false)
    | some job ↦
        if not (is_pausable job.status)
        then (m, false)
        else let handle = Dict.get m.handles job_id in
          (
            emit_on save_fastresume handle
                (emit_on pause_handle handle (persist fl (paused_job fl now job) m)),
            true,
          )
  ]

  unfoldable pub resume : ℕ → Text → Manager F H → Manager F H × Bool
  resume now job_id m = elim (job_of m job_id) [
    | none ↦ (m, false)
    | some job ↦ if not job.user_paused && not (is_paused job.status) then (m, false) else (
      persist fl (resumed_job fl now job) (emit_on resume_handle (Dict.get m.handles job_id) m),
      true,
    )
  ]

  -- `if handle and self._session: _remove_torrent(self._session, handle, delete_files=True)`
  unfoldable pub drop_torrent : Text → Manager F H → Manager F H
  drop_torrent job_id m =
      let m' = record m { handles = Dict.pop m.handles job_id } in
      if m.has_session
      then emit_on (λ h. remove_torrent h true) (Dict.get m.handles job_id) m'
      else m'

  unfoldable pub drop_task : Text → Manager F H → Manager F H
  drop_task job_id m =
      let m' = record m { http_tasks = Dict.pop m.http_tasks job_id } in
      elim (Dict.get m.http_tasks job_id) [ none ↦ m' | some t ↦ emit (cancel_task job_id) m' ]

  unfoldable pub drop_files : (FilePath → Bool) → JobRecord F → Manager F H → Manager F H
  drop_files dir_exists job m = elim job.work_dir [
    | none ↦ m
    | some dir ↦ if dir_exists dir then emit (remove_tree dir) m else m
  ]

  unfoldable pub drop_blob : JobRecord F → Manager F H → Manager F H
  drop_blob job m = elim job.completed_file_id [
    | none ↦ m
    | some file_id ↦ if is_empty file_id then m else emit (delete_completed file_id) m
  ]

  unfoldable pub drop_job : Text → Manager F H → Manager F H
  drop_job job_id m = record m { store = (remove_job job_id m.store).0 }

  -- `await task` waits for the cancelled task to end; no other call on the job is taken to run
  -- meanwhile.
  unfoldable pub cancel : (FilePath → Bool) → Text → Manager F H → Manager F H × Bool
  cancel dir_exists job_id m = elim (job_of m job_id) [
    | none ↦ (m, false)
    | some job ↦ if is_uncancellable job.status then (m, false) else (
      drop_job job_id
          (drop_blob job (drop_files dir_exists job (drop_task job_id (drop_torrent job_id m)))),
      true,
    )
  ]
