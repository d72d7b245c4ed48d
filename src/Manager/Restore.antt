-- ===== src/Manager/Restore.antt =====
-- `start`, `_restore_jobs` and `stop` of backend/app/services/download_manager.py. The resume data that
-- libtorrent reads back is a matter of what `add_torrent` answers.
use aestor.Base.{
  ℕ, Bool, true, false, not, ◌&&◌, ◌||◌, Option, none, some, List, [], ◌∷◌, ◌++◌, if◌then◌else◌,
  list_eq, nat_eq,
}
use aestor.Base.Dict
use aestor.Base.Dict.{Dict}
use aestor.Base.Result.{ok, err}
use aestor.Base.Text.{Text, codes}
use aestor.Jobs.Record.{
  JobRecord, JobKind, magnet, torrent, http, JobStatus, downloading, paused, encrypting, Floats,
  FilePath, or_text,
}
use aestor.Jobs.Registry.{add_job, load_persisted_jobs, flush_dirty_jobs}
use aestor.Manager.State.{
  Manager, pause_handle, resume_handle, save_fastresume, remove_torrent, spawn, cancel_task, Task,
  http_download, fetch_torrent, complete_torrent, finalize_http, emit, persist, fail_job, is_magnet,
  is_http,
}
use aestor.Manager.Control.{job_of, is_paused}
use aestor.Manager.Retry.{World, is_failed, was_packing, torrent_file}

unfoldable pub is_encrypting : JobStatus → Bool
is_encrypting encrypting = true
is_encrypting _ = false

unfoldable pub is_torrent_kind : JobKind → Bool
is_torrent_kind torrent = true
is_torrent_kind _ = false

module _ {F : Type 0} where
  -- `job.status == ENCRYPTING or job.state in {"encrypting", "packing"}`
  unfoldable pub needs_finalize : JobRecord F → Bool
  needs_finalize job = is_encrypting job.status || was_packing job.state

  unfoldable pub wants_pause : JobRecord F → Bool
  wants_pause job = is_paused job.status || job.user_paused

-- The job as a step leaves it, the manager, and the message of what was raised, if anything.
abbrev pub Step : Type 0 → Type 0 → Type 0
Step F H = JobRecord F × Manager F H × Option Text

module _ (fl : Floats) {H : Type 0} where
  open fl use {F}

  abbrev pub launch : Task → JobRecord F → Manager F H → Manager F H
  launch task job m =
      emit (spawn task) (record m { http_tasks = Dict.put m.http_tasks job.id task })

  -- `session.add_torrent`, and the handle as it is kept.
  unfoldable pub add_handle : World F H → Bool → JobRecord F → Manager F H → Step F H
  add_handle w pause job m = elim (w.add_torrent) [
    | err e ↦ (job, m, some e)
    | ok h ↦
        let m' = emit (if pause then pause_handle h else resume_handle h) m in
        (job, record m' { handles = Dict.put m'.handles job.id h }, none)
  ]

  -- A fetch of a remote torrent file that was interrupted begins anew, and there is no handle yet.
  unfoldable pub reattach_remote : World F H → Bool → JobRecord F → Manager F H → Step F H
  reattach_remote w pause job m =
      if is_magnet job.source
      then add_handle w pause job m
      else if is_http job.source && is_torrent_kind job.kind
      then (let job' = record job { status = downloading } in
          (job', launch (fetch_torrent job.id) job' (persist fl job' m), none))
      else (job, m, some (codes "cannot restore torrent: no magnet/torrent source"))

  unfoldable pub reattach_file : World F H → Bool → FilePath → JobRecord F → Manager F H → Step F H
  reattach_file w pause path job m = elim (w.info_name path) [
    | err e ↦ (job, m, some e)
    | ok name ↦ add_handle w pause (record job { name = or_text name job.name }) m
  ]

  unfoldable pub reattach_source : World F H → Bool → JobRecord F → Manager F H → Step F H
  reattach_source w pause job m = elim (torrent_file fl w job) [
    | none ↦ reattach_remote w pause job m
    | some path ↦ reattach_file w pause path job m
  ]

  unfoldable pub reattach_torrent : World F H → Bool → JobRecord F → Manager F H → Step F H
  reattach_torrent w pause job m =
      if not m.has_session
      then (job, m, some (codes "session not started"))
      else elim job.work_dir [
        | none ↦ (job, m, some (codes "job has no work_dir"))
        | some dir ↦ reattach_source w pause job m
      ]

  -- A job that is saved in a status.
  unfoldable pub settle : JobRecord F → Manager F H → Step F H
  settle job m = (job, persist fl job m, none)

  -- After the reattachment: a job that was packed is packed again, the others go on or stay paused.
  unfoldable pub settle_torrent : JobRecord F → Step F H → Step F H
  settle_torrent old (job, m, some e) = (job, m, some e)
  settle_torrent old (job, m, none) =
      if needs_finalize old
      then (let job' = record job { status = downloading; user_paused = false } in
          (job', emit (spawn (complete_torrent job.id)) (persist fl job' m), none))
      else if wants_pause old
      then settle (record job { user_paused = true; status = paused }) m
      else settle (record job { status = downloading }) m

  -- What was raised for a FAILED job is not looked at: it is kept for a retry.
  abbrev pub ignore : Step F H → Step F H
  ignore (job, m, raised) = settle job m

  unfoldable pub restore_torrent : World F H → JobRecord F → Manager F H → Step F H
  restore_torrent w job m =
      if is_failed job.status
      then ignore (reattach_torrent w true job m)
      else settle_torrent job (reattach_torrent w (wants_pause job || needs_finalize job) job m)

  unfoldable pub download_again : JobRecord F → Manager F H → Step F H
  download_again job m = (job, launch (http_download job.id) job (persist fl job m), none)

  unfoldable pub restore_http : World F H → JobRecord F → Manager F H → Step F H
  restore_http w job m = elim job.work_dir [
    | none ↦ (job, m, some [])
    | some dir ↦
        if is_failed job.status
        then settle job m
        else if needs_finalize job && w.is_file (dir ++ job.name ∷ [])
        then (let job' = record job { status = encrypting } in
            (job', emit (spawn (finalize_http job.id)) (persist fl job' m), none))
        else if wants_pause job
        then download_again (record job { user_paused = true; status = paused }) m
        else download_again (record job { status = downloading }) m
  ]

  unfoldable pub restore_one : World F H → JobRecord F → Manager F H → Step F H
  restore_one w job m = elim job.kind [
    | http ↦ restore_http w job m
    | magnet ↦ restore_torrent w job m
    | torrent ↦ restore_torrent w job m
  ]

  unfoldable pub end_restore : ℕ → Step F H → Manager F H
  end_restore now (job, m, none) = m
  end_restore now (job, m, some e) = fail_job fl now (codes "restore failed: " ++ e) job m

  unfoldable pub restore_job : World F H → JobRecord F → Manager F H → Manager F H
  restore_job w job m =
      end_restore w.now (restore_one w job (record m { store = add_job fl job false m.store }))

  -- The outside answers each job by its id.
  unfoldable pub restore_jobs : (Text → World F H) → List (JobRecord F) → Manager F H → Manager F H
  restore_jobs world [] m = m
  restore_jobs world (job ∷ jobs) m = restore_jobs world jobs (restore_job (world job.id) job m)

  -- A new process: the session is there, and the jobs are read from the disk.
  unfoldable pub start : (Text → World F H) → (FilePath → Bool) → ℕ → Manager F H → Manager F H
  start world is_file now m =
      restore_jobs world (load_persisted_jobs fl is_file now m.store)
        (record m { has_session = true })

  unfoldable pub save_handles : Dict Text H → Manager F H → Manager F H
  save_handles [] m = m
  save_handles ((job_id, h) ∷ rest) m = elim (job_of fl m job_id) [
    | none ↦ save_handles rest m
    | some job ↦ save_handles rest (persist fl job (emit (save_fastresume h) m))
  ]

  unfoldable pub cancel_tasks : Dict Text Task → Manager F H → Manager F H
  cancel_tasks [] m = m
  cancel_tasks ((job_id, task) ∷ rest) m = cancel_tasks rest (emit (cancel_task job_id) m)

  unfoldable pub remove_handles : Dict Text H → Manager F H → Manager F H
  remove_handles [] m = m
  remove_handles ((job_id, h) ∷ rest) m = remove_handles rest (emit (remove_torrent h false) m)

  -- The tasks that are cancelled leave the table by themselves.
  unfoldable pub stop : Manager F H → Manager F H
  stop m =
      let m₁ = save_handles m.handles m in
      let m₂ = record (cancel_tasks m₁.http_tasks m₁) { http_tasks = [] } in
      let m₃ = record m₂ { store = flush_dirty_jobs fl m₂.store } in
      if m₃.has_session then record (remove_handles m₃.handles m₃) { has_session = false } else m₃
