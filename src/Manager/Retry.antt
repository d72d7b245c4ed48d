-- ===== src/Manager/Retry.antt =====
-- `retry`, `_retry_torrent` and `_retry_http` of backend/app/services/download_manager.py.
use aestor.Base.{
  ℕ, Bool, true, false, not, ◌&&◌, ◌||◌, Option, none, some, [], ◌∷◌, ◌++◌, if◌then◌else◌, ◌==◌,
  list_eq, option_eq, nat_eq,
}
use aestor.Base.Dict
use aestor.Base.Result.{Result, ok, err}
use aestor.Base.Text.{Text, codes}
use aestor.Jobs.Record.{
  JobRecord, magnet, torrent, http, JobStatus, downloading, encrypting, failed, Floats, FilePath,
  touch, or_text,
}
use aestor.Manager.State.{
  Manager, ManagerError, session_not_started, libtorrent_error, TorrentStatus, torrent_is_finished,
  resume_handle, make_dir, unlink, spawn, Task, http_download, fetch_torrent, complete_torrent,
  finalize_http, emit, set_job, is_magnet, is_http, has_key,
}
use aestor.Manager.Control.{job_of}

-- What the outside answers while one call runs. A call that raises answers `none`, or its message.
pub record World (F H : Type 0) : Type 0 where
  pub now : ℕ
  pub download_dir : FilePath
  pub is_file : FilePath → Bool
  pub exists : FilePath → Bool
  -- `handle.status()`
  pub torrent_status : H → Option (TorrentStatus F)
  -- `lt.torrent_info(path).name()`
  pub info_name : FilePath → Result Text Text
  -- `session.add_torrent(params)`
  pub add_torrent : Result Text H

unfoldable pub is_failed : JobStatus → Bool
is_failed failed = true
is_failed _ = false

-- `job.state in {"packing", "encrypting"}`
unfoldable pub was_packing : Option Text → Bool
was_packing none = false
was_packing (some s) = s == codes "packing" || s == codes "encrypting"

-- The manager after a call, and what the call returns or raises.
abbrev pub Outcome : Type 0 → Type 0 → Type 0
Outcome F H = Manager F H × Result ManagerError Bool

module _ (fl : Floats) where
  open fl use {F, zero}

  unfoldable pub cleared_job : ℕ → JobRecord F → JobRecord F
  cleared_job now job = touch now (record job {
    error = none;
    user_paused = false;
    download_rate = zero;
    upload_rate = zero;
    payload_download_rate = zero;
    payload_upload_rate = zero;
  })

  -- The claim: back to DOWNLOADING, so that another retry is refused.
  unfoldable pub claimed_job : ℕ → JobRecord F → JobRecord F
  claimed_job now job = touch now (record job { status = downloading; state = none })

  unfoldable pub refetched_job : ℕ → JobRecord F → JobRecord F
  refetched_job now job = touch now (record job {
    downloaded_bytes = 0;
    progress = zero;
    total_bytes = none;
    status = downloading;
    state = some (codes "http");
  })

module _ (fl : Floats) {H : Type 0} where
  open fl use {F}

  abbrev add_task : Text → Task → Manager F H → Manager F H
  add_task job_id t m = emit (spawn t) (record m { http_tasks = Dict.put m.http_tasks job_id t })

  -- A torrent that libtorrent has taken: resumed, kept under the job's id, and the job claimed.
  unfoldable pub attach : ℕ → H → JobRecord F → Manager F H → Manager F H
  attach now h job m =
      let m' = emit (resume_handle h) m in
      set_job (claimed_job fl now job) (record m' { handles = Dict.put m'.handles job.id h })

  unfoldable pub add_and_attach : World F H → JobRecord F → Manager F H → Outcome F H
  add_and_attach w job m = elim (w.add_torrent) [
    | err e ↦ (m, err (libtorrent_error e))
    | ok h ↦ (attach w.now h job m, ok true)
  ]

  -- The job has a handle: pack and encrypt if its download is finished, else go on downloading.
  unfoldable pub retry_attached : World F H → H → JobRecord F → Manager F H → Outcome F H
  retry_attached w h job m =
      let m' = set_job (claimed_job fl w.now job) m in
      if torrent_is_finished fl (w.torrent_status h) || was_packing job.state
      then (emit (spawn (complete_torrent job.id)) m', ok true)
      else (emit (resume_handle h) m', ok true)

  abbrev pub torrent_file : World F H → JobRecord F → Option FilePath
  torrent_file w job = elim job.torrent_path [
    | none ↦ none
    | some p ↦ if w.is_file p then some p else none
  ]

  unfoldable pub retry_source : World F H → JobRecord F → Manager F H → Outcome F H
  retry_source w job m = elim (torrent_file w job) [
    | some p ↦ elim (w.info_name p) [
      | err e ↦ (m, err (libtorrent_error e))
      | ok name ↦
          let job' = record job { name = or_text name job.name } in
          add_and_attach w job' (set_job job' m)
    ]
    | none ↦
        if is_magnet job.source
        then add_and_attach w job m
        else if is_http job.source
        then (
          add_task job.id (fetch_torrent job.id) (set_job (claimed_job fl w.now job) m),
          ok true,
        )
        else (m, ok false)
  ]

  -- The work directory is made where the job has none.
  unfoldable pub ensure_work_dir : World F H → JobRecord F → Manager F H → JobRecord F × Manager F H
  ensure_work_dir w job m = elim job.work_dir [
    | some dir ↦ (job, m)
    | none ↦
        let dir = w.download_dir ++ job.id ∷ [] in
        let job' = record job { work_dir = some dir } in
        (job', set_job job' (emit (make_dir dir) m))
  ]

  unfoldable pub retry_torrent : World F H → JobRecord F → Manager F H → Outcome F H
  retry_torrent w job m = elim (Dict.get m.handles job.id) [
    | some h ↦ retry_attached w h job m
    | none ↦
        if not m.has_session
        then (m, err session_not_started)
        else let (job', m') = ensure_work_dir w job m in retry_source w job' m'
  ]

  -- Failed during encryption with the download still on disk: only the encryption is done again.
  unfoldable pub retry_http : World F H → JobRecord F → Manager F H → Outcome F H
  retry_http w job m = elim job.work_dir [
    | none ↦ (m, ok false)
    | some dir ↦
        let dest = dir ++ job.name ∷ [] in
        if job.state == some (codes "encrypting") && w.is_file dest
        then (
          emit (spawn (finalize_http job.id))
              (set_job (touch w.now (record job { status = encrypting })) m),
          ok true,
        )
        else let m' = if w.exists dest then emit (unlink dest) m else m in
          (
            add_task job.id (http_download job.id) (set_job (refetched_job fl w.now job) m'),
            ok true,
          )
  ]

  unfoldable pub retry_by_kind : World F H → JobRecord F → Manager F H → Outcome F H
  retry_by_kind w job m = elim job.kind [
    | magnet ↦ retry_torrent w job m
    | torrent ↦ retry_torrent w job m
    | http ↦ retry_http w job m
  ]

  unfoldable pub retry : World F H → Text → Manager F H → Outcome F H
  retry w job_id m = elim (job_of fl m job_id) [
    | none ↦ (m, ok false)
    | some job ↦
        if not (is_failed job.status)
        then (m, ok false)
        else if has_key m.http_tasks job_id
        then (m, ok false)
        else (let job' = cleared_job fl w.now job in retry_by_kind w job' (set_job job' m))
  ]
