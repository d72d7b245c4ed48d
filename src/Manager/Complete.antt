-- ===== src/Manager/Complete.antt =====
-- `_complete_torrent` and `_finalize_path` of backend/app/services/download_manager.py. The calls of
-- `on_progress` between the steps, which change the byte counts and rates alone, are left out.
use aestor.Base.{
  ℕ, Bool, true, false, not, Option, none, some, List, [], ◌∷◌, ◌++◌, filter_by, if◌then◌else◌,
  ◌==◌, list_eq, nat_eq,
}
use aestor.Base.Dict
use aestor.Base.Result.{Result, ok, err}
use aestor.Base.Text.{Text, codes}
use aestor.Jobs.Record.{JobRecord, encrypting, completed, Floats, FilePath, touch, or_text}
use aestor.Jobs.Registry.{drop_persisted_job}
use aestor.Jobs.Snapshot.{source_torrent, file_name}
use aestor.Manager.State.{
  Manager, pause_handle, remove_torrent, remove_tree, unlink, notify_completed, emit, persist,
  set_job, fail_job,
}
use aestor.Manager.Control.{job_of, is_uncancellable}

-- What a step raises: an exception with its message, or `CancelledError`, when the task is cancelled at
-- an `await` and which `except Exception` does not catch.
pub data Halt : Type 0 where
  failure : Text → Halt
  task_cancelled : Halt

-- What the outside answers while a job is completed. A step that raises gives its message. Saving a
-- snapshot does not raise: what the file system raises is caught there.
pub record Finish (H : Type 0) : Type 0 where
  pub now : ℕ
  pub file_id : Text
  pub pause : H → Result Text (Unit {0})
  -- `handle.status().name`
  pub content_name : H → Result Text (Option Text)
  pub exists : FilePath → Bool
  pub is_file : FilePath → Bool
  pub is_dir : FilePath → Bool
  pub size : FilePath → ℕ
  -- `work_dir.iterdir()`
  pub entries : FilePath → List Text
  pub zip : FilePath → Result Halt (Unit {0})
  -- `append_completed` with `write_duration`
  pub append_completed : FilePath → Text → Result Halt (Unit {0})
  -- `self._stopping`
  pub stopping : Bool

-- `path.name` of a path that has a last part.
abbrev pub base_name : FilePath → Text
base_name path = elim (file_name path) [ [] ↦ [] | p ∷ ps ↦ p ]

module _ {H : Type 0} where
  -- The content that libtorrent names, else the only other entry, else the whole directory.
  unfoldable pub content_path : Finish H → FilePath → Text → FilePath
  content_path w dir name =
      if w.exists (dir ++ name ∷ [])
      then dir ++ name ∷ []
      else elim (filter_by (λ entry. not (entry == source_torrent)) (w.entries dir)) [
        | [] ↦ dir
        | only ∷ [] ↦ dir ++ only ∷ []
        | a ∷ b ∷ more ↦ dir
      ]

module _ (fl : Floats) where
  open fl use {F, zero, one}

  unfoldable pub begun_job : ℕ → JobRecord F → JobRecord F
  begun_job now job = touch now (record job {
    status = encrypting;
    progress = zero;
    download_rate = zero;
    upload_rate = zero;
  })

  unfoldable pub packing_job : ℕ → JobRecord F → JobRecord F
  packing_job now job = touch now (record job {
    state = some (codes "packing");
    progress = zero;
    downloaded_bytes = 0;
    download_rate = zero;
    error = none;
  })

  unfoldable pub encrypting_job : ℕ → Bool → ℕ → JobRecord F → JobRecord F
  encrypting_job now is_file size job = touch now (record job {
    status = encrypting;
    state = some (codes "encrypting");
    progress = zero;
    download_rate = zero;
    upload_rate = zero;
    total_bytes = if is_file then some size else job.total_bytes;
    downloaded_bytes = if is_file then 0 else job.downloaded_bytes;
  })

  -- The plain name is dropped from the job with its completion.
  unfoldable pub completed_job : ℕ → Text → JobRecord F → JobRecord F
  completed_job now file_id job = touch now (record job {
    completed_file_id = some file_id;
    status = completed;
    progress = one;
    name = file_id;
  })

module _ (fl : Floats) {H : Type 0} where
  open fl use {F}

  abbrev pub remove_work_dir : Finish H → JobRecord F → Manager F H → Manager F H
  remove_work_dir w job m = elim job.work_dir [
    | none ↦ m
    | some dir ↦ if w.exists dir then emit (remove_tree dir) m else m
  ]

  -- The job is done: its snapshot goes, the message is sent, and its files are removed.
  unfoldable pub finish_job : Finish H → Text → ℕ → JobRecord F → Manager F H → Manager F H
  finish_job w original size job m =
      let job' = completed_job fl w.now w.file_id job in
      let m' = set_job job' m in
      let files = drop_persisted_job job' m'.store.snapshots in
      remove_work_dir w job' (
        emit (notify_completed original w.file_id size)
          (record m' { store = record (m'.store) { snapshots = files } }))

  -- The job as it is left, the manager, and what was raised, if anything.
  unfoldable pub finalize_path :
      Finish H → JobRecord F → FilePath → Manager F H → JobRecord F × Manager F H × Option Halt
  finalize_path w job path m =
      let is_file = w.is_file path in
      let original = if is_file then base_name path else job.name in
      let size = if is_file then w.size path else 0 in
      let job' = encrypting_job fl w.now is_file size job in
      let m' = persist fl job' m in
      elim (w.append_completed path original) [
        | err e ↦ (job', m', some e)
        | ok _ ↦ (completed_job fl w.now w.file_id job', finish_job w original size job' m', none)
      ]

  -- `content_path.is_dir()`: the directory is packed, and the archive takes its place.
  unfoldable pub pack :
      Finish H
      → FilePath
      → Text
      → FilePath
      → JobRecord F
      → Manager F H
      → JobRecord F × Manager F H × Result Halt FilePath
  pack w dir name content job m =
      if not (w.is_dir content)
      then (job, m, ok content)
      else let archive = (base_name (name ∷ [])) ++ codes ".zip" in
        let zip_path = dir ++ archive ∷ [] in
        let m' = if w.exists zip_path then emit (unlink zip_path) m else m in
        let job' = packing_job fl w.now job in
        let m'' = persist fl job' m' in
        elim (w.zip zip_path) [
          | err e ↦ (job', m'', err e)
          | ok _ ↦
              let job'' = record job' { name = archive } in (job'', set_job job'' m'', ok zip_path)
        ]

  unfoldable pub pack_and_finalize :
      Finish H
      → FilePath
      → Text
      → JobRecord F
      → Manager F H
      → JobRecord F × Manager F H × Option Halt
  pack_and_finalize w dir name job m =
      let (job', m', bundle) = pack w dir name (content_path w dir name) job m in
      elim bundle [ err e ↦ (job', m', some e) | ok path ↦ finalize_path w job' path m' ]

  -- The `try` block: what it leaves, and what it raised.
  unfoldable pub complete_body :
      Finish H → H → JobRecord F → Manager F H → JobRecord F × Manager F H × Option Halt
  complete_body w h job m = elim (w.pause h) [
    | err e ↦ (job, m, some (failure e))
    | ok _ ↦
        let m' = emit (pause_handle h) m in
        elim job.work_dir [
          | none ↦ (job, m', some (failure []))
          | some dir ↦ elim (w.content_name h) [
            | err e ↦ (job, m', some (failure e))
            | ok found ↦
                let name : Text = elim found [ none ↦ job.name | some n ↦ or_text n job.name ] in
                pack_and_finalize w dir name job m'
          ]
        ]
  ]

  -- With whether the task was cancelled: then the job is left as it is.
  unfoldable pub complete_torrent_job :
      Finish H → H → JobRecord F → Manager F H → Manager F H × Bool
  complete_torrent_job w h job m =
      let job' = begun_job fl w.now job in
      let (job'', m', raised) = complete_body w h job' (persist fl job' m) in
      elim raised [
        | some (failure e) ↦ (fail_job fl w.now e job'' m', false)
        | some task_cancelled ↦ (m', true)
        | none ↦
            let m'' = emit (remove_torrent h false) m' in
            (record m'' { handles = Dict.pop m''.handles job.id }, false)
      ]

  -- `_complete_torrent`, one holder of the lock at a time.
  unfoldable pub complete_torrent : Finish H → Text → Manager F H → Manager F H × Bool
  complete_torrent w job_id m = elim (job_of fl m job_id) [
    | none ↦ (m, false)
    | some job ↦ elim (Dict.get m.handles job_id) [
      | none ↦ (m, false)
      | some h ↦ if is_uncancellable job.status then (m, false) else complete_torrent_job w h job m
    ]
  ]
