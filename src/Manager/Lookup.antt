-- ===== src/Manager/Lookup.antt =====
-- What is registered and saved after the manager has put a job back.
use aestor.Base.{
  ◌≡◌, refl, true, false, none, some, arith, if◌then◌else◌, ◌==◌, list_eq, nat_eq, eq_refl,
}
use aestor.Base.Dict
use aestor.Base.Text.{Text}
use aestor.Jobs.Record.{JobRecord, Floats, FilePath}
use aestor.Jobs.Registry.{is_persistable, persist_job, update_job, get_job, Snapshots}
use aestor.Jobs.Snapshot.{to_persist_dict}
use aestor.Manager.State.{Manager, persist, set_job}
use aestor.Manager.Control.{job_of}

module _ (fl : Floats) where
  open fl use {F}

  -- The job as `persist_job` leaves it.
  abbrev pub saved : JobRecord F → JobRecord F
  saved job =
      if is_persistable job.status
      then (elim job.work_dir [ none ↦ job | some dir ↦ record job { dirty = false } ])
      else job

  persist_job-saved :
      (job : JobRecord F) (files : Snapshots F) → (persist_job fl job files).0 ≡ saved job
  unfolding persist_job
  persist_job-saved job files = ground arith

  pub id-saved : (job : JobRecord F) → (saved job).id ≡ job.id
  id-saved job = ground arith

  pub status-saved : (job : JobRecord F) → (saved job).status ≡ job.status
  status-saved job = ground arith

  pub error-saved : (job : JobRecord F) → (saved job).error ≡ job.error
  error-saved job = ground arith

module _ (fl : Floats) {H : Type 0} where
  open fl use {F}

  pub job_of-persist :
      (job : JobRecord F) (m : Manager F H) (k : Text)
      → job_of fl (persist fl job m) k
        ≡ (if job.id == k then some (saved fl job) else job_of fl m k)
  unfolding update_job get_job
  job_of-persist job m k = rw (Dict.get-put, persist_job-saved fl job m.store.snapshots) refl

  pub job_of-set_job :
      (job : JobRecord F) (m : Manager F H) (k : Text)
      → job_of fl (set_job job m) k ≡ (if job.id == k then some job else job_of fl m k)
  unfolding get_job
  job_of-set_job job m k = Dict.get-put m.store.jobs job.id k job

  -- The snapshot in the job's directory, after it has been persisted in a status that is kept.
  pub snapshot-persist :
      (job : JobRecord F) (m : Manager F H) (dir : FilePath)
      → is_persistable job.status ≡ true
      → job.work_dir ≡ some dir
      → Dict.get (persist fl job m).store.snapshots dir ≡ some (to_persist_dict fl job)
  unfolding update_job persist_job
  snapshot-persist job m dir keep e =
      ground (arith, Dict.get-put m.store.snapshots dir dir (to_persist_dict fl job), eq_refl dir)
