-- ===== src/Manager/Cancelling.antt =====
-- Cancelling a job.
use aestor.Base.{
  ◌≡◌, ◌≢◌, refl, ap, ◌∙◌, Bool, true, false, none, some, arith, if◌then◌else◌, ◌==◌, list_eq,
  nat_eq, eq_iff, eq_refl, Bool-cases, inl, inr, ◌⊎◌, Option-cases,
}
use aestor.Base.Dict
use aestor.Base.Dict.{Dict}
use aestor.Base.Text.{Text}
use aestor.Jobs.Record.{JobRecord, JobStatus, completed, encrypting, Floats, FilePath}
use aestor.Jobs.Registry.{Store, get_job, remove_job, drop_persisted_job}
use aestor.Manager.State.{Manager, Task}
use aestor.Manager.Control.{
  is_uncancellable, drop_torrent, drop_task, drop_files, drop_blob, drop_job, cancel, job_of,
}
use aestor.Manager.Touches.{IsAt, Touches, stays}

busy_status : (s : JobStatus) → is_uncancellable s ≡ true → (s ≡ completed) ⊎ (s ≡ encrypting)
unfolding is_uncancellable
busy_status s h = ground arith

free_status : (s : JobStatus) → is_uncancellable s ≡ false → (s ≢ completed) × (s ≢ encrypting)
unfolding is_uncancellable
free_status s h = ground arith

gone : {V : Type 0} (d : Dict Text V) (k : Text) → Dict.get (Dict.pop d k) k ≡ none
gone d k = Dict.get-pop d k k ∙ ground (arith, eq_refl k)

module _ {F : Type 0} where
  jobs-remove_job :
      (id k : Text) (s : Store F)
      → get_job (remove_job id s).0 k ≡ (if id == k then none else get_job s k)
  unfolding remove_job get_job
  jobs-remove_job id k s = elim (Option-cases (Dict.get s.jobs id)) [
    | inl e ↦ rw (e, remove_job) (ground (arith, eq_iff id k))
    | inr (job, e) ↦ rw (e, remove_job) (Dict.get-pop s.jobs id k)
  ]

  snapshots-remove_job :
      (id : Text) (s : Store F) (job : JobRecord F) (dir : FilePath)
      → get_job s id ≡ some job
      → job.work_dir ≡ some dir
      → Dict.get (remove_job id s).0.snapshots dir ≡ none
  unfolding remove_job get_job drop_persisted_job
  snapshots-remove_job id s job dir e at =
      rw (e, remove_job) (ground (arith, Dict.get-pop s.snapshots dir dir, eq_refl dir))

module _ (fl : Floats) {H : Type 0} where
  open fl use {F}

  drop_torrent_lem :
      (id : Text) (m : Manager F H)
      → ((drop_torrent fl id m).store ≡ m.store)
        × ((drop_torrent fl id m).handles ≡ Dict.pop m.handles id)
        × ((drop_torrent fl id m).http_tasks ≡ m.http_tasks)
  unfolding drop_torrent
  drop_torrent_lem id m = elim (Bool-cases m.has_session) [
    | inl on ↦ elim (Option-cases (Dict.get m.handles id)) [
      | inl e ↦ ground arith
      | inr (h, e) ↦ ground arith
    ]
    | inr off ↦ ground arith
  ]

  drop_task_lem :
      (id : Text) (m : Manager F H)
      → ((drop_task fl id m).store ≡ m.store)
        × ((drop_task fl id m).handles ≡ m.handles)
        × ((drop_task fl id m).http_tasks ≡ Dict.pop m.http_tasks id)
  unfolding drop_task
  drop_task_lem id m = ground arith

  drop_files_lem :
      (dir_exists : FilePath → Bool) (job : JobRecord F) (m : Manager F H)
      → ((drop_files fl dir_exists job m).store ≡ m.store)
        × ((drop_files fl dir_exists job m).handles ≡ m.handles)
        × ((drop_files fl dir_exists job m).http_tasks ≡ m.http_tasks)
  unfolding drop_files
  drop_files_lem dir_exists job m = ground arith

  drop_blob_lem :
      (job : JobRecord F) (m : Manager F H)
      → ((drop_blob fl job m).store ≡ m.store)
        × ((drop_blob fl job m).handles ≡ m.handles)
        × ((drop_blob fl job m).http_tasks ≡ m.http_tasks)
  unfolding drop_blob
  drop_blob_lem job m = ground arith

  -- What `cancel` leaves of the four tables.
  dropped :
      (dir_exists : FilePath → Bool) (id : Text) (job : JobRecord F) (m : Manager F H)
      → let m' =
          drop_blob fl job
            (drop_files fl dir_exists job (drop_task fl id (drop_torrent fl id m))) in
        (m'.store ≡ m.store)
        × (m'.handles ≡ Dict.pop m.handles id)
        × (m'.http_tasks ≡ Dict.pop m.http_tasks id)
  dropped dir_exists id job m =
      let m1 = drop_torrent fl id m in
      let m2 = drop_task fl id m1 in
      let m3 = drop_files fl dir_exists job m2 in
      let (s4, h4, t4) = drop_blob_lem job m3 in
      let (s3, h3, t3) = drop_files_lem dir_exists job m2 in
      let (s2, h2, t2) = drop_task_lem id m1 in
      let (s1, h1, t1) = drop_torrent_lem id m in
      (
        s4 ∙ s3 ∙ s2 ∙ s1,
        h4 ∙ h3 ∙ h2 ∙ h1,
        t4 ∙ t3 ∙ t2 ∙ ap (λ (d : Dict Text Task). Dict.pop d id) t1,
      )

  cancel_missing :
      (dir_exists : FilePath → Bool) (id : Text) (m : Manager F H)
      → job_of fl m id ≡ none
      → cancel fl dir_exists id m ≡ (m, false)
  unfolding cancel
  cancel_missing dir_exists id m e = rw (e, cancel) refl

  cancel_refused :
      (dir_exists : FilePath → Bool) (id : Text) (m : Manager F H) (job : JobRecord F)
      → job_of fl m id ≡ some job
      → is_uncancellable job.status ≡ true
      → cancel fl dir_exists id m ≡ (m, false)
  unfolding cancel
  cancel_refused dir_exists id m job e busy = rw (e, cancel) (rw busy refl)

  -- `cancel` of a job that it takes.
  cancel_taken :
      (dir_exists : FilePath → Bool) (id : Text) (m : Manager F H) (job : JobRecord F)
      → job_of fl m id ≡ some job
      → is_uncancellable job.status ≡ false
      → let m' = cancel fl dir_exists id m in
        (m'.1 ≡ true)
        × (m'.0.store ≡ (remove_job id m.store).0)
        × (m'.0.handles ≡ Dict.pop m.handles id)
        × (m'.0.http_tasks ≡ Dict.pop m.http_tasks id)
  unfolding cancel drop_job
  cancel_taken dir_exists id m job e free =
      let (s, h, t) = dropped dir_exists id job m in
      rw (e, cancel)
        (rw (free, if◌then◌else◌) (refl, ap (λ (u : Store F). (remove_job id u).0) s, h, t))

  -- A job that is COMPLETED or ENCRYPTING, or an id that is not known, is left alone and the answer
  -- is False. Any other job is dropped: the answer is True, and the job is gone from the registry,
  -- with its handle, its task, and the snapshot in its work directory.
  pub cancel_lem :
      (dir_exists : FilePath → Bool) (id : Text) (m : Manager F H)
      → ((cancel fl dir_exists id m ≡ (m, false))
          × ((job_of fl m id ≡ none)
              ⊎ ((job : JobRecord F) × (job_of fl m id ≡ some job)
                  × ((job.status ≡ completed) ⊎ (job.status ≡ encrypting)))))
        ⊎ ((job : JobRecord F) × (job_of fl m id ≡ some job)
            × (job.status ≢ completed)
            × (job.status ≢ encrypting)
            × ((cancel fl dir_exists id m).1 ≡ true)
            × (job_of fl (cancel fl dir_exists id m).0 id ≡ none)
            × (Dict.get (cancel fl dir_exists id m).0.handles id ≡ none)
            × (Dict.get (cancel fl dir_exists id m).0.http_tasks id ≡ none)
            × ((dir : FilePath)
                → job.work_dir ≡ some dir
                → Dict.get (cancel fl dir_exists id m).0.store.snapshots dir ≡ none))
  cancel_lem dir_exists id m = elim (Option-cases (job_of fl m id)) [
    | inl e ↦ inl (cancel_missing dir_exists id m e, inl e)
    | inr (job, e) ↦ elim (Bool-cases (is_uncancellable job.status)) [
      | inl busy ↦
          inl (cancel_refused dir_exists id m job e busy, inr (job, e, busy_status job.status busy))
      | inr free ↦
          let (answer, st, h, t) = cancel_taken dir_exists id m job e free in
          let (no1, no2) = free_status job.status free in
          inr (
            job,
            e,
            no1,
            no2,
            answer,
            ap (λ (u : Store F). get_job u id) st
                ∙ jobs-remove_job id id m.store
                ∙ ground (arith, eq_refl id),
            ap (λ (d : Dict Text H). Dict.get d id) h ∙ gone m.handles id,
            ap (λ (d : Dict Text Task). Dict.get d id) t ∙ gone m.http_tasks id,
            (λ dir at.
                ap (λ (u : Store F). Dict.get u.snapshots dir) st
                ∙ snapshots-remove_job id m.store job dir e at),
          )
    ]
  ]

  -- No other job changes, and none gets a wrong id.
  pub cancel-Touches :
      (dir_exists : FilePath → Bool) (id : Text) (m : Manager F H)
      → IsAt id m.store
      → Touches id m.store (cancel fl dir_exists id m).0.store
  cancel-Touches dir_exists id m at = elim (Option-cases (job_of fl m id)) [
    | inl e ↦ rw (cancel_missing dir_exists id m e) (stays id m.store at)
    | inr (job, e) ↦ elim (Bool-cases (is_uncancellable job.status)) [
      | inl busy ↦ rw (cancel_refused dir_exists id m job e busy) (stays id m.store at)
      | inr free ↦ rw ((cancel_taken dir_exists id m job e free).1) (
        (λ k ne. jobs-remove_job id k m.store ∙ ground (arith, eq_iff id k)),
        (λ j found. ground (arith, jobs-remove_job id id m.store, eq_refl id)),
      )
    ]
  ]
