-- ===== src/Manager/Pausing.antt =====
-- Pausing and resuming a job.
use aestor.Base.{
  ℕ, ◌≡◌, ◌↔◌, refl, ap, ◌∙◌, ◌&&◌, Bool, true, false, not, none, some, arith, if◌then◌else◌,
  list_eq, nat_eq, eq_iff, Bool-cases, inl, inr, ◌⊎◌, Option-cases,
}
use aestor.Base.Dict
use aestor.Base.Text.{Text}
use aestor.Jobs.Record.{
  JobRecord, JobStatus, queued, downloading, paused, Floats, FilePath, touch, new_job,
}
use aestor.Jobs.Registry.{Store, get_job, update_job, is_persistable}
use aestor.Jobs.Snapshot.{Snapshot, from_persist_dict, to_persist_dict}
use aestor.Manager.State.{Manager, pause_handle, resume_handle, save_fastresume, emit_on, persist}
use aestor.Manager.Control.{is_pausable, is_paused, paused_job, resumed_job, pause, resume, job_of}
use aestor.Manager.Lookup.{saved, job_of-persist, snapshot-persist}
use aestor.Manager.Touches.{IsAt, Touches, stays, persist-Touches, store-emit_on}

refused_not : (user : Bool) (is : Bool) → (user ≡ true) ⊎ (is ≡ true) → (not user && not is) ≡ false
refused_not user is h = ground arith

pausable : (s : JobStatus) → is_pausable s ≡ true → (s ≡ queued) ⊎ (s ≡ downloading)
unfolding is_pausable
pausable s ok = ground arith

pausable_of : (s : JobStatus) → (s ≡ queued) ⊎ (s ≡ downloading) → is_pausable s ≡ true
unfolding is_pausable
pausable_of s h = ground arith

module _ (fl : Floats) {H : Type 0} where
  open fl use {F}

  pause-store :
      (now : ℕ) (id : Text) (m : Manager F H) (job : JobRecord F)
      → job_of fl m id ≡ some job
      → is_pausable job.status ≡ true
      → ((pause fl now id m).0.store ≡ (persist fl (paused_job fl now job) m).store)
        × ((pause fl now id m).1 ≡ true)
  unfolding pause
  pause-store now id m job e ok =
      let handle = Dict.get m.handles id in
      let p = persist fl (paused_job fl now job) m in
      rw (e, pause)
        (rw (ok, if◌then◌else◌)
          (
            store-emit_on save_fastresume handle (emit_on pause_handle handle p)
                ∙ store-emit_on pause_handle handle p,
            refl,
          ))

  -- What pausing refuses.
  pause_refused :
      (now : ℕ) (id : Text) (m : Manager F H) (job : JobRecord F)
      → job_of fl m id ≡ some job
      → is_pausable job.status ≡ false
      → pause fl now id m ≡ (m, false)
  unfolding pause
  pause_refused now id m job e ok = rw (e, pause) (rw ok refl)

  pause_missing :
      (now : ℕ) (id : Text) (m : Manager F H)
      → job_of fl m id ≡ none
      → pause fl now id m ≡ (m, false)
  unfolding pause
  pause_missing now id m e = rw (e, pause) refl

  resume-store :
      (now : ℕ) (id : Text) (m : Manager F H) (job : JobRecord F)
      → job_of fl m id ≡ some job
      → (job.user_paused ≡ true) ⊎ (is_paused job.status ≡ true)
      → ((resume fl now id m).0.store ≡ (persist fl (resumed_job fl now job) m).store)
        × ((resume fl now id m).1 ≡ true)
  unfolding resume
  resume-store now id m job e ok =
      let p = λ (n : Manager F H). persist fl (resumed_job fl now job) n in
      rw (e, resume)
        (rw (refused_not job.user_paused (is_paused job.status) ok, if◌then◌else◌)
          (
            ap (λ s. update_job fl (resumed_job fl now job) s)
                (store-emit_on resume_handle (Dict.get m.handles id) m),
            refl,
          ))

  -- `pause` answers True for the jobs that are QUEUED or DOWNLOADING, and for no other id.
  pub pause_iff :
      (now : ℕ) (id : Text) (m : Manager F H)
      → ((pause fl now id m).1 ≡ true) ↔ (
          (job : JobRecord F) × (job_of fl m id ≡ some job)
          × ((job.status ≡ queued) ⊎ (job.status ≡ downloading)))
  unfolding is_pausable
  pause_iff now id m = (
    (λ answer. elim (Option-cases (job_of fl m id)) [
      | inl e ↦ ground (arith, ap (λ p. p.1) (pause_missing now id m e))
      | inr (job, e) ↦ elim (Bool-cases (is_pausable job.status)) [
        | inl ok ↦ (job, e, pausable job.status ok)
        | inr not_ok ↦ ground (arith, ap (λ p. p.1) (pause_refused now id m job e not_ok))
      ]
    ]),
    (λ (job, e, ok). (pause-store now id m job e (pausable_of job.status ok)).1),
  )

  -- A pause survives a restart: when a QUEUED or DOWNLOADING job that has a work directory is paused,
  -- job.json in that directory is read back as a job that is PAUSED, by the user.
  pub pause-survives :
      (now later : ℕ) (is_file : FilePath → Bool) (id : Text) (m : Manager F H) (job : JobRecord F)
      (dir : FilePath)
      → job_of fl m id ≡ some job
      → is_pausable job.status ≡ true
      → job.work_dir ≡ some dir
      → (d : Snapshot F) × (Dict.get (pause fl now id m).0.store.snapshots dir ≡ some d)
        × ((from_persist_dict fl is_file later d dir).status ≡ paused)
        × ((from_persist_dict fl is_file later d dir).user_paused ≡ true)
        × ((from_persist_dict fl is_file later d dir).id ≡ job.id)
  unfolding paused_job touch is_persistable from_persist_dict to_persist_dict new_job
  pause-survives now later is_file id m job dir e ok at = (
    to_persist_dict fl (paused_job fl now job),
    ap (λ (s : Store F). Dict.get s.snapshots dir) (pause-store now id m job e ok).0
        ∙ snapshot-persist fl (paused_job fl now job) m dir refl at,
    refl,
    refl,
    refl,
  )

  job_of-pause :
      (now : ℕ) (id : Text) (m : Manager F H) (job : JobRecord F)
      → job_of fl m id ≡ some job
      → job.id ≡ id
      → is_pausable job.status ≡ true
      → job_of fl (pause fl now id m).0 id ≡ some (saved fl (paused_job fl now job))
  unfolding paused_job touch
  job_of-pause now id m job e own ok =
      ap (λ s. get_job s id) (pause-store now id m job e ok).0
      ∙ job_of-persist fl (paused_job fl now job) m id
      ∙ ground (arith, eq_iff job.id id)

  job_of-resume :
      (now : ℕ) (id : Text) (m : Manager F H) (job : JobRecord F)
      → job_of fl m id ≡ some job
      → job.id ≡ id
      → (job.user_paused ≡ true) ⊎ (is_paused job.status ≡ true)
      → job_of fl (resume fl now id m).0 id ≡ some (saved fl (resumed_job fl now job))
  unfolding resumed_job touch
  job_of-resume now id m job e own ok =
      ap (λ s. get_job s id) (resume-store now id m job e ok).0
      ∙ job_of-persist fl (resumed_job fl now job) m id
      ∙ ground (arith, eq_iff job.id id)

  -- A QUEUED or DOWNLOADING job, registered under its id, that is paused and then resumed: both calls
  -- answer True, a second pause in between is refused, and at the end the job is DOWNLOADING, not
  -- paused by the user, with its progress and its bytes as before.
  pub resume-pause :
      (now later : ℕ) (id : Text) (m : Manager F H) (job : JobRecord F)
      → job_of fl m id ≡ some job
      → job.id ≡ id
      → is_pausable job.status ≡ true
      → let m1 = (pause fl now id m).0 in
        let m2 = (resume fl later id m1).0 in
        ((pause fl now id m).1 ≡ true)
        × (pause fl later id m1 ≡ (m1, false))
        × ((resume fl later id m1).1 ≡ true)
        × ((job' : JobRecord F) × (job_of fl m2 id ≡ some job')
            × (job'.status ≡ downloading)
            × (job'.user_paused ≡ false)
            × (job'.progress ≡ job.progress)
            × (job'.downloaded_bytes ≡ job.downloaded_bytes))
  unfolding paused_job resumed_job touch is_pausable is_persistable
  resume-pause now later id m job e own ok =
      let m1 = (pause fl now id m).0 in
      let p = saved fl (paused_job fl now job) in
      let at : job_of fl m1 id ≡ some p = job_of-pause now id m job e own ok in
      let user : p.user_paused ≡ true = ground arith in
      (
        (pause-store now id m job e ok).1,
        pause_refused later id m1 p at (ground arith),
        (resume-store later id m1 p at (inl user)).1,
        (
          saved fl (resumed_job fl later p),
          job_of-resume later id m1 p at (ground arith) (inl user),
          ground arith,
          ground arith,
          ground arith,
          ground arith,
        ),
      )

  -- `resume` asks for the pause flag or the PAUSED status and for nothing else: a registered
  -- job that the user had paused is put to DOWNLOADING in whatever status it is, also ENCRYPTING,
  -- COMPLETED or FAILED, and the answer is True.
  pub resume_any_status :
      (now : ℕ) (id : Text) (m : Manager F H) (job : JobRecord F)
      → job_of fl m id ≡ some job
      → job.id ≡ id
      → job.user_paused ≡ true
      → ((resume fl now id m).1 ≡ true)
        × ((job' : JobRecord F) × (job_of fl (resume fl now id m).0 id ≡ some job')
            × (job'.status ≡ downloading)
            × (job'.user_paused ≡ false))
  unfolding resumed_job touch is_persistable
  resume_any_status now id m job e own user = (
    (resume-store now id m job e (inl user)).1,
    (
      saved fl (resumed_job fl now job),
      job_of-resume now id m job e own (inl user),
      ground arith,
      ground arith,
    ),
  )

  -- Pausing and resuming change no other job.
  pub pause-Touches :
      (now : ℕ) (id : Text) (m : Manager F H)
      → IsAt id m.store
      → Touches id m.store (pause fl now id m).0.store
  unfolding paused_job touch
  pause-Touches now id m at = elim (Option-cases (job_of fl m id)) [
    | inl e ↦ rw (pause_missing now id m e) (stays id m.store at)
    | inr (job, e) ↦ elim (Bool-cases (is_pausable job.status)) [
      | inl ok ↦
          rw ((pause-store now id m job e ok).0)
            (persist-Touches fl id (paused_job fl now job) m (at job e))
      | inr other ↦ rw (pause_refused now id m job e other) (stays id m.store at)
    ]
  ]

  pub resume-Touches :
      (now : ℕ) (id : Text) (m : Manager F H)
      → IsAt id m.store
      → Touches id m.store (resume fl now id m).0.store
  unfolding resumed_job touch resume
  resume-Touches now id m at = elim (Option-cases (job_of fl m id)) [
    | inl e ↦ rw (e, resume) (stays id m.store at)
    | inr (job, e) ↦ elim (Bool-cases job.user_paused) [
      | inl user ↦
          rw ((resume-store now id m job e (inl user)).0)
            (persist-Touches fl id (resumed_job fl now job) m (at job e))
      | inr other ↦ elim (Bool-cases (is_paused job.status)) [
        | inl is ↦
            rw ((resume-store now id m job e (inr is)).0)
              (persist-Touches fl id (resumed_job fl now job) m (at job e))
        | inr neither ↦ rw (e, resume) (rw (other, neither) (stays id m.store at))
      ]
    ]
  ]
