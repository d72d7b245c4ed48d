-- ===== src/Manager/Restoring.antt =====
-- A restart as a whole: no job is left behind.
use aestor.Base.{
  ℕ, append-nil, ◌≢◌, refl, sym, ◌∙◌, ◌++◌, Bool, true, false, none, some, List, [], ◌∷◌, All,
  arith, list_eq, nat_eq, eq_iff, inl,
}
use aestor.Base.Text.{Text, codes}
use aestor.Jobs.Record.{JobRecord, failed, Floats, FilePath, touch}
use aestor.Jobs.Registry.{add_job, load_persisted_jobs}
use aestor.Manager.State.{Manager, notify_failed, emit, persist, fail_job}
use aestor.Manager.Lookup.{job_of-set_job}
use aestor.Manager.Restore.{Step, restore_one, end_restore, restore_job, restore_jobs, start}
use aestor.Manager.Restored.{
  Apart, then-Apart, persist-Apart, emit-Apart, IsRestored, Apart-IsRestored,
}
use aestor.Manager.Retry.{World}
use aestor.Manager.RestoreSteps.{Ends, persist-IsRestored, emit-IsRestored, restore_one-Ends}

abbrev pub DistinctIds : {F : Type 0} → List (JobRecord F) → Type 0
DistinctIds [] = Unit
DistinctIds {F} (job ∷ jobs) =
    All (λ (other : JobRecord F). other.id ≢ job.id) jobs × DistinctIds jobs

module _ (fl : Floats) {H : Type 0} where
  open fl use {F}

  -- The end of one job's restore.
  abbrev Done : Text → Manager F H → Manager F H → Type 0
  Done id m m' = Apart fl id m m' × IsRestored fl id m'

  end_restore-Done :
      (id : Text) (now : ℕ) (m : Manager F H) (step : Step F H)
      → Ends fl id m step
      → Done id m (end_restore fl now step)
  unfolding end_restore fail_job touch
  end_restore-Done id now m (job, m', none) (own, apart, restored) = (apart, restored refl)
  end_restore-Done id now m (job, m', some e) (own, apart, restored) =
      let text = codes "restore failed: " ++ e in
      let job' = touch now (record job { status = failed; error = some text }) in
      let m'' = persist fl job' m' in
      (
        then-Apart fl id m m'' (emit (notify_failed job.name text) m'')
            (then-Apart fl id m m' m'' apart (persist-Apart fl id job' m' own))
            (emit-Apart fl id (notify_failed job.name text) m''),
        emit-IsRestored fl id (notify_failed job.name text) m''
            (rw (← own) (persist-IsRestored fl job' m' (inl refl))),
      )

  restore_job-Done :
      (w : World F H) (job : JobRecord F) (m : Manager F H) → Done job.id m (restore_job fl w job m)
  unfolding restore_job add_job
  restore_job-Done w job m =
      let m₁ = record m { store = add_job fl job false m.store } in
      let begun : Apart fl job.id m m₁ = (
        λ k ne. (job_of-set_job fl job m k ∙ ground (arith, eq_iff job.id k), refl, refl),
        ([], sym (append-nil m.effects)),
      ) in
      let (apart, restored) =
        end_restore-Done job.id w.now m₁ (restore_one fl w job m₁) (restore_one-Ends fl w job m₁) in
      (then-Apart fl job.id m m₁ (restore_job fl w job m) begun apart, restored)

  restore_jobs_keeps :
      (world : Text → World F H) (jobs : List (JobRecord F)) (id : Text) (m : Manager F H)
      → All (λ job. job.id ≢ id) jobs
      → IsRestored fl id m
      → IsRestored fl id (restore_jobs fl world jobs m)
  unfolding restore_jobs
  restore_jobs_keeps world [] id m others h = h
  restore_jobs_keeps world (job ∷ jobs) id m others h =
      restore_jobs_keeps world jobs id _ others.1 (
        Apart-IsRestored fl job.id id m (restore_job fl (world job.id) job m) others.0
          (restore_job-Done (world job.id) job m).0 h)

  restore_jobs-IsRestored :
      (world : Text → World F H) (jobs : List (JobRecord F)) (m : Manager F H)
      → DistinctIds jobs
      → All (λ (job : JobRecord F). IsRestored fl job.id (restore_jobs fl world jobs m)) jobs
  unfolding restore_jobs
  restore_jobs-IsRestored world [] m distinct = tt
  restore_jobs-IsRestored world (job ∷ jobs) m distinct =
      let m₁ = restore_job fl (world job.id) job m in
      (
        restore_jobs_keeps world jobs job.id m₁ distinct.0
            (restore_job-Done (world job.id) job m).1,
        restore_jobs-IsRestored world jobs m₁ distinct.1,
      )

  -- Whatever libtorrent and the files answer: after a start, each of the jobs that were read from the
  -- disk, where these have different ids, is registered under its id, and it is FAILED; or it is
  -- ENCRYPTING and its encryption was begun anew; or it is DOWNLOADING, or PAUSED by the user, and
  -- libtorrent has it or a task goes on for it. No job is left that nothing will move.
  pub start-IsRestored :
      (world : Text → World F H) (is_file : FilePath → Bool) (now : ℕ) (m : Manager F H)
      → DistinctIds (load_persisted_jobs fl is_file now m.store)
      → All
          (λ (job : JobRecord F). IsRestored fl job.id (start fl world is_file now m))
          (load_persisted_jobs fl is_file now m.store)
  unfolding start
  start-IsRestored world is_file now m distinct =
      restore_jobs-IsRestored world (load_persisted_jobs fl is_file now m.store)
        (record m { has_session = true }) distinct
