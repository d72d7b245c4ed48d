-- ===== src/Manager/Completing.antt =====
-- How a completion ends.
use aestor.Base.{
  ℕ, ◌≡◌, refl, ◌∙◌, true, false, none, some, arith, list_eq, nat_eq, eq_iff, Bool-cases, inl, inr,
  ◌⊎◌, Option-cases,
}
use aestor.Base.Dict
use aestor.Base.Dict.{Dict}
use aestor.Base.Text.{Text}
use aestor.Jobs.Record.{JobRecord, failed, Floats, touch}
use aestor.Manager.State.{Manager, persist, fail_job}
use aestor.Manager.Control.{job_of, is_uncancellable}
use aestor.Manager.Lookup.{saved, job_of-persist, status-saved, error-saved}
use aestor.Manager.Complete.{
  failure, task_cancelled, Finish, begun_job, complete_body, complete_torrent_job, complete_torrent,
}
use aestor.Manager.Touches.{IsAt, Touches, stays, then-Touches, persist-Touches}
use aestor.Manager.CompletionSteps.{IsDone, IsCut, IsEncrypting, complete_body-Ends}

module _ (fl : Floats) {H : Type 0} where
  open fl use {F}

  fail_job-lem :
      (now : ℕ) (e id : Text) (job : JobRecord F) (m : Manager F H)
      → job.id ≡ id
      → (j : JobRecord F) × (job_of fl (fail_job fl now e job m) id ≡ some j)
        × (j.status ≡ failed)
        × (j.error ≡ some e)
  unfolding fail_job touch
  fail_job-lem now e id job m own =
      let job' = touch now (record job { status = failed; error = some e }) in
      (
        saved fl job',
        job_of-persist fl job' m id ∙ ground (arith, eq_iff job.id id),
        status-saved fl job',
        error-saved fl job',
      )

  -- `complete_torrent` past its guards.
  started :
      (w : Finish H) (id : Text) (h : H) (m : Manager F H) (job : JobRecord F)
      → job_of fl m id ≡ some job
      → Dict.get m.handles id ≡ some h
      → is_uncancellable job.status ≡ false
      → complete_torrent fl w id m ≡ complete_torrent_job fl w h job m
  unfolding complete_torrent
  started w id h m job e handle free = rw (e, handle, complete_torrent) (rw free refl)

  -- For a job that is registered under its id, has a handle, and is neither ENCRYPTING nor COMPLETED, a
  -- completion has three ends, whatever its steps answer or raise: the job is COMPLETED, known by the id
  -- of its file alone, with no snapshot and no handle left; or it is FAILED with a message; or the task
  -- was cancelled while it packed or encrypted, and the job is left ENCRYPTING.
  pub complete_torrent_lem :
      (w : Finish H) (id : Text) (h : H) (m : Manager F H) (job : JobRecord F)
      → job_of fl m id ≡ some job
      → job.id ≡ id
      → Dict.get m.handles id ≡ some h
      → is_uncancellable job.status ≡ false
      → let (m', stopped) = complete_torrent fl w id m in
        ((stopped ≡ false) × IsDone w.file_id id m'.store × (Dict.get m'.handles id ≡ none))
        ⊎ (((stopped ≡ false)
              × ((j : JobRecord F) × (e : Text) × (job_of fl m' id ≡ some j)
                  × (j.status ≡ failed)
                  × (j.error ≡ some e)))
            ⊎ ((stopped ≡ true) × IsCut w × IsEncrypting id m'.store))
  unfolding complete_torrent_job begun_job touch
  complete_torrent_lem w id h m job e own handle free =
      let job1 = begun_job fl w.now job in
      let m1 = persist fl job1 m in
      let body = complete_body fl w h job1 m1 in
      let (own', g, done, cut) =
        complete_body-Ends fl w id h job1 m1 (persist-Touches fl id job1 m own).1 own refl in
      rw (started w id h m job e handle free) (elim (Option-cases body.2) [
        | inl fine ↦ inl (
            rw (fine, complete_torrent_job)
              (
                refl,
                done fine,
                Dict.get-pop body.1.handles job.id id ∙ ground (arith, eq_iff job.id id),
              ))
        | inr (failure x, r) ↦ inr (
            inl (
              rw (r, complete_torrent_job)
                (let (j, found, bad, why) = fail_job-lem w.now x id body.0 body.1 own' in
                  (refl, (j, x, found, bad, why)))))
        | inr (task_cancelled, r) ↦
            let (answered, left) = cut r in
            inr (inr (rw (r, complete_torrent_job) (refl, answered, left)))
      ])

  complete_torrent_job-Touches :
      (w : Finish H) (id : Text) (h : H) (m : Manager F H) (job : JobRecord F)
      → job.id ≡ id
      → Touches id m.store (complete_torrent_job fl w h job m).0.store
  unfolding complete_torrent_job begun_job fail_job touch
  complete_torrent_job-Touches w id h m job own =
      let job1 = begun_job fl w.now job in
      let m1 = persist fl job1 m in
      let body = complete_body fl w h job1 m1 in
      let first = persist-Touches fl id job1 m own in
      let (own', g, done, cut) = complete_body-Ends fl w id h job1 m1 first.1 own refl in
      let both = then-Touches id m.store m1.store body.1.store first g in
      elim (Option-cases body.2) [
        | inl fine ↦ rw (fine, complete_torrent_job) both
        | inr (task_cancelled, r) ↦ rw (r, complete_torrent_job) both
        | inr (failure x, r) ↦
            let job2 = touch w.now (record (body.0) { status = failed; error = some x }) in
            rw (r, complete_torrent_job)
              (then-Touches id m.store body.1.store (persist fl job2 body.1).store both
                (persist-Touches fl id job2 body.1 own'))
      ]

  -- No other job changes in a completion, and none gets a wrong id.
  pub complete_torrent-Touches :
      (w : Finish H) (id : Text) (m : Manager F H)
      → IsAt id m.store
      → Touches id m.store (complete_torrent fl w id m).0.store
  unfolding complete_torrent
  complete_torrent-Touches w id m at = elim (Option-cases (job_of fl m id)) [
    | inl e ↦ rw (e, complete_torrent) (stays id m.store at)
    | inr (job, e) ↦ elim (Option-cases (Dict.get m.handles id)) [
      | inl bare ↦ rw (e, bare, complete_torrent) (stays id m.store at)
      | inr (h, handle) ↦ elim (Bool-cases (is_uncancellable job.status)) [
        | inl busy ↦ rw (e, handle, complete_torrent) (rw busy (stays id m.store at))
        | inr free ↦
            rw (started w id h m job e handle free)
              (complete_torrent_job-Touches w id h m job (at job e))
      ]
    ]
  ]
