-- ===== src/Manager/Retrying.antt =====
-- Retrying a failed job: the claim that keeps a second retry out.
use aestor.Base.{
  ◌≡◌, ◌≢◌, refl, ap, sym, ◌∙◌, true, false, none, some, arith, list_eq, option_eq, nat_eq,
  Bool-cases, inl, inr, ◌⊎◌, Option-cases,
}
use aestor.Base.Result.{ok, Result-cases}
use aestor.Base.Text.{Text}
use aestor.Jobs.Record.{JobRecord, failed, Floats, touch}
use aestor.Manager.State.{Manager, set_job, has_key}
use aestor.Manager.Control.{job_of}
use aestor.Manager.Retry.{World, is_failed, cleared_job, retry_by_kind, retry}
use aestor.Manager.Touches.{IsAt, Touches, stays}
use aestor.Manager.RetrySteps.{
  fits, After, failed_status, status_failed, Goes-After, retry_by_kind-After,
}

module _ (fl : Floats) {H : Type 0} where
  open fl use {F}

  -- The retries that are taken up.
  taken_up :
      (w : World F H) (id : Text) (m : Manager F H) (job : JobRecord F)
      → job_of fl m id ≡ some job
      → is_failed job.status ≡ true
      → has_key m.http_tasks id ≡ false
      → retry fl w id m
        ≡ retry_by_kind fl w (cleared_job fl w.now job) (set_job (cleared_job fl w.now job) m)
  unfolding retry
  taken_up w id m job e bad idle = rw (e, retry) (rw (bad, idle) refl)

  refused :
      (w : World F H) (id : Text) (m : Manager F H) (job : JobRecord F)
      → job_of fl m id ≡ some job
      → (is_failed job.status ≡ false) ⊎ (has_key m.http_tasks id ≡ true)
      → retry fl w id m ≡ (m, ok false)
  unfolding retry
  refused w id m job e (inl other) = rw (e, retry) (rw other refl)
  refused w id m job e (inr busy) = elim (Bool-cases (is_failed job.status)) [
    | inl bad ↦ rw (e, retry) (rw (bad, busy) refl)
    | inr other ↦ rw (e, retry) (rw other refl)
  ]

  missing :
      (w : World F H) (id : Text) (m : Manager F H)
      → job_of fl m id ≡ none
      → retry fl w id m ≡ (m, ok false)
  unfolding retry
  missing w id m e = rw (e, retry) refl

  own-After :
      (w : World F H) (m : Manager F H) (job : JobRecord F)
      → job_of fl m job.id ≡ some job
      → is_failed job.status ≡ true
      → has_key m.http_tasks job.id ≡ false
      → After job.id m.store (retry fl w job.id m).0.store (retry fl w job.id m).1
  unfolding cleared_job touch
  own-After w m job e bad idle = rw (taken_up w job.id m job e bad idle) (
      Goes-After fl (retry_by_kind fl w) (cleared_job fl w.now job) m (retry_by_kind-After fl w)
        bad)

  taken_up-After :
      (w : World F H) (id : Text) (m : Manager F H) (job : JobRecord F)
      → job_of fl m id ≡ some job
      → job.id ≡ id
      → is_failed job.status ≡ true
      → has_key m.http_tasks id ≡ false
      → After id m.store (retry fl w id m).0.store (retry fl w id m).1
  taken_up-After w id m job e own bad idle = rw (sym own) (
      own-After w m job (ap (λ k. job_of fl m k) own ∙ e) bad
        (ap (λ k. has_key m.http_tasks k) own ∙ idle))

  -- No other job changes in a retry, and none gets a wrong id.
  pub retry-Touches :
      (w : World F H) (id : Text) (m : Manager F H)
      → IsAt id m.store
      → Touches id m.store (retry fl w id m).0.store
  retry-Touches w id m at = elim (Option-cases (job_of fl m id)) [
    | inl e ↦ rw (missing w id m e) (stays id m.store at)
    | inr (job, e) ↦ elim (Bool-cases (is_failed job.status)) [
      | inr other ↦ rw (refused w id m job e (inl other)) (stays id m.store at)
      | inl bad ↦ elim (Bool-cases (has_key m.http_tasks id)) [
        | inl busy ↦ rw (refused w id m job e (inr busy)) (stays id m.store at)
        | inr idle ↦ (taken_up-After w id m job e (at job e) bad idle).0
      ]
    ]
  ]

  -- A retry of a job that is registered under its id, is FAILED and has no task leaves the job
  -- registered: with the answer True it is FAILED no longer, and a second retry then answers False and
  -- changes nothing; with the answer False or an exception it is still FAILED, so that the user can
  -- try again.
  pub retry_claims :
      (w w2 : World F H) (id : Text) (m : Manager F H) (job : JobRecord F)
      → job_of fl m id ≡ some job
      → job.id ≡ id
      → job.status ≡ failed
      → has_key m.http_tasks id ≡ false
      → let m1 = (retry fl w id m).0 in
        (((retry fl w id m).1 ≡ ok true)
          × ((job' : JobRecord F) × (job_of fl m1 id ≡ some job') × (job'.status ≢ failed))
          × (retry fl w2 id m1 ≡ (m1, ok false)))
        ⊎ (((retry fl w id m).1 ≢ ok true)
            × ((job' : JobRecord F) × (job_of fl m1 id ≡ some job') × (job'.status ≡ failed)))
  retry_claims w w2 id m job e own bad idle =
      let m1 = (retry fl w id m).0 in
      let (_, (j, at, fit)) = taken_up-After w id m job e own (failed_status bad) idle in
      elim (Result-cases (retry fl w id m).1) [
        | inl (x, r) ↦
            inr (ground arith, (j, at, status_failed (ap (λ a. fits a j.status) (sym r) ∙ fit)))
        | inr (answer, r) ↦ elim (Bool-cases answer) [
          | inl t ↦
              let left : is_failed j.status ≡ false = ground arith in
              inl (
                r ∙ ap ok t,
                (j, at, λ bad_again. ground (arith, failed_status bad_again)),
                refused w2 id m1 j at (inl left),
              )
          | inr f ↦ inr (
            ground arith,
            (j, at, status_failed (ap (λ a. fits a j.status) (sym (r ∙ ap ok f)) ∙ fit)),
          )
        ]
      ]
