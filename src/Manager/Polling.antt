-- ===== src/Manager/Polling.antt =====
-- What a round of polling does to the jobs.
use aestor.Base.{
  ℕ, ◌≡◌, refl, ap, sym, ◌∙◌, Bool, true, false, not, List, All, if_rule, ◌≢◌, Option, none, some,
  [], ◌∷◌, arith, if◌then◌else◌, ◌==◌, list_eq, nat_eq, eq_iff, Bool-cases, inl, inr, Option-cases,
}
use aestor.Base.Dict.{Dict}
use aestor.Base.Text.{Text}
use aestor.Jobs.Record.{JobRecord, failed, Floats, touch, push_speed}
use aestor.Manager.State.{Manager, fail_job, set_job}
use aestor.Manager.Control.{job_of}
use aestor.Manager.Complete.{Finish, complete_torrent}
use aestor.Manager.Completing.{complete_torrent-Touches}
use aestor.Manager.Poll.{
  PollStatus, is_settled, polled_job, poll_done, poll_handle, poll_handles, complete_all, poll_once,
}
use aestor.Manager.Touches.{
  IsAt, IsKeyed, Touches, Touches-IsKeyed, stays, persist-Touches, set_job-Touches,
}

cons_if :
    (P : Text → Type 0) (id : Text) (ids : List Text) (done : Bool)
    → (done ≡ true → P id)
    → All P ids
    → All P (if done then id ∷ ids else ids)
cons_if P id ids true h all = (h refl, all)
cons_if P id ids false h all = all

module _ (fl : Floats) where
  open fl use {F}

  id-polled_job :
      (now : ℕ) (st : PollStatus F) (job : JobRecord F) → (polled_job fl now st job).id ≡ job.id
  unfolding polled_job touch push_speed
  id-polled_job now st job = elim (Bool-cases job.user_paused) [
    | inl user ↦ ground arith
    | inr not_user ↦ ground arith
  ]

module _ (fl : Floats) {H : Type 0} where
  open fl use {F}

  missing :
      (now : ℕ) (poll : H → Option (PollStatus F)) (message id : Text) (h : H) (m : Manager F H)
      → job_of fl m id ≡ none
      → poll_handle fl now poll message id h m ≡ (m, false)
  unfolding poll_handle
  missing now poll message id h m e = rw (e, poll_handle) refl

  settled :
      (now : ℕ) (poll : H → Option (PollStatus F)) (message id : Text) (h : H) (m : Manager F H)
      (job : JobRecord F)
      → job_of fl m id ≡ some job
      → is_settled job.status ≡ true
      → poll_handle fl now poll message id h m ≡ (m, false)
  unfolding poll_handle
  settled now poll message id h m job e over = rw (e, poll_handle) (rw over refl)

  raised :
      (now : ℕ) (poll : H → Option (PollStatus F)) (message id : Text) (h : H) (m : Manager F H)
      (job : JobRecord F)
      → job_of fl m id ≡ some job
      → is_settled job.status ≡ false
      → poll h ≡ none
      → poll_handle fl now poll message id h m ≡ (fail_job fl now message job m, false)
  unfolding poll_handle
  raised now poll message id h m job e open_ q = rw (e, poll_handle) (rw (open_, q) refl)

  answered :
      (now : ℕ) (poll : H → Option (PollStatus F)) (message id : Text) (h : H) (m : Manager F H)
      (job : JobRecord F) (st : PollStatus F)
      → job_of fl m id ≡ some job
      → is_settled job.status ≡ false
      → poll h ≡ some st
      → poll_handle fl now poll message id h m
        ≡ (set_job (polled_job fl now st job) m, poll_done fl st job)
  unfolding poll_handle
  answered now poll message id h m job st e open_ q = rw (e, poll_handle) (rw (open_, q) refl)

  fail_job-Touches :
      (now : ℕ) (e id : Text) (job : JobRecord F) (m : Manager F H)
      → job.id ≡ id
      → Touches id m.store (fail_job fl now e job m).store
  unfolding fail_job touch
  fail_job-Touches now e id job m own =
      persist-Touches fl id (touch now (record job { status = failed; error = some e })) m own

  pub poll_handle-Touches :
      (now : ℕ) (poll : H → Option (PollStatus F)) (message id : Text) (h : H) (m : Manager F H)
      → IsAt id m.store
      → Touches id m.store (poll_handle fl now poll message id h m).0.store
  poll_handle-Touches now poll message id h m at = elim (Option-cases (job_of fl m id)) [
    | inl e ↦ rw (missing now poll message id h m e) (stays id m.store at)
    | inr (job, e) ↦ elim (Bool-cases (is_settled job.status)) [
      | inl over ↦ rw (settled now poll message id h m job e over) (stays id m.store at)
      | inr open_ ↦ elim (Option-cases (poll h)) [
        | inl q ↦
            rw (raised now poll message id h m job e open_ q)
              (fail_job-Touches now message id job m (at job e))
        | inr (st, q) ↦ rw (answered now poll message id h m job st e open_ q) (
            set_job-Touches fl id (polled_job fl now st job) m
              (id-polled_job fl now st job ∙ at job e))
      ]
    ]
  ]

  -- One handle's turn leaves a settled job as it is, whosever turn it is.
  poll_handle-settled :
      (now : ℕ) (poll : H → Option (PollStatus F)) (message id : Text) (h : H) (m : Manager F H)
      (k : Text) (job : JobRecord F)
      → IsKeyed m.store
      → job_of fl m k ≡ some job
      → is_settled job.status ≡ true
      → job_of fl (poll_handle fl now poll message id h m).0 k ≡ some job
  poll_handle-settled now poll message id h m k job keyed e over = elim (Bool-cases (k == id)) [
    | inl same ↦
        let q : k ≡ id = (eq_iff k id).0 same in
        let e' : job_of fl m id ≡ some job = ap (λ j. job_of fl m j) (sym q) ∙ e in
        rw (settled now poll message id h m job e' over) e
    | inr other ↦
        (poll_handle-Touches now poll message id h m (keyed id)).0 k (ground (arith, eq_iff k id))
        ∙ e
  ]

  -- A turn that finds a job finished is not that of a settled job.
  done-other :
      (now : ℕ) (poll : H → Option (PollStatus F)) (message id : Text) (h : H) (m : Manager F H)
      (k : Text) (job : JobRecord F)
      → job_of fl m k ≡ some job
      → is_settled job.status ≡ true
      → (poll_handle fl now poll message id h m).1 ≡ true
      → id ≢ k
  done-other now poll message id h m k job e over done same =
      let idle = settled now poll message id h m job (ap (λ j. job_of fl m j) same ∙ e) over in
      ground (arith, ap (λ r. r.1) idle, done)

  poll_handles-settled :
      (now : ℕ) (poll : H → Option (PollStatus F)) (message : Text) (hs : Dict Text H)
      (m : Manager F H) (k : Text) (job : JobRecord F)
      → IsKeyed m.store
      → job_of fl m k ≡ some job
      → is_settled job.status ≡ true
      → let (m', finished) = poll_handles fl now poll message hs m in
        IsKeyed m'.store × (job_of fl m' k ≡ some job) × All (λ id. id ≢ k) finished
  unfolding poll_handles
  poll_handles-settled now poll message [] m k job keyed e over = (keyed, e, tt)
  poll_handles-settled now poll message ((id, h) ∷ hs) m k job keyed e over =
      let turn = poll_handle fl now poll message id h m in
      let (keyed', e', others) =
        poll_handles-settled now poll message hs turn.0 k job
          (Touches-IsKeyed id m.store turn.0.store
            (poll_handle-Touches now poll message id h m (keyed id)) keyed)
          (poll_handle-settled now poll message id h m k job keyed e over) over in
      (
        keyed',
        e',
        cons_if (λ id. id ≢ k) id _ turn.1
            (λ done. done-other now poll message id h m k job e over done) others,
      )

  complete_all-other :
      (finishes : Text → Finish H) (ids : List Text) (m : Manager F H) (k : Text)
      → IsKeyed m.store
      → All (λ id. id ≢ k) ids
      → let m' = (complete_all fl finishes ids m).0 in
        IsKeyed m'.store × (job_of fl m' k ≡ job_of fl m k)
  unfolding complete_all
  complete_all-other finishes [] m k keyed others = (keyed, refl)
  complete_all-other finishes (id ∷ ids) m k keyed (ne, others) =
      let run = complete_torrent fl (finishes id) id m in
      let g = complete_torrent-Touches fl (finishes id) id m (keyed id) in
      let keyed' = Touches-IsKeyed id m.store run.0.store g keyed in
      let same : job_of fl run.0 k ≡ job_of fl m k = g.0 k (λ e. ne (sym e)) in
      let (keyed'', same') = complete_all-other finishes ids run.0 k keyed' others in
      if_rule (λ (r : Manager F H × Bool). IsKeyed r.0.store × (job_of fl r.0 k ≡ job_of fl m k))
        run.1 (run.0, true) (complete_all fl finishes ids run.0) (λ e. (keyed', same))
        (λ e. (keyed'', same' ∙ same))

  -- From a registry that keeps each job under its own id, a whole round, with the completions of the
  -- jobs that it finds finished, leaves every job that was COMPLETED, FAILED, CANCELLED or ENCRYPTING
  -- before it as it is, field by field, whatever libtorrent and the completions answer; and every job
  -- stays under its own id.
  pub poll_once-settled :
      (now : ℕ) (poll : H → Option (PollStatus F)) (message : Text) (finishes : Text → Finish H)
      (m : Manager F H) (k : Text) (job : JobRecord F)
      → IsKeyed m.store
      → job_of fl m k ≡ some job
      → is_settled job.status ≡ true
      → let m' = (poll_once fl now poll message finishes m).0 in
        IsKeyed m'.store × (job_of fl m' k ≡ some job)
  unfolding poll_once
  poll_once-settled now poll message finishes m k job keyed e over =
      let round = poll_handles fl now poll message m.handles m in
      let (keyed', e', others) =
        poll_handles-settled now poll message m.handles m k job keyed e over in
      let (keyed'', same) = complete_all-other finishes round.1 round.0 k keyed' others in
      if_rule (λ (r : Manager F H × Bool). IsKeyed r.0.store × (job_of fl r.0 k ≡ some job))
        (not m.has_session) (m, false) (complete_all fl finishes round.1 round.0)
        (λ off. (keyed, e)) (λ on. (keyed'', same ∙ e'))
