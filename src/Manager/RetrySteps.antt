-- ===== src/Manager/RetrySteps.antt =====
-- What each step of a retry leaves of the failed job.
use aestor.Base.{
  ◌≡◌, refl, ◌∙◌, ◌++◌, Bool, true, false, not, ◌&&◌, ◌||◌, none, some, [], ◌∷◌, arith, ◌==◌,
  list_eq, option_eq, nat_eq, eq_iff, Bool-cases, inl, inr, ◌⊎◌, Option-cases,
}
use aestor.Base.Dict
use aestor.Base.Result.{Result, ok, err, Result-cases}
use aestor.Base.Text.{Text, codes}
use aestor.Jobs.Record.{
  JobRecord, JobKind, magnet, torrent, http, JobStatus, failed, encrypting, Floats, FilePath, touch,
  or_text,
}
use aestor.Jobs.Registry.{Store, get_job}
use aestor.Manager.State.{
  Manager, ManagerError, session_not_started, make_dir, libtorrent_error, torrent_is_finished, emit,
  set_job, is_magnet, is_http,
}
use aestor.Manager.Control.{job_of}
use aestor.Manager.Lookup.{job_of-set_job}
use aestor.Manager.Retry.{
  World, is_failed, was_packing, claimed_job, refetched_job, Outcome, attach, add_and_attach,
  retry_attached, torrent_file, retry_source, ensure_work_dir, retry_torrent, retry_http,
  retry_by_kind,
}
use aestor.Manager.Touches.{Touches, stays, then-Touches, set_job-Touches}

pub kind_cases : (k : JobKind) → (k ≡ magnet) ⊎ ((k ≡ torrent) ⊎ (k ≡ http))
kind_cases magnet = inl refl
kind_cases torrent = inr (inl refl)
kind_cases http = inr (inr refl)

pub failed_status : {s : JobStatus} → s ≡ failed → is_failed s ≡ true
unfolding is_failed
failed_status h = ground arith

pub status_failed : {s : JobStatus} → is_failed s ≡ true → s ≡ failed
unfolding is_failed
status_failed {s} h = ground arith

-- The answer True goes with a job that has left FAILED, any other with one that is FAILED.
abbrev pub fits : Result ManagerError Bool → JobStatus → Bool
fits (ok true) s = not (is_failed s)
fits (ok false) s = is_failed s
fits (err e) s = is_failed s

module _ {F : Type 0} where
  -- A store after a retry of `id` with the answer `r`, which started from the first store.
  abbrev pub After : Text → Store F → Store F → Result ManagerError Bool → Type 0
  After id s t r =
      Touches id s t
      × ((job : JobRecord F) × (get_job t id ≡ some job) × (fits r job.status ≡ true))

  then-After :
      (id : Text) (s t u : Store F) (r : Result ManagerError Bool)
      → Touches id s t
      → After id t u r
      → After id s u r
  then-After id s t u r f (g, rest) = (then-Touches id s t u f g, rest)

  unchanged :
      (id : Text) (s : Store F) (job : JobRecord F) (r : Result ManagerError Bool)
      → get_job s id ≡ some job
      → job.id ≡ id
      → fits r job.status ≡ true
      → After id s s r
  unchanged id s job r e own fit = (stays id s (λ j found. ground arith), (job, e, fit))

module _ (fl : Floats) {H : Type 0} where
  open fl use {F}

  job_of-own :
      (id : Text) (job : JobRecord F) (m : Manager F H)
      → job.id ≡ id
      → job_of fl (set_job job m) id ≡ some job
  job_of-own id job m own = job_of-set_job fl job m id ∙ ground (arith, eq_iff job.id id)

  put-After :
      (id : Text) (job : JobRecord F) (m : Manager F H) (r : Result ManagerError Bool)
      → job.id ≡ id
      → fits r job.status ≡ true
      → After id m.store (set_job job m).store r
  put-After id job m r own fit =
      (set_job-Touches fl id job m own, (job, job_of-own id job m own, fit))

  -- A failed job that is registered under its id, and a retry of it that went well or not.
  abbrev Goes : (JobRecord F → Manager F H → Outcome F H) → Type 0
  Goes step =
      (job : JobRecord F) (m : Manager F H)
      → job_of fl m job.id ≡ some job
      → is_failed job.status ≡ true
      → After job.id m.store (step job m).0.store (step job m).1

  add_and_attach-After : (w : World F H) → Goes (add_and_attach fl w)
  unfolding add_and_attach attach claimed_job touch is_failed
  add_and_attach-After w job m e bad = elim (Result-cases w.add_torrent) [
    | inl (x, r) ↦
        rw (r, add_and_attach) (unchanged job.id m.store job (err (libtorrent_error x)) e refl bad)
    | inr (h, r) ↦
        rw (r, add_and_attach) (put-After job.id (claimed_job fl w.now job) m (ok true) refl refl)
  ]

  retry_attached-After : (w : World F H) (h : H) → Goes (retry_attached fl w h)
  unfolding retry_attached claimed_job touch is_failed
  retry_attached-After w h job m e bad =
      let after = put-After job.id (claimed_job fl w.now job) m (ok true) refl refl in
      elim (Bool-cases (torrent_is_finished fl (w.torrent_status h) || was_packing job.state)) [
        | inl done ↦ rw (done, retry_attached) after
        | inr more ↦ rw (more, retry_attached) after
      ]

  -- A change of the registered job that keeps its id and its status, before a step.
  pub Goes-After :
      (step : JobRecord F → Manager F H → Outcome F H) (job : JobRecord F) (m : Manager F H)
      → Goes step
      → is_failed job.status ≡ true
      → After job.id m.store (step job (set_job job m)).0.store (step job (set_job job m)).1
  Goes-After step job m goes bad =
      then-After job.id m.store (set_job job m).store (step job (set_job job m)).0.store
        (step job (set_job job m)).1 (set_job-Touches fl job.id job m refl)
        (goes job (set_job job m) (job_of-own job.id job m refl) bad)

  retry_source-After : (w : World F H) → Goes (retry_source fl w)
  unfolding retry_source claimed_job touch is_failed
  retry_source-After w job m e bad = elim (Option-cases (torrent_file fl w job)) [
    | inr (p, found) ↦ elim (Result-cases (w.info_name p)) [
      | inl (x, r) ↦
          rw (found, retry_source)
            (rw r (unchanged job.id m.store job (err (libtorrent_error x)) e refl bad))
      | inr (name, r) ↦
          rw (found, retry_source)
            (rw r (
              Goes-After (add_and_attach fl w) (record job { name = or_text name job.name }) m
                (add_and_attach-After w) bad))
    ]
    | inl missing ↦ elim (Bool-cases (is_magnet job.source)) [
      | inl by_magnet ↦
          rw (missing, retry_source) (rw by_magnet (add_and_attach-After w job m e bad))
      | inr other ↦ elim (Bool-cases (is_http job.source)) [
        | inl by_http ↦
            rw (missing, retry_source)
              (rw (other, by_http)
                (put-After job.id (claimed_job fl w.now job) m (ok true) refl refl))
        | inr nothing ↦
            rw (missing, retry_source)
              (rw (other, nothing) (unchanged job.id m.store job (ok false) e refl bad))
      ]
    ]
  ]

  ensure_work_dir-bare :
      (w : World F H) (job : JobRecord F) (m : Manager F H)
      → job.work_dir ≡ none
      → let dir = w.download_dir ++ job.id ∷ [] in
        let job' = record job { work_dir = some dir } in
        ensure_work_dir fl w job m ≡ (job', set_job job' (emit (make_dir dir) m))
  unfolding ensure_work_dir
  ensure_work_dir-bare w job m bare = rw (bare, ensure_work_dir) refl

  ensure_work_dir-at :
      (w : World F H) (job : JobRecord F) (m : Manager F H) (dir : FilePath)
      → job.work_dir ≡ some dir
      → ensure_work_dir fl w job m ≡ (job, m)
  unfolding ensure_work_dir
  ensure_work_dir-at w job m dir at = ground arith

  retry_torrent-started :
      (w : World F H) (job : JobRecord F) (m : Manager F H)
      → Dict.get m.handles job.id ≡ none
      → m.has_session ≡ true
      → let (job', m') = ensure_work_dir fl w job m in
        retry_torrent fl w job m ≡ retry_source fl w job' m'
  unfolding retry_torrent
  retry_torrent-started w job m absent on = rw (absent, retry_torrent) (rw on refl)

  retry_torrent-After : (w : World F H) → Goes (retry_torrent fl w)
  unfolding retry_torrent
  retry_torrent-After w job m e bad = elim (Option-cases (Dict.get m.handles job.id)) [
    | inr (h, found) ↦ rw (found, retry_torrent) (retry_attached-After w h job m e bad)
    | inl absent ↦ elim (Bool-cases m.has_session) [
      | inr off ↦
          rw (absent, retry_torrent)
            (rw off (unchanged job.id m.store job (err session_not_started) e refl bad))
      | inl on ↦ elim (Option-cases job.work_dir) [
        | inr (dir, at) ↦
            rw (retry_torrent-started w job m absent on)
              (rw (ensure_work_dir-at w job m dir at) (retry_source-After w job m e bad))
        | inl bare ↦ rw (retry_torrent-started w job m absent on) (
            rw (ensure_work_dir-bare w job m bare) (
              Goes-After (retry_source fl w)
                (record job { work_dir = some (w.download_dir ++ job.id ∷ []) })
                (emit (make_dir (w.download_dir ++ job.id ∷ [])) m) (retry_source-After w) bad))
      ]
    ]
  ]

  retry_http-After : (w : World F H) → Goes (retry_http fl w)
  unfolding retry_http refetched_job touch is_failed
  retry_http-After w job m e bad = elim (Option-cases job.work_dir) [
    | inl bare ↦ rw (bare, retry_http) (unchanged job.id m.store job (ok false) e refl bad)
    | inr (dir, at) ↦
        elim (Bool-cases
          (job.state == some (codes "encrypting") && w.is_file (dir ++ job.name ∷ []))) [
            | inl again ↦
                rw (at, retry_http)
                  (rw again (
                    put-After job.id (touch w.now (record job { status = encrypting })) m (ok true)
                      refl refl))
            | inr anew ↦ elim (Bool-cases (w.exists (dir ++ job.name ∷ []))) [
              | inl old ↦
                  rw (at, retry_http)
                    (rw (anew, old)
                      (put-After job.id (refetched_job fl w.now job) m (ok true) refl refl))
              | inr none_there ↦
                  rw (at, retry_http)
                    (rw (anew, none_there)
                      (put-After job.id (refetched_job fl w.now job) m (ok true) refl refl))
            ]
          ]
  ]

  pub retry_by_kind-After : (w : World F H) → Goes (retry_by_kind fl w)
  unfolding retry_by_kind
  retry_by_kind-After w job m e bad = elim (kind_cases job.kind) [
    | inl by_magnet ↦ rw (by_magnet, retry_by_kind) (retry_torrent-After w job m e bad)
    | inr (inl by_torrent) ↦ rw (by_torrent, retry_by_kind) (retry_torrent-After w job m e bad)
    | inr (inr by_http) ↦ rw (by_http, retry_by_kind) (retry_http-After w job m e bad)
  ]
