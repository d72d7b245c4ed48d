-- ===== src/Manager/RestoreSteps.antt =====
-- What each step of a restart leaves of one job.
use aestor.Base.{
  ◌≡◌, refl, ap, ◌∙◌, ◌++◌, append_assoc, true, false, ◌&&◌, ◌||◌, none, some, Option-cases, [],
  ◌∷◌, arith, if◌then◌else◌, if_rule, list_eq, nat_eq, eq_refl, inl, inr, ◌⊎◌,
}
use aestor.Base.Dict
use aestor.Base.Dict.{get-put}
use aestor.Base.Text.{Text}
use aestor.Jobs.Record.{JobRecord, downloading, paused, encrypting, Floats}
use aestor.Manager.State.{
  Manager, Effect, spawn, http_download, complete_torrent, finalize_http, emit, persist,
}
use aestor.Manager.Lookup.{saved, job_of-persist, id-saved, status-saved}
use aestor.Manager.Restore.{
  Step, launch, needs_finalize, wants_pause, reattach_torrent, settle, settle_torrent, ignore,
  restore_torrent, download_again, restore_http, restore_one,
}
use aestor.Manager.Restored.{
  Apart, stays_Apart, then-Apart, persist-Apart, emit-Apart, HasDriver, Stands, IsRestored,
}
use aestor.Manager.Retry.{World, is_failed}
use aestor.Manager.RetrySteps.{status_failed, kind_cases}
use aestor.Manager.Reattaching.{put-get, Reattached, launch-Apart, reattach_torrent-Reattached}

user_paused-saved :
    (fl : Floats) (job : JobRecord (fl.F)) → (saved fl job).user_paused ≡ job.user_paused
user_paused-saved fl job = ground arith

module _ (fl : Floats) {H : Type 0} where
  open fl use {F}

  pub persist-IsRestored :
      (job : JobRecord F) (m : Manager F H)
      → Stands fl job.id job m
      → IsRestored fl job.id (persist fl job m)
  persist-IsRestored job m stands =
      let status = status-saved fl job in
      (
        saved fl job,
        job_of-persist fl job m job.id ∙ rw (eq_refl job.id) refl,
        id-saved fl job,
        elim stands [
          | inl is ↦ inl (status ∙ is)
          | inr (inl (is, began)) ↦ inr (inl (status ∙ is, began))
          | inr (inr (inl is, driver)) ↦ inr (inr (inl (status ∙ is), driver))
          | inr (inr (inr (is, user), driver)) ↦
              inr (inr (inr (status ∙ is, user_paused-saved fl job ∙ user), driver))
        ],
      )

  -- What is asked of the outside later changes nothing of it.
  pub emit-IsRestored :
      (id : Text) (effect : Effect H) (m : Manager F H)
      → IsRestored fl id m
      → IsRestored fl id (emit effect m)
  emit-IsRestored id effect m (job, there, own, stands) = (
    job,
    there,
    own,
    elim stands [
      | inl is ↦ inl is
      | inr (inl (is, (before, after, d))) ↦ inr (
          inl (
            is,
            (
              before,
              after ++ effect ∷ [],
              ap (λ l. l ++ effect ∷ []) d
                  ∙ append_assoc before (spawn (finalize_http id) ∷ after) (effect ∷ []),
            ),
          ))
      | inr (inr (is, driver)) ↦ inr (inr (is, driver))
    ],
  )

  abbrev pub Ends : Text → Manager F H → Step F H → Type 0
  Ends id m (job, m', raised) =
      (job.id ≡ id) × Apart fl id m m' × (raised ≡ none → IsRestored fl id m')

  settle-Ends :
      (id : Text) (job : JobRecord F) (m m' : Manager F H)
      → job.id ≡ id
      → Apart fl id m m'
      → Stands fl job.id job m'
      → Ends id m (settle fl job m')
  unfolding settle
  settle-Ends id job m m' own apart stands = (
    own,
    then-Apart fl id m m' (persist fl job m') apart (persist-Apart fl id job m' own),
    λ e. rw (← own) (persist-IsRestored job m' stands),
  )

  settle_torrent-Ends :
      (old : JobRecord F) (m : Manager F H) (step : Step F H)
      → Reattached fl old.id old.status m step
      → Ends old.id m (settle_torrent fl old step)
  unfolding settle_torrent
  settle_torrent-Ends old m (job, m', some e) (own, apart, driven, status) = (own, apart, λ x. cc)
  settle_torrent-Ends old m (job, m', none) (own, apart, driven, status) =
      let driver : HasDriver fl job.id m' = rw own (driven refl) in
      let again : JobRecord F = record job { status = downloading; user_paused = false } in
      let still : JobRecord F = record job { user_paused = true; status = paused } in
      let on : JobRecord F = record job { status = downloading } in
      let packed = emit (spawn (complete_torrent job.id)) (persist fl again m') in
      if_rule (Ends old.id m) (needs_finalize old) (again, packed, none)
        (if wants_pause old then settle fl still m' else settle fl on m')
        (λ x. (
          own,
          then-Apart fl old.id m (persist fl again m') packed
              (then-Apart fl old.id m m' (persist fl again m') apart
                (persist-Apart fl old.id again m' own))
              (emit-Apart fl old.id (spawn (complete_torrent job.id)) (persist fl again m')),
          λ e.
              emit-IsRestored old.id (spawn (complete_torrent job.id)) (persist fl again m')
                (rw (← own) (persist-IsRestored again m' (inr (inr (inl refl, driver))))),
        ))
        (λ x.
          if_rule (Ends old.id m) (wants_pause old) (settle fl still m') (settle fl on m')
            (λ y. settle-Ends old.id still m m' own apart (inr (inr (inr (refl, refl), driver))))
            (λ y. settle-Ends old.id on m m' own apart (inr (inr (inl refl, driver)))))

  restore_torrent-Ends :
      (w : World F H) (job : JobRecord F) (m : Manager F H)
      → Ends job.id m (restore_torrent fl w job m)
  unfolding restore_torrent
  restore_torrent-Ends w job m =
      let kept = reattach_torrent fl w true job m in
      let pause = wants_pause job || needs_finalize job in
      let step = reattach_torrent fl w pause job m in
      if_rule (Ends job.id m) (is_failed job.status) (ignore fl kept) (settle_torrent fl job step)
        (λ e.
          let (own, apart, driven, status) = reattach_torrent-Reattached fl w true job m in
          settle-Ends job.id kept.0 m kept.1 own apart (elim status [
            | inl same ↦ inl (same ∙ status_failed e)
            | inr (is, driver) ↦ inr (inr (inl is, rw own driver))
          ]))
        (λ e. settle_torrent-Ends job m step (reattach_torrent-Reattached fl w pause job m))

  download_again-Ends :
      (id : Text) (job : JobRecord F) (m : Manager F H)
      → job.id ≡ id
      → (job.status ≡ downloading) ⊎ ((job.status ≡ paused) × (job.user_paused ≡ true))
      → Ends id m (download_again fl job m)
  unfolding download_again
  download_again-Ends id job m own is =
      let task = http_download job.id in
      let saved_one = persist fl job m in
      let mt = record m { http_tasks = Dict.put m.http_tasks job.id task } in
      let launched = launch-Apart fl task job saved_one in
      let launched' : Apart fl id saved_one (launch fl task job saved_one) = rw (← own) launched in
      (
        own,
        then-Apart fl id m saved_one (launch fl task job saved_one) (persist-Apart fl id job m own)
            launched',
        λ e. emit-IsRestored id (spawn task) (persist fl job mt) (
            rw (← own) (
              persist-IsRestored job mt
                (inr (inr (is, inr (task, put-get m.http_tasks job.id task)))))),
      )

  restore_http-Ends :
      (w : World F H) (job : JobRecord F) (m : Manager F H)
      → Ends job.id m (restore_http fl w job m)
  unfolding restore_http
  restore_http-Ends w job m = elim (Option-cases job.work_dir) [
    | inl e ↦ rw (e, restore_http) (refl, stays_Apart fl job.id m, λ x. cc)
    | inr (dir, e) ↦
        let there = w.is_file (dir ++ job.name ∷ []) in
        let packed : JobRecord F = record job { status = encrypting } in
        let still : JobRecord F = record job { user_paused = true; status = paused } in
        let on : JobRecord F = record job { status = downloading } in
        let began = emit (spawn (finalize_http job.id)) (persist fl packed m) in
        let go = if wants_pause job then download_again fl still m else download_again fl on m in
        rw (e, restore_http)
          (if_rule (Ends job.id m) (is_failed job.status) (settle fl job m)
            (if needs_finalize job && there then (packed, began, none) else go)
            (λ x. settle-Ends job.id job m m refl (stays_Apart fl job.id m) (inl (status_failed x)))
            (λ x.
              if_rule (Ends job.id m) (needs_finalize job && there) (packed, began, none) go
                (λ y. (
                  refl,
                  then-Apart fl job.id m (persist fl packed m) began
                      (persist-Apart fl job.id packed m refl)
                      (emit-Apart fl job.id (spawn (finalize_http job.id)) (persist fl packed m)),
                  λ z.
                      persist-IsRestored packed (emit (spawn (finalize_http job.id)) m)
                        (inr (inl (refl, (m.effects, [], refl)))),
                ))
                (λ y.
                  if_rule (Ends job.id m) (wants_pause job) (download_again fl still m)
                    (download_again fl on m)
                    (λ z. download_again-Ends job.id still m refl (inr (refl, refl)))
                    (λ z. download_again-Ends job.id on m refl (inl refl)))))
  ]

  pub restore_one-Ends :
      (w : World F H) (job : JobRecord F) (m : Manager F H) → Ends job.id m (restore_one fl w job m)
  unfolding restore_one
  restore_one-Ends w job m = elim (kind_cases job.kind) [
    | inl e ↦ rw (e, restore_one) (restore_torrent-Ends w job m)
    | inr (inl e) ↦ rw (e, restore_one) (restore_torrent-Ends w job m)
    | inr (inr e) ↦ rw (e, restore_one) (restore_http-Ends w job m)
  ]
