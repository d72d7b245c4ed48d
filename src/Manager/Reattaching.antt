-- ===== src/Manager/Reattaching.antt =====
-- How a saved torrent is handed to libtorrent again.
use aestor.Base.{
  ◌≡◌, refl, ◌∙◌, Bool, ◌&&◌, none, some, Option-cases, Bool-cases, arith, if◌then◌else◌, if_rule,
  list_eq, nat_eq, eq_refl, inl, inr, ◌⊎◌,
}
use aestor.Base.Dict
use aestor.Base.Dict.{get-put}
use aestor.Base.Result.{Result-cases}
use aestor.Base.Text.{Text, codes}
use aestor.Jobs.Record.{JobRecord, JobStatus, downloading, Floats, or_text}
use aestor.Manager.State.{
  Manager, pause_handle, resume_handle, spawn, Task, fetch_torrent, emit, persist, is_magnet,
  is_http,
}
use aestor.Manager.Restore.{
  Step, launch, is_torrent_kind, add_handle, reattach_remote, reattach_file, reattach_source,
  reattach_torrent,
}
use aestor.Manager.Restored.{
  Apart, stays_Apart, then-Apart, persist-Apart, emit-Apart, handle-Apart, task-Apart, HasDriver,
}
use aestor.Manager.Retry.{World, torrent_file}

pub put-get :
    {V : Type 0} (d : Dict.Dict Text V) (k : Text) (v : V) → Dict.get (Dict.put d k v) k ≡ some v
put-get d k v = get-put d k k v ∙ ground (arith, eq_refl k)

module _ (fl : Floats) {H : Type 0} where
  open fl use {F}

  -- A reattached job has a handle or a fetch; its status is the old one, or it is DOWNLOADING.
  abbrev pub Reattached : Text → JobStatus → Manager F H → Step F H → Type 0
  Reattached id old m (job, m', raised) =
      (job.id ≡ id)
      × Apart fl id m m'
      × (raised ≡ none → HasDriver fl id m')
      × ((job.status ≡ old) ⊎ ((job.status ≡ downloading) × HasDriver fl id m'))

  add_handle-Reattached :
      (w : World F H) (pause : Bool) (job : JobRecord F) (m : Manager F H)
      → Reattached job.id job.status m (add_handle fl w pause job m)
  unfolding add_handle
  add_handle-Reattached w pause job m = elim (Result-cases w.add_torrent) [
    | inl (e, r) ↦ rw (r, add_handle) (refl, stays_Apart fl job.id m, λ x. cc, inl refl)
    | inr (h, r) ↦
        let effect = if pause then pause_handle h else resume_handle h in
        let m' = emit effect m in
        rw (r, add_handle)
          (
            refl,
            then-Apart fl job.id m m' (record m' { handles = Dict.put m'.handles job.id h })
                (emit-Apart fl job.id effect m)
                (handle-Apart fl job.id h (emit effect m) job.id refl),
            λ x. inl (h, put-get m.handles job.id h),
            inl refl,
          )
  ]

  pub launch-Apart :
      (task : Task) (job : JobRecord F) (m : Manager F H) → Apart fl job.id m (launch fl task job m)
  launch-Apart task job m =
      let m' = record m { http_tasks = Dict.put m.http_tasks job.id task } in
      then-Apart fl job.id m m' (emit (spawn task) m') (task-Apart fl job.id task m job.id refl)
        (emit-Apart fl job.id (spawn task) m')

  reattach_remote-Reattached :
      (w : World F H) (pause : Bool) (job : JobRecord F) (m : Manager F H)
      → Reattached job.id job.status m (reattach_remote fl w pause job m)
  unfolding reattach_remote
  reattach_remote-Reattached w pause job m =
      let job' = record job { status = downloading } in
      let driven : HasDriver fl job.id (launch fl (fetch_torrent job.id) job' (persist fl job' m)) =
        inr (fetch_torrent job.id, put-get m.http_tasks job.id (fetch_torrent job.id)) in
      if_rule (Reattached job.id job.status m) (is_magnet job.source) (add_handle fl w pause job m)
        (if is_http job.source && is_torrent_kind job.kind
          then (job', launch fl (fetch_torrent job.id) job' (persist fl job' m), none)
          else (job, m, some (codes "cannot restore torrent: no magnet/torrent source")))
        (λ e. add_handle-Reattached w pause job m)
        (λ e.
          if_rule (Reattached job.id job.status m) (is_http job.source && is_torrent_kind job.kind)
            (job', launch fl (fetch_torrent job.id) job' (persist fl job' m), none)
            (job, m, some (codes "cannot restore torrent: no magnet/torrent source"))
            (λ e. (
              refl,
              then-Apart fl job.id m (persist fl job' m)
                  (launch fl (fetch_torrent job.id) job' (persist fl job' m))
                  (persist-Apart fl job.id job' m refl)
                  (launch-Apart (fetch_torrent job.id) job' (persist fl job' m)),
              λ x. driven,
              inr (refl, driven),
            ))
            (λ e. (refl, stays_Apart fl job.id m, λ x. cc, inl refl)))

  reattach_source-Reattached :
      (w : World F H) (pause : Bool) (job : JobRecord F) (m : Manager F H)
      → Reattached job.id job.status m (reattach_source fl w pause job m)
  unfolding reattach_source reattach_file
  reattach_source-Reattached w pause job m = elim (Option-cases (torrent_file fl w job)) [
    | inl e ↦ rw (e, reattach_source) (reattach_remote-Reattached w pause job m)
    | inr (path, e) ↦ elim (Result-cases (w.info_name path)) [
      | inl (f, r) ↦
          rw (e, reattach_source)
            (rw (r, reattach_file) (refl, stays_Apart fl job.id m, λ x. cc, inl refl))
      | inr (name, r) ↦
          rw (e, reattach_source)
            (rw (r, reattach_file)
              (add_handle-Reattached w pause (record job { name = or_text name job.name }) m))
    ]
  ]

  pub reattach_torrent-Reattached :
      (w : World F H) (pause : Bool) (job : JobRecord F) (m : Manager F H)
      → Reattached job.id job.status m (reattach_torrent fl w pause job m)
  unfolding reattach_torrent
  reattach_torrent-Reattached w pause job m = elim (Bool-cases m.has_session) [
    | inr e ↦ rw (e, reattach_torrent) (refl, stays_Apart fl job.id m, λ x. cc, inl refl)
    | inl e ↦ elim (Option-cases job.work_dir) [
      | inl d ↦ rw (e, reattach_torrent) (rw d (refl, stays_Apart fl job.id m, λ x. cc, inl refl))
      | inr (dir, d) ↦ rw (e, reattach_torrent) (rw d (reattach_source-Reattached w pause job m))
    ]
  ]
