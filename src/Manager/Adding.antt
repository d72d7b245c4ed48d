-- ===== src/Manager/Adding.antt =====
-- The three ends of a call that adds a job.
use aestor.Base.{
  ◌≡◌, refl, ap, sym, ◌∙◌, ◌++◌, Bool, true, false, not, none, some, [], ◌∷◌, arith, if◌then◌else◌,
  list_eq, nat_eq, eq_iff, eq_refl, inl, inr, ◌⊎◌, ◌||◌, if_rule,
}
use aestor.Base.Dict
use aestor.Base.Dict.{Dict}
use aestor.Base.Result.{Result, ok, err, Result-cases}
use aestor.Base.Text.{Text, strip}
use aestor.Jobs.Record.{
  JobRecord, torrent, JobStatus, queued, downloading, Floats, touch, new_job, or_text,
}
use aestor.Jobs.Registry.{add_job}
use aestor.Jobs.Snapshot.{source_torrent}
use aestor.Manager.State.{
  Manager, session_not_started, unsupported_url, libtorrent_error, resume_handle, make_dir, Task,
  emit, persist, set_job, is_magnet, is_http,
}
use aestor.Manager.Control.{job_of}
use aestor.Manager.Lookup.{saved, job_of-persist, job_of-set_job, status-saved}
use aestor.Manager.Add.{Answers, Added, start_torrent, start_upload, add_torrent_bytes}

put-get : {V : Type 0} (d : Dict Text V) (k : Text) (v : V) → Dict.get (Dict.put d k v) k ≡ some v
put-get d k v = Dict.get-put d k k v ∙ ground (arith, eq_refl k)

-- What `torrent_info` raises, else what `add_torrent` answers.
abbrev pub upload_answer : {H : Type 0} → Answers H → Result Text H
upload_answer a = elim a.info_name [ err e ↦ err e | ok name ↦ a.add_torrent ]

-- The tests of `add_url`.
abbrev pub is_known : Text → Bool
is_known raw = is_magnet (strip raw) || is_http (strip raw)

module _ (fl : Floats) {H : Type 0} where
  open fl use {F}

  -- A job is registered under the new id in the status `s`.
  abbrev pub IsIn : JobStatus → Text → Manager F H → Type 0
  IsIn s id m = (job : JobRecord F) × (job_of fl m id ≡ some job) × (job.status ≡ s)

  -- With a session and a known scheme, the job is started, with the handle that libtorrent answers or
  -- with a task, or libtorrent raises and the job is left QUEUED; without them, nothing has changed and
  -- the error says which was missing. `known` is the test of the scheme and `answer` what libtorrent
  -- makes of the torrent.
  abbrev pub AddEnds : Bool → Result Text H → Answers H → Manager F H → Added F H → Type 0
  AddEnds known answer a m out =
      ((known ≡ true)
        × (m.has_session ≡ true)
        × ((job : JobRecord F) × (out.1 ≡ ok job)
            × (job.status ≡ downloading)
            × IsIn downloading a.job_id out.0
            × (((h : H) × (answer ≡ ok h) × (Dict.get out.0.handles a.job_id ≡ some h))
                ⊎ ((t : Task) × (Dict.get out.0.http_tasks a.job_id ≡ some t)))))
      ⊎ (((out.0 ≡ m)
            × (((known ≡ true) × (m.has_session ≡ false) × (out.1 ≡ err session_not_started))
                ⊎ ((known ≡ false) × (out.1 ≡ err unsupported_url))))
          ⊎ ((known ≡ true)
              × (m.has_session ≡ true)
              × ((message : Text) × (answer ≡ err message)
                  × (out.1 ≡ err (libtorrent_error message))
                  × IsIn queued a.job_id out.0)))

  persist-IsIn :
      (s : JobStatus) (id : Text) (job : JobRecord F) (m : Manager F H)
      → job.id ≡ id
      → job.status ≡ s
      → IsIn s id (persist fl job m)
  persist-IsIn s id job m own is = (
    saved fl job,
    job_of-persist fl job m id ∙ ground (arith, eq_iff job.id id),
    status-saved fl job ∙ is,
  )

  -- A call past its guards.
  abbrev Starts : Result Text H → Answers H → Added F H → Type 0
  Starts answer a out =
      ((job : JobRecord F) × (out.1 ≡ ok job)
        × (job.status ≡ downloading)
        × IsIn downloading a.job_id out.0
        × (((h : H) × (answer ≡ ok h) × (Dict.get out.0.handles a.job_id ≡ some h))
            ⊎ ((t : Task) × (Dict.get out.0.http_tasks a.job_id ≡ some t))))
      ⊎ ((message : Text) × (answer ≡ err message)
          × (out.1 ≡ err (libtorrent_error message))
          × IsIn queued a.job_id out.0)

  started-AddEnds :
      (answer : Result Text H) (a : Answers H) (m : Manager F H) (out : Added F H)
      → m.has_session ≡ true
      → Starts answer a out
      → AddEnds true answer a m out
  started-AddEnds answer a m out on (inl (job, e, s, is, by)) = inl (refl, on, (job, e, s, is, by))
  started-AddEnds answer a m out on (inr (message, e, r, is)) =
      inr (inr (refl, on, (message, e, r, is)))

  -- Behind the test of the session.
  guarded-AddEnds :
      (answer : Result Text H) (a : Answers H) (m : Manager F H) (out : Added F H)
      → Starts answer a out
      → AddEnds true answer a m (if not m.has_session then (m, err session_not_started) else out)
  guarded-AddEnds answer a m out starts =
      if_rule (AddEnds true answer a m) (not m.has_session) (m, err session_not_started) out
        (λ e. inr (inl (refl, inl (refl, ground arith, refl))))
        (λ e. started-AddEnds answer a m out (ground arith) starts)

  start_torrent-Starts :
      (a : Answers H) (job : JobRecord F) (m : Manager F H)
      → job.id ≡ a.job_id
      → IsIn queued a.job_id m
      → Starts a.add_torrent a (start_torrent fl a job m)
  unfolding start_torrent touch
  start_torrent-Starts a job m own waits = elim (Result-cases a.add_torrent) [
    | inl (e, r) ↦ inr (e, r, rw (r, start_torrent) refl, rw (r, start_torrent) waits)
    | inr (h, r) ↦
        let job' = touch a.now (record job { status = downloading }) in
        let m1 = emit (resume_handle h) m in
        let m2 = record m1 { handles = Dict.put m1.handles job.id h } in
        inl (
          job',
          rw (r, start_torrent) refl,
          refl,
          rw (r, start_torrent) (persist-IsIn downloading a.job_id job' m2 own refl),
          inl (
            h,
            r,
            rw (r, start_torrent)
                (ap (Dict.get (Dict.put m.handles job.id h)) (sym own)
                  ∙ put-get m.handles job.id h),
          ),
        )
  ]

  start_upload-Starts :
      (a : Answers H) (filename : Text) (job : JobRecord F) (m : Manager F H)
      → job.id ≡ a.job_id
      → job.status ≡ queued
      → IsIn queued a.job_id m
      → Starts (upload_answer a) a (start_upload fl a filename job m)
  unfolding start_upload
  start_upload-Starts a filename job m own is waits = elim (Result-cases a.info_name) [
    | inl (e, r) ↦ rw (r, start_upload) (inr (e, refl, refl, waits))
    | inr (info, r) ↦
        let job' = record job { name = or_text info filename } in
        rw (r, start_upload)
          (start_torrent-Starts a job' (set_job job' m) own
            (job', job_of-set_job fl job' m a.job_id ∙ ground (arith, eq_iff job.id a.job_id), is))
  ]

  -- With a session, `add_torrent_bytes` registers an uploaded torrent as DOWNLOADING, with the handle
  -- that libtorrent answers or with a task under its id; or libtorrent cannot read the file or refuses
  -- it, and then the call raises its message and the job is left registered as QUEUED. Without a
  -- session the call raises for want of it, and the manager is as it was.
  pub add_torrent_bytes-AddEnds :
      (a : Answers H) (filename : Text) (m : Manager F H)
      → AddEnds true (upload_answer a) a m (add_torrent_bytes fl a filename m)
  unfolding add_torrent_bytes add_job new_job
  add_torrent_bytes-AddEnds a filename m =
      let dir = a.download_dir ++ a.job_id ∷ [] in
      let job : JobRecord F = record (new_job fl a.now a.job_id torrent filename filename none) {
        torrent_path = some (dir ++ source_torrent ∷ []);
        work_dir = some dir;
      } in
      let m' = persist fl job (emit (make_dir dir) m) in
      guarded-AddEnds (upload_answer a) a m (start_upload fl a filename job m') (
        start_upload-Starts a filename job m' refl refl
          (persist-IsIn queued a.job_id job (emit (make_dir dir) m) refl refl))
