-- ===== src/Manager/CompletionSteps.antt =====
-- What each step of a completion leaves of the job.
use aestor.Base.{
  ℕ, ◌≡◌, refl, ap, ◌∙◌, ◌++◌, Option, none, some, [], ◌∷◌, arith, if◌then◌else◌, list_eq, nat_eq,
  eq_iff, eq_refl, Bool-cases, inl, inr, ◌⊎◌, Option-cases,
}
use aestor.Base.Dict
use aestor.Base.Dict.{Dict}
use aestor.Base.Result.{err, Result-cases}
use aestor.Base.Text.{Text, codes}
use aestor.Jobs.Record.{JobRecord, encrypting, completed, Floats, FilePath, touch, or_text}
use aestor.Jobs.Registry.{Store, get_job, drop_persisted_job, Snapshots}
use aestor.Manager.State.{Manager, notify_completed, pause_handle, unlink, emit, persist, set_job}
use aestor.Manager.Lookup.{saved, job_of-persist, job_of-set_job, status-saved}
use aestor.Manager.Complete.{
  Halt, failure, task_cancelled, Finish, base_name, content_path, packing_job, encrypting_job,
  completed_job, finish_job, finalize_path, pack, pack_and_finalize, complete_body, remove_work_dir,
}
use aestor.Manager.Touches.{IsAt, Touches, stays, then-Touches, persist-Touches, set_job-Touches}

-- The outside has answered a step with the cancellation of the task.
abbrev pub IsCut : {H : Type 0} → Finish H → Type 0
IsCut w =
    ((path : FilePath) × (w.zip path ≡ err task_cancelled))
    ⊎ ((path : FilePath) × (name : Text) × (w.append_completed path name ≡ err task_cancelled))

module _ {F : Type 0} where
  -- The job under `id` is ENCRYPTING.
  abbrev pub IsEncrypting : Text → Store F → Type 0
  IsEncrypting id s = (job : JobRecord F) × (get_job s id ≡ some job) × (job.status ≡ encrypting)

  -- The job under `id` is completed: only the id of its file is left of its name, and its snapshot
  -- is gone.
  abbrev pub IsDone : Text → Text → Store F → Type 0
  IsDone file_id id s =
      (job : JobRecord F) × (get_job s id ≡ some job)
      × (job.status ≡ completed)
      × (job.name ≡ file_id)
      × (job.completed_file_id ≡ some file_id)
      × ((dir : FilePath) → job.work_dir ≡ some dir → Dict.get s.snapshots dir ≡ none)

  drop_persisted_job-gone :
      (job : JobRecord F) (files : Snapshots F) (dir : FilePath)
      → job.work_dir ≡ some dir
      → Dict.get (drop_persisted_job job files) dir ≡ none
  unfolding drop_persisted_job
  drop_persisted_job-gone job files dir at = ground (arith, Dict.get-pop files dir dir, eq_refl dir)

module _ (fl : Floats) {H : Type 0} where
  open fl use {F}

  -- A step of the completion: what it returns is about the same job; if it did not raise, the job is
  -- completed; if the task was cancelled, the job is still ENCRYPTING.
  abbrev Ends : Finish H → Text → Store F → JobRecord F × Manager F H × Option Halt → Type 0
  Ends w id s (job, m, raised) =
      (job.id ≡ id)
      × Touches id s m.store
      × (raised ≡ none → IsDone w.file_id id m.store)
      × (raised ≡ some task_cancelled → IsCut w × IsEncrypting id m.store)

  then-Ends :
      (w : Finish H) (id : Text) (s t : Store F) (out : JobRecord F × Manager F H × Option Halt)
      → Touches id s t
      → Ends w id t out
      → Ends w id s out
  then-Ends w id s t (job, m, raised) f (own, g, done, cut) =
      (own, then-Touches id s t m.store f g, done, cut)

  store-remove_work_dir :
      (w : Finish H) (job : JobRecord F) (m : Manager F H)
      → (remove_work_dir fl w job m).store ≡ m.store
  store-remove_work_dir w job m = ground arith

  finish_job-store :
      (w : Finish H) (original : Text) (size : ℕ) (job : JobRecord F) (m : Manager F H)
      → let job' = completed_job fl w.now w.file_id job in
        (finish_job fl w original size job m).store ≡ record {
          jobs = Dict.put m.store.jobs job'.id job';
          snapshots = drop_persisted_job job' m.store.snapshots;
        }
  unfolding finish_job
  finish_job-store w original size job m =
      let job' = completed_job fl w.now w.file_id job in
      store-remove_work_dir w job' (
        emit (notify_completed original w.file_id size) (record (set_job job' m) {
          store = record {
            jobs = Dict.put m.store.jobs job'.id job';
            snapshots = drop_persisted_job job' m.store.snapshots;
          };
        }))

  finish_job-Ends :
      (w : Finish H) (original : Text) (size : ℕ) (id : Text) (job : JobRecord F) (m : Manager F H)
      → job.id ≡ id
      → let m' = finish_job fl w original size job m in
        Touches id m.store m'.store × IsDone w.file_id id m'.store
  unfolding completed_job touch get_job
  finish_job-Ends w original size id job m own =
      let job' = completed_job fl w.now w.file_id job in
      rw (finish_job-store w original size job m) (
        set_job-Touches fl id job' m own,
        (
          job',
          job_of-set_job fl job' m id ∙ ground (arith, eq_iff job.id id),
          refl,
          refl,
          refl,
          drop_persisted_job-gone job' m.store.snapshots,
        ),
      )

  persist-IsEncrypting :
      (id : Text) (job : JobRecord F) (m : Manager F H)
      → job.id ≡ id
      → job.status ≡ encrypting
      → IsEncrypting id (persist fl job m).store
  persist-IsEncrypting id job m own is = (
    saved fl job,
    job_of-persist fl job m id ∙ ground (arith, eq_iff job.id id),
    status-saved fl job ∙ is,
  )

  finalize_path-Ends :
      (w : Finish H) (id : Text) (job : JobRecord F) (path : FilePath) (m : Manager F H)
      → job.id ≡ id
      → Ends w id m.store (finalize_path fl w job path m)
  unfolding finalize_path encrypting_job completed_job touch
  finalize_path-Ends w id job path m own =
      let original = if w.is_file path then base_name path else job.name in
      let size = if w.is_file path then w.size path else 0 in
      let job' = encrypting_job fl w.now (w.is_file path) size job in
      let saved_first = persist-Touches fl id job' m own in
      elim (Result-cases (w.append_completed path original)) [
        | inl (failure e, r) ↦
            rw (r, finalize_path) (own, saved_first, (λ quiet. ground arith), (λ cut. cc))
        | inl (task_cancelled, r) ↦
            rw (r, finalize_path)
              (
                own,
                saved_first,
                (λ quiet. ground arith),
                (λ cut. (inr (path, original, r), persist-IsEncrypting id job' m own refl)),
              )
        | inr (x, r) ↦
            let (g, done) = finish_job-Ends w original size id job' (persist fl job' m) own in
            rw (r, finalize_path)
              (
                own,
                then-Touches id m.store (persist fl job' m).store
                    (finish_job fl w original size job' (persist fl job' m)).store saved_first g,
                (λ quiet. done),
                (λ cut. cc),
              )
      ]

  persist-Touches_of :
      (id : Text) (job : JobRecord F) (s : Store F) (m : Manager F H)
      → m.store ≡ s
      → job.id ≡ id
      → Touches id s (persist fl job m).store
  persist-Touches_of id job s m e own =
      let (other, at) = persist-Touches fl id job m own in
      ((λ k ne. other k ne ∙ ap (λ (t : Store F). get_job t k) e), at)

  pack-Touches :
      (w : Finish H) (id : Text) (dir : FilePath) (name : Text) (content : FilePath)
      (job : JobRecord F) (m : Manager F H)
      → IsAt id m.store
      → job.id ≡ id
      → job.status ≡ encrypting
      → let (job', m', bundle) = pack fl w dir name content job m in
        (job'.id ≡ id)
        × Touches id m.store m'.store
        × (bundle ≡ err task_cancelled → IsCut w × IsEncrypting id m'.store)
  unfolding pack packing_job touch
  pack-Touches w id dir name content job m at own busy = elim (Bool-cases (w.is_dir content)) [
    | inr single ↦ rw (single, pack) (own, stays id m.store at, (λ cut. cc))
    | inl folder ↦
        let archive = base_name (name ∷ []) ++ codes ".zip" in
        let zip_path = dir ++ archive ∷ [] in
        let m1 = if w.exists zip_path then emit (unlink zip_path) m else m in
        let job' = packing_job fl w.now job in
        let same : m1.store ≡ m.store = ground arith in
        let first = persist-Touches_of id job' m.store m1 same own in
        elim (Result-cases (w.zip zip_path)) [
          | inl (failure e, r) ↦ rw (folder, pack) (rw r (own, first, (λ cut. cc)))
          | inl (task_cancelled, r) ↦
              rw (folder, pack)
                (rw r (
                  own,
                  first,
                  (λ cut. (inl (zip_path, r), persist-IsEncrypting id job' m1 own busy)),
                ))
          | inr (x, r) ↦
              let job'' = record job' { name = archive } in
              rw (folder, pack)
                (rw r (
                  own,
                  then-Touches id m.store (persist fl job' m1).store
                      (set_job job'' (persist fl job' m1)).store first
                      (set_job-Touches fl id job'' (persist fl job' m1) own),
                  (λ cut. cc),
                ))
        ]
  ]

  pack_and_finalize-Ends :
      (w : Finish H) (id : Text) (dir : FilePath) (name : Text) (job : JobRecord F)
      (m : Manager F H)
      → IsAt id m.store
      → job.id ≡ id
      → job.status ≡ encrypting
      → Ends w id m.store (pack_and_finalize fl w dir name job m)
  unfolding pack_and_finalize
  pack_and_finalize-Ends w id dir name job m at own busy =
      let content = content_path w dir name in
      let packed = pack fl w dir name content job m in
      let (own', g, cut) = pack-Touches w id dir name content job m at own busy in
      elim (Result-cases packed.2) [
        | inl (failure e, r) ↦
            rw (r, pack_and_finalize) (own', g, (λ quiet. ground arith), (λ x. cc))
        | inl (task_cancelled, r) ↦
            rw (r, pack_and_finalize) (own', g, (λ quiet. ground arith), (λ x. cut r))
        | inr (path, r) ↦
            rw (r, pack_and_finalize)
              (then-Ends w id m.store packed.1.store (finalize_path fl w packed.0 path packed.1) g
                (finalize_path-Ends w id packed.0 path packed.1 own'))
      ]

  pub complete_body-Ends :
      (w : Finish H) (id : Text) (h : H) (job : JobRecord F) (m : Manager F H)
      → IsAt id m.store
      → job.id ≡ id
      → job.status ≡ encrypting
      → Ends w id m.store (complete_body fl w h job m)
  unfolding complete_body
  complete_body-Ends w id h job m at own busy = elim (Result-cases (w.pause h)) [
    | inl (e, r) ↦
        rw (r, complete_body) (own, stays id m.store at, (λ quiet. ground arith), (λ cut. cc))
    | inr (x, r) ↦ elim (Option-cases job.work_dir) [
      | inl bare ↦
          rw (r, complete_body)
            (rw bare (own, stays id m.store at, (λ quiet. ground arith), (λ cut. cc)))
      | inr (dir, there) ↦ elim (Result-cases (w.content_name h)) [
        | inl (e, r2) ↦
            rw (r, complete_body)
              (rw (there, r2) (own, stays id m.store at, (λ quiet. ground arith), (λ cut. cc)))
        | inr (found, r2) ↦
            let name : Text = elim found [ none ↦ job.name | some n ↦ or_text n job.name ] in
            rw (r, complete_body)
              (rw (there, r2)
                (pack_and_finalize-Ends w id dir name job (emit (pause_handle h) m) at own busy))
      ]
    ]
  ]
