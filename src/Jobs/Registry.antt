-- ===== src/Jobs/Registry.antt =====
-- The job half of `Store` in backend/app/services/store.py: the jobs in memory, and the snapshots
-- job.json by the directory that each lies in. File operations are taken to succeed.
use aestor.Base.{
  ℕ, Bool, true, false, not, ◌&&◌, Option, none, some, List, [], ◌∷◌, map, if◌then◌else◌, ltb,
  nat_beq, ◌==◌, list_eq, nat_eq,
}
use aestor.Base.Dict
use aestor.Base.Dict.{Dict}
use aestor.Base.Sort.{sort_desc}
use aestor.Base.Text.{Text}
use aestor.Jobs.Record.{
  JobRecord, JobStatus, queued, downloading, paused, encrypting, failed, Floats, FilePath,
}
use aestor.Jobs.Snapshot.{Snapshot, to_persist_dict, from_persist_dict}

abbrev pub Snapshots : Type 0 → Type 0
Snapshots F = Dict FilePath (Snapshot F)

pub record Store (F : Type 0) : Type 0 where
  pub jobs : Dict Text (JobRecord F)
  pub snapshots : Snapshots F

-- `_PERSISTABLE`
unfoldable pub is_persistable : JobStatus → Bool
is_persistable queued = true
is_persistable downloading = true
is_persistable paused = true
is_persistable encrypting = true
is_persistable failed = true
is_persistable _ = false

-- The order of `sorted` on paths: part by part, each by code points.
unfoldable pub text_ltb : Text → Text → Bool
text_ltb [] [] = false
text_ltb [] (b ∷ t) = true
text_ltb (a ∷ s) [] = false
text_ltb (a ∷ s) (b ∷ t) = let rest = text_ltb s t in if nat_beq a b then rest else ltb a b

unfoldable pub path_ltb : FilePath → FilePath → Bool
path_ltb [] [] = false
path_ltb [] (b ∷ t) = true
path_ltb (a ∷ s) [] = false
path_ltb (a ∷ s) (b ∷ t) = let rest = path_ltb s t in if a == b then rest else text_ltb a b

module _ {F : Type 0} where
  unfoldable pub insert_by_path :
      FilePath × Snapshot F → List (FilePath × Snapshot F) → List (FilePath × Snapshot F)
  insert_by_path (p, d) [] = (p, d) ∷ []
  insert_by_path (p, d) ((q, e) ∷ rest) =
      let later = insert_by_path (p, d) rest in
      if path_ltb q p then (q, e) ∷ later else (p, d) ∷ (q, e) ∷ rest

  unfoldable pub sort_by_path : Snapshots F → Snapshots F
  sort_by_path [] = []
  sort_by_path (entry ∷ rest) = insert_by_path entry (sort_by_path rest)

  unfoldable pub drop_persisted_job : JobRecord F → Snapshots F → Snapshots F
  drop_persisted_job job files = elim job.work_dir [ none ↦ files | some dir ↦ Dict.pop files dir ]

  unfoldable pub get_job : Store F → Text → Option (JobRecord F)
  get_job s job_id = Dict.get s.jobs job_id

  unfoldable pub remove_job : Text → Store F → Store F × Option (JobRecord F)
  remove_job job_id s = elim (Dict.get s.jobs job_id) [
    | none ↦ (s, none)
    | some job ↦ (
      record { jobs = Dict.pop s.jobs job_id; snapshots = drop_persisted_job job s.snapshots },
      some job,
    )
  ]

  -- The jobs that `list_jobs` shows, the youngest first; each is shown as its `JobInfo`.
  unfoldable pub list_jobs : Store F → List (JobRecord F)
  list_jobs s = sort_desc (λ (j : JobRecord F). j.created_at) (map (λ entry. entry.1) s.jobs)

module _ (fl : Floats) where
  open fl use {F}

  -- `persist_job`: the job, no longer dirty when it was written, and the files.
  unfoldable pub persist_job : JobRecord F → Snapshots F → JobRecord F × Snapshots F
  persist_job job files =
      if not (is_persistable job.status)
      then (job, drop_persisted_job job files)
      else elim job.work_dir [
        | none ↦ (job, files)
        | some dir ↦ (record job { dirty = false }, Dict.put files dir (to_persist_dict fl job))
      ]

  -- A job that a method has changed and persisted, back in the registry. The source shares one
  -- object; here it is put back under its id.
  unfoldable pub update_job : JobRecord F → Store F → Store F
  update_job job s =
      let (job', files) = persist_job job s.snapshots in
      record { jobs = Dict.put s.jobs job.id job'; snapshots = files }

  unfoldable pub add_job : JobRecord F → Bool → Store F → Store F
  add_job job persist s =
      if persist then update_job job s else record s { jobs = Dict.put s.jobs job.id job }

  -- `flush_dirty_jobs`, over the jobs in their order.
  unfoldable pub flush :
      Dict Text (JobRecord F) → Snapshots F → Dict Text (JobRecord F) × Snapshots F
  flush [] files = ([], files)
  flush ((k, job) ∷ rest) files =
      let step =
        if job.dirty && is_persistable job.status then persist_job job files else (job, files) in
      let (rest', files') = flush rest step.1 in ((k, step.0) ∷ rest', files')

  unfoldable pub flush_dirty_jobs : Store F → Store F
  flush_dirty_jobs s =
      let (jobs', files) = flush s.jobs s.snapshots in record { jobs = jobs'; snapshots = files }

  unfoldable pub load_all :
      (FilePath → Bool) → ℕ → List (FilePath × Snapshot F) → List (JobRecord F)
  load_all is_file now [] = []
  load_all is_file now ((dir, d) ∷ rest) =
      let loaded = load_all is_file now rest in
      let job = from_persist_dict fl is_file now d dir in
      if not (is_persistable job.status) then loaded else job ∷ loaded

  unfoldable pub load_persisted_jobs : (FilePath → Bool) → ℕ → Store F → List (JobRecord F)
  load_persisted_jobs is_file now s = load_all is_file now (sort_by_path s.snapshots)
