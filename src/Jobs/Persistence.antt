-- ===== src/Jobs/Persistence.antt =====
-- What is on disk: a job that is written and read back, and the periodic flush of changed jobs.
use mathlib.Core.List.{Perm}
use aestor.Base.{
  ℕ, ◌≡◌, ◌≢◌, refl, ap, sym, ◌∙◌, ◌++◌, Bool, true, false, ◌&&◌, Option, none, some, [], ◌∷◌, map,
  All, arith, if◌then◌else◌, list_eq, nat_eq, eq_iff, eq_refl, Bool-cases, inl, inr, Option-cases,
}
use aestor.Base.Dict
use aestor.Base.Dict.{Dict}
use aestor.Base.Sort.{IsFalling, perm-sort_desc, sort_desc-IsFalling}
use aestor.Base.Text.{Text, codes}
use aestor.Jobs.Record.{JobRecord, Floats, FilePath, new_job, or_text}
use aestor.Jobs.Snapshot.{
  Snapshot, relative_to, torrent_rel, source_torrent, restored_path, to_persist_dict,
  from_persist_dict,
}
use aestor.Jobs.Registry.{
  Snapshots, Store, is_persistable, persist_job, drop_persisted_job, list_jobs, flush,
  flush_dirty_jobs,
}

relative_to-append : (dir r : FilePath) → relative_to dir (dir ++ r) ≡ some r
unfolding relative_to
relative_to-append [] r = refl
relative_to-append (p ∷ dir) r = ground (arith, eq_refl p, relative_to-append dir r)

torrent_rel-below : (dir r : FilePath) → torrent_rel (some (dir ++ r)) (some dir) ≡ some r
unfolding torrent_rel
torrent_rel-below dir r = rw (relative_to-append dir r, torrent_rel) refl

-- The job's torrent file, if it has one, lies below its directory, and is there; and if it has none,
-- no source.torrent is there.
abbrev pub IsPlaced : (FilePath → Bool) → FilePath → Option FilePath → Type 0
IsPlaced is_file dir none = is_file (dir ++ source_torrent ∷ []) ≡ false
IsPlaced is_file dir (some path) =
    (p : Text) × (r : FilePath) × (path ≡ dir ++ p ∷ r) × (is_file (dir ++ p ∷ r) ≡ true)

or_text-full : (t default : Text) → t ≢ [] → or_text t default ≡ t
or_text-full [] default ne = absurd (ne refl)
or_text-full (c ∷ t) default ne = refl

module _ (fl : Floats) where
  open fl use {F, zero, is_zero}

  restored_path-rel :
      (is_file : FilePath → Bool) (dir : FilePath) (path : Option FilePath)
      → IsPlaced is_file dir path
      → restored_path fl is_file dir (torrent_rel path (some dir)) ≡ path
  unfolding restored_path torrent_rel
  restored_path-rel is_file dir none absent = rw absent refl
  restored_path-rel is_file dir (some path) (p, r, e, there) =
      rw e (ap (restored_path fl is_file dir) (torrent_rel-below dir (p ∷ r)) ∙ rw there refl)

  -- `x or 0.0` loses nothing where 0.0 is the only float that is falsy.
  abbrev pub ZeroIsExact : Type 0
  ZeroIsExact = (x : F) → is_zero x ≡ true → x ≡ zero

  or_zero : ZeroIsExact → (x : F) → (if is_zero x then zero else x) ≡ x
  or_zero exact x = elim (Bool-cases (is_zero x)) [
    | inl z ↦ rw z (sym (exact x z))
    | inr n ↦ rw n refl
  ]

  same_snapshot :
      (d : Snapshot F) (name : Text) (progress : F) (path : Option FilePath) (active : F)
      → name ≡ d.name
      → progress ≡ d.progress
      → path ≡ d.torrent_path
      → active ≡ d.active_duration_seconds
      → (record d {
        name = name;
        progress = progress;
        torrent_path = path;
        active_duration_seconds = active;
      })
        ≡ d
  same_snapshot d name progress path active n p t a = ground arith

  -- A job with a name and a directory, whose torrent file is where its path says, is read back as it
  -- was written, where 0.0 is the only float that is falsy: writing it again gives the same object,
  -- key by key.
  pub to_persist_dict-from_persist_dict :
      (is_file : FilePath → Bool) (now : ℕ) (job : JobRecord F) (dir : FilePath)
      → ZeroIsExact
      → job.work_dir ≡ some dir
      → job.name ≢ []
      → IsPlaced is_file dir job.torrent_path
      → to_persist_dict fl (from_persist_dict fl is_file now (to_persist_dict fl job) dir)
        ≡ to_persist_dict fl job
  unfolding to_persist_dict from_persist_dict new_job
  to_persist_dict-from_persist_dict is_file now job dir exact at named placed =
      same_snapshot (to_persist_dict fl job) (or_text job.name (codes "download"))
        (if is_zero job.progress then zero else job.progress)
        (torrent_rel (restored_path fl is_file dir (torrent_rel job.torrent_path job.work_dir))
          (some dir))
        (if is_zero job.active_duration_seconds then zero else job.active_duration_seconds)
        (or_text-full job.name (codes "download") named) (or_zero exact job.progress)
        (ap
            (λ w.
              torrent_rel (restored_path fl is_file dir (torrent_rel job.torrent_path w))
                (some dir))
            at
          ∙ ap (λ p. torrent_rel p (some dir))
              (restored_path-rel is_file dir job.torrent_path placed)
          ∙ ap (torrent_rel job.torrent_path) (sym at))
        (or_zero exact job.active_duration_seconds)

module _ {F : Type 0} where
  -- `list_jobs` shows every job once, and none before a younger one.
  list_jobs_lem :
      (s : Store F)
      → Perm (list_jobs s) (map (λ entry. entry.1) s.jobs)
        × IsFalling (λ (j : JobRecord F). j.created_at) (list_jobs s)
  unfolding list_jobs
  list_jobs_lem s = (
    perm-sort_desc (λ (j : JobRecord F). j.created_at) (map (λ entry. entry.1) s.jobs),
    sort_desc-IsFalling (λ (j : JobRecord F). j.created_at) (map (λ entry. entry.1) s.jobs),
  )

module _ (fl : Floats) where
  open fl use {F}

  -- The jobs that have another directory than `dir`, or none.
  abbrev pub Elsewhere : FilePath → Dict Text (JobRecord F) → Type 0
  Elsewhere dir jobs = All (λ entry. entry.1.work_dir ≢ some dir) jobs

  persist_job-Elsewhere :
      (job : JobRecord F) (files : Snapshots F) (dir : FilePath)
      → job.work_dir ≢ some dir
      → Dict.get (persist_job fl job files).1 dir ≡ Dict.get files dir
  unfolding persist_job drop_persisted_job
  persist_job-Elsewhere job files dir ne = elim (Option-cases job.work_dir) [
    | inl bare ↦ ground arith
    | inr (d, at) ↦ ground (
      arith,
      Dict.get-put files d dir (to_persist_dict fl job),
      Dict.get-pop files d dir,
      eq_iff d dir,
    )
  ]

  flush-Elsewhere :
      (jobs : Dict Text (JobRecord F)) (files : Snapshots F) (dir : FilePath)
      → Elsewhere dir jobs
      → Dict.get (flush fl jobs files).1 dir ≡ Dict.get files dir
  unfolding flush
  flush-Elsewhere [] files dir none_here = refl
  flush-Elsewhere ((k, job) ∷ rest) files dir (ne, others) =
      elim (Bool-cases (job.dirty && is_persistable job.status)) [
        | inl written ↦ rw written (
            flush-Elsewhere rest (persist_job fl job files).1 dir others
            ∙ persist_job-Elsewhere job files dir ne)
        | inr kept ↦ rw kept (flush-Elsewhere rest files dir others)
      ]

  persist_job-saves :
      (job : JobRecord F) (files : Snapshots F) (dir : FilePath)
      → is_persistable job.status ≡ true
      → job.work_dir ≡ some dir
      → Dict.get (persist_job fl job files).1 dir ≡ some (to_persist_dict fl job)
  unfolding persist_job
  persist_job-saves job files dir keep at =
      ground (arith, Dict.get-put files dir dir (to_persist_dict fl job), eq_refl dir)

  flush-saves :
      (before after : Dict Text (JobRecord F)) (k : Text) (job : JobRecord F) (files : Snapshots F)
      (dir : FilePath)
      → job.dirty ≡ true
      → is_persistable job.status ≡ true
      → job.work_dir ≡ some dir
      → Elsewhere dir after
      → Dict.get (flush fl (before ++ (k, job) ∷ after) files).1 dir ≡ some (to_persist_dict fl job)
  unfolding flush
  flush-saves [] after k job files dir changed keep at others =
      let due : (job.dirty && is_persistable job.status) ≡ true = ground arith in
      let write = λ (b : Bool). if b then persist_job fl job files else (job, files) in
      ap (λ b. Dict.get (flush fl after (write b).1).1 dir) due
      ∙ flush-Elsewhere after (persist_job fl job files).1 dir others
      ∙ persist_job-saves job files dir keep at
  flush-saves ((j, first) ∷ before) after k job files dir changed keep at others =
      flush-saves before after k job
        (if first.dirty && is_persistable first.status
          then persist_job fl first files
          else (first, files)).1
        dir changed keep at others

  -- The periodic flush: a job that has changed, that is of a kind that is kept, and whose directory no
  -- later job shares, has afterwards its present state in that directory's job.json, whatever jobs
  -- come before it.
  pub flush_dirty_jobs-saves :
      (before after : Dict Text (JobRecord F)) (k : Text) (job : JobRecord F) (files : Snapshots F)
      (dir : FilePath)
      → job.dirty ≡ true
      → is_persistable job.status ≡ true
      → job.work_dir ≡ some dir
      → Elsewhere dir after
      → let s : Store F = record { jobs = before ++ (k, job) ∷ after; snapshots = files } in
        Dict.get (flush_dirty_jobs fl s).snapshots dir ≡ some (to_persist_dict fl job)
  unfolding flush_dirty_jobs
  flush_dirty_jobs-saves before after k job files dir changed keep at others =
      flush-saves before after k job files dir changed keep at others
