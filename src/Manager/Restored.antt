-- ===== src/Manager/Restored.antt =====
-- What a restart makes of the jobs that were saved.
use aestor.Base.{
  ◌≡◌, ◌≢◌, refl, ap, sym, ◌∙◌, ◌++◌, append-nil, append_assoc, true, some, List, [], ◌∷◌, arith,
  list_eq, nat_eq, eq_iff, inl, inr, ◌⊎◌,
}
use aestor.Base.Dict
use aestor.Base.Dict.{get-put}
use aestor.Base.Text.{Text}
use aestor.Jobs.Record.{JobRecord, downloading, paused, encrypting, failed, Floats}
use aestor.Manager.State.{Manager, Effect, spawn, Task, finalize_http, emit, persist}
use aestor.Manager.Control.{job_of}
use aestor.Manager.Lookup.{job_of-persist}
use aestor.Manager.Retry.{is_failed}

module _ (fl : Floats) {H : Type 0} where
  open fl use {F}

  -- What is done for one job: the other jobs, their handles and their tasks are as they were, and what
  -- was asked of the outside was only added to.
  abbrev pub Apart : Text → Manager F H → Manager F H → Type 0
  Apart id m m' =
      ((k : Text)
        → id ≢ k
        → (job_of fl m' k ≡ job_of fl m k)
          × (Dict.get m'.handles k ≡ Dict.get m.handles k)
          × (Dict.get m'.http_tasks k ≡ Dict.get m.http_tasks k))
      × ((more : List (Effect H)) × (m'.effects ≡ m.effects ++ more))

  pub stays_Apart : (id : Text) (m : Manager F H) → Apart id m m
  stays_Apart id m = ((λ k ne. (refl, refl, refl)), ([], sym (append-nil m.effects)))

  pub then-Apart : (id : Text) (a b c : Manager F H) → Apart id a b → Apart id b c → Apart id a c
  then-Apart id a b c (f, (xs, e)) (g, (ys, d)) = (
    λ k ne. let (j, h, t) = f k ne in let (j', h', t') = g k ne in (j' ∙ j, h' ∙ h, t' ∙ t),
    (xs ++ ys, d ∙ ap (λ l. l ++ ys) e ∙ append_assoc a.effects xs ys),
  )

  pub persist-Apart :
      (id : Text) (job : JobRecord F) (m : Manager F H)
      → job.id ≡ id
      → Apart id m (persist fl job m)
  persist-Apart id job m own = (
    λ k ne. (job_of-persist fl job m k ∙ ground (arith, eq_iff job.id k), refl, refl),
    ([], sym (append-nil m.effects)),
  )

  pub emit-Apart : (id : Text) (effect : Effect H) (m : Manager F H) → Apart id m (emit effect m)
  emit-Apart id effect m = ((λ k ne. (refl, refl, refl)), (effect ∷ [], refl))

  pub handle-Apart :
      (id : Text) (h : H) (m : Manager F H) (key : Text)
      → key ≡ id
      → Apart id m (record m { handles = Dict.put m.handles key h })
  handle-Apart id h m key own = (
    λ k ne. (refl, get-put m.handles key k h ∙ ground (arith, eq_iff key k), refl),
    ([], sym (append-nil m.effects)),
  )

  pub task-Apart :
      (id : Text) (t : Task) (m : Manager F H) (key : Text)
      → key ≡ id
      → Apart id m (record m { http_tasks = Dict.put m.http_tasks key t })
  task-Apart id t m key own = (
    λ k ne. (refl, refl, get-put m.http_tasks key k t ∙ ground (arith, eq_iff key k)),
    ([], sym (append-nil m.effects)),
  )

  -- Something goes on for the job: libtorrent has it, or a task does.
  abbrev pub HasDriver : Text → Manager F H → Type 0
  HasDriver id m =
      ((h : H) × (Dict.get m.handles id ≡ some h))
      ⊎ ((t : Task) × (Dict.get m.http_tasks id ≡ some t))

  abbrev pub Spawned : Task → Manager F H → Type 0
  Spawned t m =
      (before : List (Effect H)) × (after : List (Effect H)) × (m.effects
        ≡ before ++ spawn t ∷ after)

  -- FAILED; or ENCRYPTING with its encryption begun anew; or DOWNLOADING, or PAUSED by the user, with a
  -- handle or a task.
  abbrev pub Stands : Text → JobRecord F → Manager F H → Type 0
  Stands id job m =
      (job.status ≡ failed)
      ⊎ (((job.status ≡ encrypting) × Spawned (finalize_http id) m)
          ⊎ (((job.status ≡ downloading) ⊎ ((job.status ≡ paused) × (job.user_paused ≡ true)))
              × HasDriver id m))

  abbrev pub IsRestored : Text → Manager F H → Type 0
  IsRestored id m =
      (job : JobRecord F) × (job_of fl m id ≡ some job) × (job.id ≡ id) × Stands id job m

  -- What is done for another job leaves it so.
  pub Apart-IsRestored :
      (other id : Text) (m m' : Manager F H)
      → other ≢ id
      → Apart other m m'
      → IsRestored id m
      → IsRestored id m'
  Apart-IsRestored other id m m' ne (same, (more, e)) (job, there, own, stands) =
      let (j, h, t) = same id ne in
      let driver : HasDriver id m → HasDriver id m' =
        λ d. elim d [ inl (x, y) ↦ inl (x, h ∙ y) | inr (x, y) ↦ inr (x, t ∙ y) ] in
      (
        job,
        j ∙ there,
        own,
        elim stands [
          | inl is_failed ↦ inl is_failed
          | inr (inl (is, (before, after, d))) ↦ inr (
              inl (
                is,
                (
                  before,
                  after ++ more,
                  e
                      ∙ ap (λ l. l ++ more) d
                      ∙ append_assoc before (spawn (finalize_http id) ∷ after) more,
                ),
              ))
          | inr (inr (is, d)) ↦ inr (inr (is, driver d))
        ],
      )
