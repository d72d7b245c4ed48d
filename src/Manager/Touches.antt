-- ===== src/Manager/Touches.antt =====
-- Which jobs a change of the store can reach: the registry keeps each job under its own id, and a
-- call that is made for one job changes no other.
use aestor.Base.{
  ◌≡◌, ◌≢◌, refl, sym, ◌∙◌, Option, none, some, arith, ◌==◌, list_eq, nat_eq, eq_iff, Bool-cases,
  inl, inr,
}
use aestor.Base.Text.{Text}
use aestor.Jobs.Record.{JobRecord, Floats}
use aestor.Jobs.Registry.{Store, get_job}
use aestor.Manager.State.{Manager, Effect, emit_on, persist, set_job}
use aestor.Manager.Lookup.{job_of-persist, job_of-set_job, id-saved}

module _ {F : Type 0} where
  -- The job under an id carries that id.
  abbrev pub IsAt : Text → Store F → Type 0
  IsAt id s = (job : JobRecord F) → get_job s id ≡ some job → job.id ≡ id

  abbrev pub IsKeyed : Store F → Type 0
  IsKeyed s = (id : Text) → IsAt id s

  -- The second store has the jobs of the first, but for the one under `id`, which carries it.
  abbrev pub Touches : Text → Store F → Store F → Type 0
  Touches id s s' = ((k : Text) → k ≢ id → get_job s' k ≡ get_job s k) × IsAt id s'

  pub stays : (id : Text) (s : Store F) → IsAt id s → Touches id s s
  stays id s at = ((λ k ne. refl), at)

  pub then-Touches :
      (id : Text) (s t u : Store F) → Touches id s t → Touches id t u → Touches id s u
  then-Touches id s t u f g = ((λ k ne. g.0 k ne ∙ f.0 k ne), g.1)

  pub Touches-IsKeyed : (id : Text) (s t : Store F) → Touches id s t → IsKeyed s → IsKeyed t
  Touches-IsKeyed id s t f keyed k job e = elim (Bool-cases (k == id)) [
    | inl same ↦ let q : k ≡ id = (eq_iff k id).0 same in f.1 job (sym (rw q refl) ∙ e) ∙ sym q
    | inr other ↦ let ne : k ≢ id = ground (arith, eq_iff k id) in keyed k job (sym (f.0 k ne) ∙ e)
  ]

module _ (fl : Floats) {H : Type 0} where
  open fl use {F}

  pub persist-Touches :
      (id : Text) (job : JobRecord F) (m : Manager F H)
      → job.id ≡ id
      → Touches id m.store (persist fl job m).store
  persist-Touches id job m e = (
    (λ k ne. job_of-persist fl job m k ∙ ground (arith, eq_iff job.id k)),
    (λ j found. ground (arith, job_of-persist fl job m id, eq_iff job.id id, id-saved fl job)),
  )

  pub set_job-Touches :
      (id : Text) (job : JobRecord F) (m : Manager F H)
      → job.id ≡ id
      → Touches id m.store (set_job job m).store
  set_job-Touches id job m e = (
    (λ k ne. job_of-set_job fl job m k ∙ ground (arith, eq_iff job.id k)),
    (λ j found. ground (arith, job_of-set_job fl job m id, eq_iff job.id id)),
  )

module _ {F H : Type 0} where
  pub store-emit_on :
      (f : H → Effect H) (h : Option H) (m : Manager F H) → (emit_on f h m).store ≡ m.store
  store-emit_on f none m = refl
  store-emit_on f (some h) m = refl
