-- ===== src/Pairing/History.antt =====
-- Sequences of calls of `PairingService`: what pair.json holds for the next start of the server,
-- and who owns the slot.
use mathlib.Core.Option
use aestor.Base.{
  ℕ, ◌≡◌, refl, ap, Bool, true, false, Option, none, some, List, [], ◌∷◌, arith, All, Option-cases,
  Bool-cases, inl, inr, ltb, ◌-◌, is_empty, ◌∙◌, eq_iff, ◌==◌, list_eq, nat_eq,
}
use aestor.Base.Text.{Text, strip}
use aestor.Pairing.State.{Data, Disk, Service, StatusUpdate}
use aestor.Pairing.Service.{
  save, load, init, pair, conflicts, touch, update_status, clear, owner, save_interval,
}
use aestor.Pairing.Ownership.{owner-pair, owner-touch, owner-update_status}

-- One call of a method that changes the service, with the times at which it is made.
pub data Call (F : Type 0) : Type 0 where
  pairing : ℕ → ℕ → Text → Option Text → Bool → Call F
  touching : ℕ → ℕ → Text → Call F
  updating : ℕ → ℕ → Text → StatusUpdate F → Call F
  clearing : Call F

module _ {F : Type 0} where
  unfoldable pub perform : Call F → Service F → Service F
  perform (pairing now mono id host override) s = (pair now mono id host override s).0
  perform (touching now mono id) s = touch now mono id s
  perform (updating now mono id u) s = (update_status now mono id u s).0
  perform clearing s = clear s

  -- The lock makes every history of the service a sequence of calls.
  unfoldable pub run : List (Call F) → Service F → Service F
  run [] s = s
  run (call ∷ calls) s = run calls (perform call s)

  abbrev pub forget_seen : Data F → Data F
  forget_seen d = record d { last_seen = none }

  -- The file holds the data up to the time of the last heartbeat, and exactly when it is not dirty.
  pub record IsKept (s : Service F) : Type 0 where
    pub same_view : Option.map forget_seen (load s.disk) ≡ Option.map forget_seen s.pair_data
    pub exact : s.dirty_disk ≡ false → load s.disk ≡ s.pair_data

  IsKept-init : (disk : Disk F) → IsKept (init disk)
  unfolding init load
  IsKept-init disk = record { same_view = refl; exact = λ _. refl }

  -- A forced save, or a save that changes the time of the heartbeat only.
  IsKept-save_forced : (mono : ℕ) (d : Data F) (s : Service F) → IsKept (save true mono d s)
  unfolding save load
  IsKept-save_forced mono d s = record { same_view = refl; exact = λ _. refl }

  IsKept-save_seen :
      (mono now : ℕ) (d : Data F) (s : Service F)
      → s.pair_data ≡ some d
      → IsKept s
      → IsKept (save false mono (record d { last_seen = some now }) s)
  unfolding save load
  IsKept-save_seen mono now d s e k =
      elim (Bool-cases (ltb (mono - s.last_persist) save_interval)) [
        | inl early ↦
            rw (early, save)
              (record {
                same_view = k.same_view ∙ ap (Option.map forget_seen) e;
                exact = λ clean. cc;
              })
        | inr late ↦ rw (late, save) (record { same_view = refl; exact = λ _. refl })
      ]

  pair-IsKept :
      (now mono : ℕ) (id : Text) (host : Option Text) (override : Bool) (s : Service F)
      → IsKept s
      → IsKept (pair now mono id host override s).0
  unfolding pair
  pair-IsKept now mono id host override s k = elim (Bool-cases (is_empty (strip id))) [
    | inl blank ↦ rw (blank, pair) k
    | inr full ↦ elim (Bool-cases (conflicts (strip id) override s)) [
      | inl taken ↦ rw (full, taken, pair) k
      | inr free ↦ rw (full, free, pair) (IsKept-save_forced mono _ s)
    ]
  ]

  touch-IsKept :
      (now mono : ℕ) (id : Text) (s : Service F) → IsKept s → IsKept (touch now mono id s)
  unfolding touch
  touch-IsKept now mono id s k = elim (Option-cases s.pair_data) [
    | inl e ↦ rw (e, touch) k
    | inr (d, e) ↦ elim (Bool-cases (d.client_id == id)) [
      | inl own ↦ rw (e, touch) (rw own (IsKept-save_seen mono now d s e k))
      | inr other ↦ rw (e, touch) (rw other k)
    ]
  ]

  update_status-IsKept :
      (now mono : ℕ) (id : Text) (u : StatusUpdate F) (s : Service F)
      → IsKept s
      → IsKept (update_status now mono id u s).0
  unfolding update_status
  update_status-IsKept now mono id u s k = elim (Option-cases s.pair_data) [
    | inl e ↦ rw (e, update_status) k
    | inr (d, e) ↦ elim (Bool-cases (d.client_id == id)) [
      | inl own ↦ rw (e, update_status) (rw own (IsKept-save_forced mono _ s))
      | inr other ↦ rw (e, update_status) (rw other k)
    ]
  ]

  perform-IsKept : (call : Call F) (s : Service F) → IsKept s → IsKept (perform call s)
  unfolding perform
  perform-IsKept (pairing now mono id host override) s k = pair-IsKept now mono id host override s k
  perform-IsKept (touching now mono id) s k = touch-IsKept now mono id s k
  perform-IsKept (updating now mono id u) s k = update_status-IsKept now mono id u s k
  perform-IsKept clearing s k = unfold clear load in record { same_view = refl; exact = λ _. refl }

  run-IsKept : (calls : List (Call F)) (s : Service F) → IsKept s → IsKept (run calls s)
  unfolding run
  run-IsKept [] s k = k
  run-IsKept (call ∷ calls) s k = run-IsKept calls (perform call s) (perform-IsKept call s k)

  -- After any calls, a restart from pair.json gives the data that the service has, up to the time
  -- of the last heartbeat.
  pub reload :
      (calls : List (Call F)) (disk : Disk F)
      → let s = run calls (init disk) in
        Option.map forget_seen (init s.disk).pair_data ≡ Option.map forget_seen s.pair_data
  unfolding init
  reload calls disk = (run-IsKept calls (init disk) (IsKept-init disk)).same_view

  -- After any calls that leave the service not marked dirty, a restart gives exactly its data.
  pub reload_exact :
      (calls : List (Call F)) (disk : Disk F)
      → (run calls (init disk)).dirty_disk ≡ false
      → (init (run calls (init disk)).disk).pair_data ≡ (run calls (init disk)).pair_data
  unfolding init
  reload_exact calls disk = (run-IsKept calls (init disk) (IsKept-init disk)).exact

  -- A call that neither clears the slot nor overrides.
  abbrev pub IsPeaceful : Call F → Type 0
  IsPeaceful (pairing now mono id host override) = override ≡ false
  IsPeaceful clearing = ⊥
  IsPeaceful _ = Unit

  perform-owner :
      (call : Call F) (s : Service F) (id : Text)
      → IsPeaceful call
      → owner s ≡ some id
      → owner (perform call s) ≡ some id
  unfolding perform
  perform-owner (pairing now mono other host override) s id calm e =
      rw (owner-pair, e, calm) (ground (arith, eq_iff id (strip other)))
  perform-owner (touching now mono other) s id calm e = owner-touch now mono other s ∙ e
  perform-owner (updating now mono other u) s id calm e = owner-update_status now mono other u s ∙ e
  perform-owner clearing s id calm e = absurd calm

  -- Once a client owns the slot, no sequence of calls without an override and without `clear` gives
  -- it to another: the owner stays.
  pub run-owner :
      (calls : List (Call F)) (s : Service F) (id : Text)
      → All IsPeaceful calls
      → owner s ≡ some id
      → owner (run calls s) ≡ some id
  unfolding run
  run-owner [] s id calm e = e
  run-owner (call ∷ calls) s id calm e =
      run-owner calls (perform call s) id calm.1 (perform-owner call s id calm.0 e)
