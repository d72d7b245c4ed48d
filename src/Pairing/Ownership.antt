-- ===== src/Pairing/Ownership.antt =====
-- Who owns the single pairing slot of `PairingService`.
use aestor.Base.{
  ℕ, ◌≡◌, ◌≢◌, ◌↔◌, refl, sym, ◌∙◌, Bool, true, false, ◌||◌, Option, none, some, [], ◌∷◌, arith,
  is_empty, if◌then◌else◌, ◌==◌, list_eq, nat_eq, eq_iff, inl, inr, ◌⊎◌, Option-cases, Bool-cases,
}
use aestor.Base.Result.{ok, err}
use aestor.Base.Text.{Text, strip}
use aestor.Pairing.State.{Data, Service, StatusUpdate, or_none, or_blank, PullClientInfo}
use aestor.Pairing.Service.{
  save, pair_with, pair, owner, conflicts, require_client, touch, updated, update_status,
  not_paired_client, PairingError, client_id_required, pairing_conflict, to_info,
}

-- The contract of the slot: a claim with a non-blank id takes it when it is free or held by that id,
-- or when the claim overrides.
abbrev pub claim : Text → Bool → Option Text → Option Text
claim id override none = if is_empty id then none else some id
claim id override (some current) =
    if is_empty id
    then some current
    else if current == id || override
    then some id
    else some current

is_empty-eq : (t : Text) → (is_empty t ≡ true) ↔ (t ≡ [])
is_empty-eq [] = ((λ _. refl), (λ _. refl))
is_empty-eq (c ∷ t) = ground arith

module _ {F : Type 0} where
  pub owner-save :
      (force : Bool) (mono : ℕ) (d : Data F) (s : Service F)
      → owner (save force mono d s) ≡ or_none (some d.client_id)
  unfolding owner save
  owner-save force mono d s = ground arith

  client_id-pair_with :
      (now : ℕ) (id : Text) (host : Option Text) (old : Option (Data F))
      → (pair_with now id host old).client_id ≡ id
  unfolding pair_with
  client_id-pair_with now id host none = refl
  client_id-pair_with now id host (some d) = ground arith

  -- `pair` implements the contract `claim` on every branch: the owner after the call is what the contract
  -- gives for the stripped id and the owner before.
  pub owner-pair :
      (now mono : ℕ) (id : Text) (host : Option Text) (override : Bool) (s : Service F)
      → owner (pair now mono id host override s).0 ≡ claim (strip id) override (owner s)
  unfolding pair conflicts
  owner-pair now mono id host override s = ground (
    arith,
    owner-save true mono
        (pair_with now (strip id) (or_none (some (strip (or_blank host)))) s.pair_data) s,
    client_id-pair_with now (strip id) (or_none (some (strip (or_blank host)))) s.pair_data,
  )

  -- Why a call of `pair` raises: the id is blank, or the slot is another client's and the call does not
  -- override.
  abbrev pub IsRefused : Text → Bool → Service F → Type 0
  IsRefused id override s =
      (strip id ≡ [])
      ⊎ ((current : Text) × (owner s ≡ some current) × (current ≢ strip id) × (override ≡ false))

  raises-IsRefused :
      (now mono : ℕ) (id : Text) (host : Option Text) (override : Bool) (s : Service F)
      {e : PairingError F}
      → (pair now mono id host override s).1 ≡ err e
      → IsRefused id override s
  unfolding pair conflicts
  raises-IsRefused now mono id host override s h = elim (Option-cases (owner s)) [
    | inl free ↦ ground (arith, is_empty-eq (strip id))
    | inr (current, taken) ↦
        ground (arith, is_empty-eq (strip id), eq_iff current (strip id), refl {a = current})
  ]

  IsRefused-raises :
      (now mono : ℕ) (id : Text) (host : Option Text) (override : Bool) (s : Service F)
      → IsRefused id override s
      → (e : PairingError F) × ((pair now mono id host override s).1 ≡ err e)
        × ((pair now mono id host override s).0 ≡ s)
  unfolding pair conflicts
  IsRefused-raises now mono id host override s (inl blank) =
      (client_id_required, rw (blank, pair) refl, rw (blank, pair) refl)
  IsRefused-raises now mono id host override s (inr (current, taken, other, plain)) =
      elim (Bool-cases (is_empty (strip id))) [
        | inl blank ↦ (client_id_required, rw (blank, pair) refl, rw (blank, pair) refl)
        | inr full ↦
            let clash : conflicts (strip id) override s ≡ true =
              rw (taken, conflicts) (ground (arith, eq_iff current (strip id))) in
            (
              pairing_conflict (to_info now s),
              rw (full, pair) (rw clash refl),
              rw (full, pair) (rw clash refl),
            )
      ]

  -- `pair` raises exactly for a blank id, and for another client's id when the slot is taken and the call
  -- does not override; and a call that raises leaves the service as it was.
  pub pair_fails :
      (now mono : ℕ) (id : Text) (host : Option Text) (override : Bool) (s : Service F)
      → let run = pair now mono id host override s in
        (((e : PairingError F) × (run.1 ≡ err e)) ↔ IsRefused id override s)
        × (IsRefused id override s → run.0 ≡ s)
  pair_fails now mono id host override s = (
    (
      (λ (e, h). raises-IsRefused now mono id host override s h),
      (λ why. let (e, h, same) = IsRefused-raises now mono id host override s why in (e, h)),
    ),
    (λ why. let (e, h, same) = IsRefused-raises now mono id host override s why in same),
  )

  owner-pair_ok :
      (now mono : ℕ) (id : Text) (host : Option Text) (override : Bool) (s : Service F)
      {info : PullClientInfo F}
      → (pair now mono id host override s).1 ≡ ok info
      → (owner (pair now mono id host override s).0 ≡ some (strip id))
        × (is_empty (strip id) ≡ false)
  unfolding pair
  owner-pair_ok now mono id host override s h = ground (
    arith,
    owner-save true mono
        (pair_with now (strip id) (or_none (some (strip (or_blank host)))) s.pair_data) s,
    client_id-pair_with now (strip id) (or_none (some (strip (or_blank host)))) s.pair_data,
  )

  require_client-owner :
      (other : Text) (s : Service F) (id : Text)
      → owner s ≡ some id
      → is_empty id ≡ false
      → (require_client (some other) s ≡ ok tt) ↔ (strip other ≡ id)
  unfolding require_client
  require_client-owner other s id e full =
      rw (e, require_client) (ground (arith, eq_iff (strip other) id))

  -- After a pairing that succeeded, exactly the ids that strip to the paired one are let in.
  require_client-pair :
      (now mono : ℕ) (id other : Text) (host : Option Text) (override : Bool) (s : Service F)
      {info : PullClientInfo F}
      → (pair now mono id host override s).1 ≡ ok info
      → (require_client (some other) (pair now mono id host override s).0 ≡ ok tt)
        ↔ (strip other ≡ strip id)
  require_client-pair now mono id other host override s h =
      let (e, full) = owner-pair_ok now mono id host override s h in
      require_client-owner other (pair now mono id host override s).0 (strip id) e full

  -- A status update counts only with the stored id as it stands: any other leaves all as it was.
  pub update_status-other :
      (now mono : ℕ) (id : Text) (u : StatusUpdate F) (s : Service F) (d : Data F)
      → s.pair_data ≡ some d
      → d.client_id ≢ id
      → update_status now mono id u s ≡ (s, err not_paired_client)
  unfolding update_status
  update_status-other now mono id u s d e ne =
      rw (e, update_status) (ground (arith, eq_iff d.client_id id))

  owner-eq :
      (s : Service F) (d : Data F) → s.pair_data ≡ some d → owner s ≡ or_none (some d.client_id)
  unfolding owner
  owner-eq s d e = rw e refl

  pub owner-touch :
      (now mono : ℕ) (id : Text) (s : Service F) → owner (touch now mono id s) ≡ owner s
  unfolding touch owner
  owner-touch now mono id s = elim (Option-cases s.pair_data) [
    | inl e ↦ ground arith
    | inr (d, e) ↦ ground (arith, owner-save false mono (record d { last_seen = some now }) s)
  ]

  pub owner-update_status :
      (now mono : ℕ) (id : Text) (u : StatusUpdate F) (s : Service F)
      → owner (update_status now mono id u s).0 ≡ owner s
  unfolding update_status updated owner
  owner-update_status now mono id u s = elim (Option-cases s.pair_data) [
    | inl e ↦ ground arith
    | inr (d, e) ↦ ground (arith, owner-save true mono (updated now u d) s)
  ]

  -- A client that is paired under an id which it sends with blanks around it is let in by
  -- `require_client`, but `touch` then changes nothing and a status update is refused.
  pub padded_client :
      (now mono : ℕ) (id : Text) (u : StatusUpdate F) (s : Service F) (d : Data F)
      → s.pair_data ≡ some d
      → d.client_id ≡ strip id
      → strip id ≢ []
      → strip id ≢ id
      → (require_client (some id) s ≡ ok tt)
        × (touch now mono id s ≡ s)
        × (update_status now mono id u s ≡ (s, err not_paired_client))
  unfolding touch
  padded_client now mono id u s d e same full padded =
      let named : owner s ≡ some (strip id) =
        owner-eq s d e ∙ ground (arith, is_empty-eq (strip id), is_empty-eq d.client_id) in
      let other : d.client_id ≢ id = λ q. padded (sym same ∙ q) in
      (
        (require_client-owner id s (strip id) named (ground (arith, is_empty-eq (strip id)))).1
            refl,
        rw (e, touch) (ground (arith, eq_iff d.client_id id)),
        update_status-other now mono id u s d e other,
      )
