-- ===== src/Api/Exclusive.antt =====
-- What the routes below /api/v1 of backend/app/main.py give to whom.
use aestor.Base.{
  ◌≡◌, ◌≢◌, refl, ◌∙◌, Bool, true, false, Option, some, List, [], ◌∷◌, All, arith, is_empty,
  list_eq, nat_eq, eq_iff, inl, inr, Bool-cases,
}
use aestor.Base.Result.{Result, ok, err, Result-cases}
use aestor.Base.Text.{Text, strip}
use aestor.Auth.Guards.{has_session, require_api_bearer, require_web_session}
use aestor.Pairing.Ownership.{claim, owner-pair, owner-update_status}
use aestor.Pairing.Service.{
  PairingError, header_required, different_client, owner, pair, require_client, update_status,
}
use aestor.Pairing.State.{or_blank, Service, PullClientInfo}
use aestor.Api.Routes.{
  Server, ApiError, Answer, info_answer, manifest_answer, blob_answer, ok_answer, Handler, Context,
  with_bearer, with_client, api_pair, api_pair_get, api_pull_status, api_list_manifest,
  api_download_file, api_delete_file, delete_completed_web, ApiCall, post_pair, get_pair,
  post_status, get_list, get_file, delete_file, delete_web, route, route_all, pair_reply,
  status_reply,
}

claim_held : (id other : Text) → claim other false (some id) ≡ some id
claim_held id other = ground (arith, eq_iff id other)

module _ {F : Type 0} where
  -- A manifest, a blob, or that a file was deleted.
  abbrev pub gives_content : Result (ApiError F) (Answer F) → Bool
  gives_content (err e) = false
  gives_content (ok (info_answer info)) = false
  gives_content (ok (manifest_answer text)) = true
  gives_content (ok (blob_answer blob)) = true
  gives_content (ok ok_answer) = true

  -- No pairing that overrides, the id of another client or none at a file, no session on the web.
  abbrev pub IsOther : Text → Context F × ApiCall F → Type 0
  IsOther id (x, post_pair client_id hostname override) = override ≡ false
  IsOther id (x, get_pair) = Unit
  IsOther id (x, post_status client_id status) = Unit
  IsOther id (x, get_list client_id) = strip (or_blank client_id) ≢ id
  IsOther id (x, get_file file_id client_id) = strip (or_blank client_id) ≢ id
  IsOther id (x, delete_file file_id client_id) = strip (or_blank client_id) ≢ id
  IsOther id (x, delete_web file_id request) = has_session x.guard request ≡ false

  -- Still `id`'s slot, the same files, and no content given.
  abbrev pub Shut : Text → Server F → Server F × Result (ApiError F) (Answer F) → Type 0
  Shut id s (s', answer) =
      (owner s'.pairing ≡ some id) × (s'.files ≡ s.files) × (gives_content answer ≡ false)

  refused :
      (client : Option Text) (s : Service F) (id : Text)
      → owner s ≡ some id
      → strip (or_blank client) ≢ id
      → (e : PairingError F) × (require_client client s ≡ err e)
  unfolding require_client
  refused client s id h ne =
      rw (h, require_client)
        (elim (Bool-cases (is_empty (strip (or_blank client)))) [
          | inl blank ↦ (header_required, rw blank refl)
          | inr full ↦ (different_client id, ground (arith, eq_iff (strip (or_blank client)) id))
        ])

  module _ (id : Text) (x : Context F) where
    with_bearer-Shut :
        (handler : Handler F) (s : Server F)
        → owner s.pairing ≡ some id
        → Shut id s (handler s)
        → Shut id s (with_bearer x handler s)
    unfolding with_bearer
    with_bearer-Shut handler s h rest =
        elim (Result-cases (require_api_bearer x.guard x.credentials)) [
          | inl (e, raised) ↦ rw (raised, with_bearer) (h, refl, refl)
          | inr (u, passed) ↦ rw (passed, with_bearer) rest
        ]

    with_client-Shut :
        (client : Option Text) (handler : Handler F) (s : Server F)
        → owner s.pairing ≡ some id
        → strip (or_blank client) ≢ id
        → Shut id s (with_client x client handler s)
    unfolding with_client
    with_client-Shut client handler s h ne =
        let (e, raised) = refused client s.pairing id h ne in
        rw (raised, with_client) (h, refl, refl)

    pair_reply-Shut :
        (s : Server F) (r : Service F × Result (PairingError F) (PullClientInfo F))
        → owner r.0 ≡ some id
        → Shut id s (pair_reply s r)
    pair_reply-Shut s (service, err e) h = (h, refl, refl)
    pair_reply-Shut s (service, ok info) h = (h, refl, refl)

    status_reply-Shut :
        (s : Server F) (r : Service F × Result (PairingError F) (PullClientInfo F))
        → owner r.0 ≡ some id
        → Shut id s (status_reply s r)
    status_reply-Shut s (service, err e) h = (h, refl, refl)
    status_reply-Shut s (service, ok info) h = (h, refl, refl)

    route-Shut :
        (call : ApiCall F) (s : Server F)
        → owner s.pairing ≡ some id
        → IsOther id (x, call)
        → Shut id s (route x call s)
    unfolding route api_pair api_pair_get api_pull_status api_list_manifest api_download_file
        api_delete_file delete_completed_web require_web_session
    route-Shut (post_pair client_id hostname override) s h other = with_bearer-Shut _ s h (
        pair_reply-Shut s (pair x.now x.mono client_id hostname override s.pairing) (
          owner-pair x.now x.mono client_id hostname override s.pairing
          ∙ rw (h, other) (claim_held id (strip client_id))))
    route-Shut get_pair s h other = with_bearer-Shut _ s h (h, refl, refl)
    route-Shut (post_status client_id status) s h other = with_bearer-Shut _ s h (
        status_reply-Shut s (update_status x.now x.mono client_id status s.pairing)
          (owner-update_status x.now x.mono client_id status s.pairing ∙ h))
    route-Shut (get_list client_id) s h other =
        with_bearer-Shut _ s h (with_client-Shut client_id _ s h other)
    route-Shut (get_file file_id client_id) s h other =
        with_bearer-Shut _ s h (with_client-Shut client_id _ s h other)
    route-Shut (delete_file file_id client_id) s h other =
        with_bearer-Shut _ s h (with_client-Shut client_id _ s h other)
    route-Shut (delete_web file_id request) s h other =
        rw (other, delete_completed_web, require_web_session) (h, refl, refl)

  -- While a client holds the slot, requests that do not override a pairing, name another client or none
  -- at the files and the manifest, and have no session for the web's deletion, in any order and number,
  -- with any bearer: the slot is still that client's, the files are as they were, and no answer gives a
  -- manifest, a blob, or says that a file was deleted.
  pub route_all-others :
      (id : Text) (calls : List (Context F × ApiCall F)) (s : Server F)
      → owner s.pairing ≡ some id
      → All (IsOther id) calls
      → let after = route_all calls s in
        (owner after.0.pairing ≡ some id)
        × (after.0.files ≡ s.files)
        × All (λ answer. gives_content answer ≡ false) after.1
  unfolding route_all
  route_all-others id [] s h others = (h, refl, tt)
  route_all-others id ((x, call) ∷ calls) s h (other, others) =
      let (held, same, shut) = route-Shut id x call s h other in
      let (held', same', shut') = route_all-others id calls (route x call s).0 held others in
      (held', same' ∙ same, (shut, shut'))
