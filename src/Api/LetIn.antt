-- ===== src/Api/LetIn.antt =====
-- What the routes of backend/app/main.py answer the paired client.
use aestor.Base.{
  ◌≡◌, ◌≢◌, ◌==◌, ◌∙◌, eq_iff, refl, ap, false, Option, some, arith, is_empty, list_eq, nat_eq,
  eq_refl,
}
use aestor.Base.Dict
use aestor.Base.Result.{ok}
use aestor.Base.Text.{Text, strip}
use aestor.Auth.Guards.{or_empty, require_api_bearer}
use aestor.Completed.Files.{manifest_name, read_text, delete_completed}
use aestor.Pairing.Service.{owner, require_client, touch}
use aestor.Pairing.State.{or_blank, Service}
use aestor.Api.Routes.{
  Server, manifest_answer, Handler, Context, with_bearer, with_client, delete_from,
  api_list_manifest, api_download_file, api_delete_file, get_list, get_file, delete_file, route,
  sent, mark_dirty, pair_name, file_at, delete_file_of,
}

eq_iff_false : (a b : Text) → a ≢ b → (a == b) ≡ false
eq_iff_false a b ne = ground (arith, eq_iff a b)

module _ {F : Type 0} where
  pub file_at-other :
      (x : Context F) (name : Text) (s : Server F)
      → name ≢ pair_name
      → file_at x name s ≡ Dict.get s.files name
  unfolding file_at
  file_at-other x name s ne = rw (eq_iff_false name pair_name ne) refl

  owner-full : (s : Service F) (id : Text) → owner s ≡ some id → is_empty id ≡ false
  unfolding owner
  owner-full s id h = ground arith

  require_client-own :
      (client : Option Text) (s : Service F)
      → owner s ≡ some (strip (or_blank client))
      → require_client client s ≡ ok tt
  unfolding require_client
  require_client-own client s h =
      rw (h, require_client)
        (ground
          (arith, owner-full s (strip (or_blank client)) h, eq_refl (strip (or_blank client))))

  -- Both guards let the request in.
  abbrev pub IsLetIn : Context F → Option Text → Server F → Type 0
  IsLetIn x client s =
      (require_api_bearer x.guard x.credentials ≡ ok tt)
      × (owner s.pairing ≡ some (strip (or_blank client)))

  abbrev pub touched : Context F → Option Text → Server F → Server F
  touched x client s = record s { pairing = touch x.now x.mono (or_empty client) s.pairing }

  pub delete_from-files :
      (name : Text) (s : Server F)
      → name ≢ pair_name
      → ((delete_from name s).0.files ≡ (delete_completed name s.files).0)
        × ((delete_from name s).0.pairing ≡ s.pairing)
  unfolding delete_from delete_file_of
  delete_from-files name s ne = rw (eq_iff_false name pair_name ne) (ground arith, ground arith)

  module _ (x : Context F) (client : Option Text) where
    pub let_in :
        (handler : Handler F) (s : Server F)
        → IsLetIn x client s
        → with_bearer x (with_client x client handler) s ≡ handler (touched x client s)
    unfolding with_bearer with_client
    let_in handler s (bearer, held) =
        rw (bearer, with_bearer) (rw (require_client-own client s.pairing held, with_client) refl)

    pub get_file-IsLetIn :
        (name : Text) (s : Server F)
        → IsLetIn x client s
        → name ≢ pair_name
        → (route x (get_file name client) s).1 ≡ sent (Dict.get s.files name)
    unfolding route api_download_file
    get_file-IsLetIn name s h ne =
        ap (λ r. r.1) (let_in (λ s. (s, sent (file_at x name s))) s h)
        ∙ ap sent (file_at-other x name (touched x client s) ne)

    pub get_list-IsLetIn :
        (s : Server F)
        → IsLetIn x client s
        → (route x (get_list client) s).1
          ≡ ok (manifest_answer (read_text (or_empty (Dict.get s.files manifest_name))))
    unfolding route api_list_manifest
    get_list-IsLetIn s h =
        ap (λ r. r.1)
          (let_in
            (λ s. (
              mark_dirty s,
              ok (manifest_answer (read_text (or_empty (Dict.get s.files manifest_name)))),
            ))
            s h)

    pub delete_file-IsLetIn :
        (name : Text) (s : Server F)
        → IsLetIn x client s
        → name ≢ pair_name
        → let after = (route x (delete_file name client) s).0 in
          (after.files ≡ (delete_completed name s.files).0)
          × (after.pairing ≡ (touched x client s).pairing)
    unfolding route api_delete_file
    delete_file-IsLetIn name s h ne =
        rw (let_in (delete_from name) s h) (delete_from-files name (touched x client s) ne)
