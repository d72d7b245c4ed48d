-- ===== src/Pull/Outcome.antt =====
-- What `process_one` of scripts/pull.py leaves behind, whatever fails.
use aestor.Base.{
  ℕ, ◌≡◌, ◌≢◌, refl, sym, ap, ◌∙◌, inl, inr, true, none, some, Option-cases, eq_iff, eq_refl,
  list_eq, nat_eq, arith,
}
use aestor.Base.Dict
use aestor.Base.Dict.{Dict, get-put, get-pop}
use aestor.Base.Result.{Result, ok, err, Result-cases}
use aestor.Base.Text.{Text, codes}
use aestor.Encryption.Crypto.{Bytes}
use aestor.Encryption.Decrypt.{decrypt_file}
use aestor.Jobs.Record.{FilePath, Floats}
use aestor.Pairing.State.{StatusUpdate, downloading}
use aestor.Pull.Client.{
  Failure, no_body, Outside, Puller, Client, request_of, request, report_status, download, delete,
  file_url,
}
use aestor.Pull.Process.{
  Setup, file_status, on_dl, decrypt_to, decrypt_and_delete, fetch_and_decrypt, clean_up,
}
use aestor.Pull.Quiet.{status_request, report_status-IsAt, on_dl-IsAt}
use aestor.Pull.Transfers.{
  Follows, get-put_same, download-Received, decrypt_to-IsAt, decrypt_to_missing,
}

-- Apart from the files at two paths, nothing has changed.
abbrev pub OnlyAt : FilePath → FilePath → Dict FilePath Bytes → Dict FilePath Bytes → Type 0
OnlyAt enc plain f f' =
    (path : FilePath) → enc ≢ path → plain ≢ path → Dict.get f' path ≡ Dict.get f path

-- The plain file is what `decrypt_file` made, without an error, of some bytes.
abbrev pub IsDecrypted : Setup → FilePath → Dict FilePath Bytes → Type 0
IsDecrypted setup plain f =
    (blob : Bytes) × (n : ℕ) × ((decrypt_file setup.crypto blob).result ≡ ok n)
    × (Dict.get f plain ≡ some ((decrypt_file setup.crypto blob).written))

-- What is left of a file that was pulled: where it failed, nothing; else the plain file, under a path
-- that was free.
abbrev pub Trace :
    Setup → FilePath → Dict FilePath Bytes → Dict FilePath Bytes → Result Failure FilePath → Type 0
Trace setup enc f f' (err e) = (path : FilePath) → enc ≢ path → Dict.get f' path ≡ Dict.get f path
Trace setup enc f f' (ok made) =
    (Dict.get f made ≡ none) × IsDecrypted setup made f' × OnlyAt enc made f f'

abbrev pub Leaves :
    {S : Type 0} → Setup → FilePath → Puller S → Puller S × Result Failure FilePath → Type 0
Leaves setup enc s run =
    (Dict.get run.0.files enc ≡ none)
    × (run.0.dirs ≡ s.dirs)
    × Trace setup enc s.files run.0.files run.1

module _ (fl : Floats) {S : Type 0} (o : Outside (fl.F) S) (c : Client) (Q : S → Type 0)
    (quiet : (status : StatusUpdate (fl.F)) (server : S)
      → Q server
      → Q (o.send (status_request o c status) server).0)
    (serves : (file_id : Text) (server : S)
      → Q server
      → Q (o.send (request_of o c (codes "GET") (file_url file_id) no_body true) server).0)
    (setup : Setup) (file_id : Text) (queue pulled : ℕ) (enc plain : FilePath) where
  abbrev Fetched : Puller S → Puller S × Result Failure (Unit {0}) → Type 0
  Fetched s run =
      OnlyAt enc plain s.files run.0.files
      × (run.0.dirs ≡ s.dirs)
      × (run.1 ≡ ok tt → IsDecrypted setup plain run.0.files)

  -- The last two steps: the file has been decrypted, and is deleted on the server.
  delete-Fetched :
      (s₀ s : Puller S)
      → Q s.server
      → OnlyAt enc plain s₀.files s.files
      → s.dirs ≡ s₀.dirs
      → IsDecrypted setup plain s.files
      → (status : StatusUpdate (fl.F))
      → Fetched s₀ (delete o c file_id (report_status o c true status s))
  unfolding delete request
  delete-Fetched s₀ s q only dirs made status =
      let at = report_status-IsAt o c Q quiet s.files s.dirs true status s (refl, refl, q) in
      rw (at.0, at.1) (only, dirs, λ e. made)

  put-OnlyAt :
      (f f' : Dict FilePath Bytes) (content : Bytes)
      → OnlyAt enc plain f f'
      → OnlyAt enc plain f (Dict.put f' plain content)
  put-OnlyAt f f' content only path a b =
      ground (arith, get-put f' plain path content, eq_iff plain path, only path a b)

  decrypt_and_delete-Fetched :
      (s₀ s : Puller S)
      → Q s.server
      → OnlyAt enc plain s₀.files s.files
      → s.dirs ≡ s₀.dirs
      → Fetched s₀ (decrypt_and_delete fl o c file_id queue pulled setup enc plain s)
  unfolding decrypt_and_delete
  decrypt_and_delete-Fetched s₀ s q only dirs =
      let done = decrypt_to fl o c file_id queue pulled setup enc plain s in
      elim (Option-cases (Dict.get s.files enc)) [
        | inl none_there ↦
            let (same, (e, bad)) =
              decrypt_to_missing fl o c Q quiet s.files s.dirs file_id queue pulled setup enc plain
                s none_there in
            rw (bad, same) (only, dirs, λ e. cc)
        | inr (blob, there) ↦
            let run = decrypt_file setup.crypto blob in
            let (at, follows) =
              decrypt_to-IsAt fl o c Q quiet s.files s.dirs file_id queue pulled setup enc plain
                blob s (refl, refl, q) there in
            let only' : OnlyAt enc plain s₀.files done.0.files =
              rw at.0 (put-OnlyAt s₀.files s.files run.written only) in
            elim (Result-cases run.result) [
              | inl (f, e) ↦
                  let follows' : Follows (err f) done.1 = rw e at follows in
                  rw follows'.1 (only', at.1 ∙ dirs, λ e. cc)
              | inr (n, e) ↦
                  let follows' : Follows (ok n) done.1 = rw e at follows in
                  rw follows' (
                    delete-Fetched s₀ done.0 at.2 only' (at.1 ∙ dirs)
                      (
                        blob,
                        n,
                        e,
                        ap (λ f. Dict.get f plain) at.0 ∙ get-put_same s.files plain run.written,
                      )
                      _)
            ]
      ]

  fetch_and_decrypt-Fetched :
      (s : Puller S)
      → Q s.server
      → Fetched s (fetch_and_decrypt fl o c file_id queue pulled setup enc plain s)
  unfolding fetch_and_decrypt
  fetch_and_decrypt-Fetched s q =
      let at =
        report_status-IsAt o c Q quiet s.files s.dirs true
          (file_status fl o c file_id queue pulled downloading (codes "downloading ")) s
          (refl, refl, q) in
      let s₁ =
        report_status o c true
          (file_status fl o c file_id queue pulled downloading (codes "downloading ")) s in
      let got = download o c file_id enc (on_dl fl o c file_id queue pulled) s₁ in
      let (f, at', others, whole) =
        download-Received o c Q quiet s.files s.dirs (on_dl fl o c file_id queue pulled)
          (λ f. on_dl-IsAt fl o c Q quiet f s.dirs file_id queue pulled) enc file_id s₁ at
          (serves file_id s₁.server at.2) in
      let only : OnlyAt enc plain s.files got.0.files = rw at'.0 (λ path a b. others path a) in
      elim (Result-cases got.1) [
        | inl (e, bad) ↦ rw bad (only, at'.1, λ e. cc)
        | inr (n, good) ↦ rw good (decrypt_and_delete-Fetched s got.0 at'.2 only at'.1)
      ]

  clean_up-Leaves :
      (s : Puller S) (run : Puller S × Result Failure (Unit {0}))
      → enc ≢ plain
      → Dict.get s.files plain ≡ none
      → Fetched s run
      → Leaves setup enc s (clean_up fl o c enc plain run)
  unfolding clean_up
  clean_up-Leaves s (s', err e) ne free (only, dirs, made) = (
    get-pop (Dict.pop s'.files plain) enc enc ∙ rw (eq_refl enc) refl,
    dirs,
    λ path a. ground (
      arith,
      get-pop (Dict.pop s'.files plain) enc path,
      get-pop s'.files plain path,
      eq_iff enc path,
      eq_iff plain path,
      only path a,
      λ (same : plain ≡ path). sym (ap (Dict.get s.files) same) ∙ free,
    ),
  )
  clean_up-Leaves s (s', ok tt) ne free (only, dirs, made) =
      let (blob, n, e, there) = made refl in
      (
        get-pop s'.files enc enc ∙ rw (eq_refl enc) refl,
        dirs,
        (
          free,
          (blob, n, e, ground (arith, get-pop s'.files enc plain, eq_iff enc plain, there)),
          λ path a b. ground (arith, get-pop s'.files enc path, eq_iff enc path, only path a b),
        ),
      )

  pub attempt-Leaves :
      (s : Puller S)
      → enc ≢ plain
      → Dict.get s.files plain ≡ none
      → Q s.server
      → Leaves setup enc s (
          clean_up fl o c enc plain
            (fetch_and_decrypt fl o c file_id queue pulled setup enc plain s))
  attempt-Leaves s ne free q =
      clean_up-Leaves s (fetch_and_decrypt fl o c file_id queue pulled setup enc plain s) ne free
        (fetch_and_decrypt-Fetched s q)
