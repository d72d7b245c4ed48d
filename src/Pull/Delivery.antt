-- ===== src/Pull/Delivery.antt =====
-- `process_one` of scripts/pull.py against a server that keeps the contract of the file API.
use aestor.Base.{
  ℕ, ◌+◌, ◌-◌, ◌≡◌, ◌≢◌, refl, ap, ◌∙◌, true, Option, none, some, [], ◌∷◌, ◌++◌, if◌then◌else◌,
  ◌==◌, eq_iff, list_eq, nat_eq, arith,
}
use aestor.Base.Dict
use aestor.Base.Dict.{Dict, get-put, get-pop}
use aestor.Base.Result.{Result, ok}
use aestor.Base.Text.{Text, codes}
use aestor.Encryption.Crypto.{Bytes}
use aestor.Encryption.Decrypt.{decrypt_file}
use aestor.Encryption.Loops.{Wrote}
use aestor.Jobs.Record.{FilePath, Floats}
use aestor.Pairing.State.{StatusUpdate, downloading}
use aestor.Pull.Client.{
  Failure, Outside, Puller, Client, read_reply, request, report_status, download, delete,
}
use aestor.Pull.Honest.{Api, IsHonest}
use aestor.Pull.Kept.{tmp_dir, tmp_dir-out_dir, place}
use aestor.Pull.Names.{safe_name}
use aestor.Pull.Paths.{IsPart, join-part}
use aestor.Pull.Process.{
  Setup, file_status, on_dl, decrypt_to, decrypt_and_delete, fetch_and_decrypt, clean_up,
  process_one,
}
use aestor.Pull.Quiet.{status_request, report_status-IsAt, on_dl-IsAt}
use aestor.Pull.Transfers.{get-put_same, download-Received, decrypt_to-IsAt}

module _ (fl : Floats) {S : Type 0} (o : Outside (fl.F) S) (c : Client) (api : Api S)
    (honest : IsHonest o c api) (setup : Setup) where
  -- The server is in a good state and holds these blobs.
  abbrev pub Holds : (Text → Option Bytes) → S → Type 0
  Holds blobs server = api.good server × ((id : Text) → api.blobs server id ≡ blobs id)

  pub status-Holds :
      (blobs : Text → Option Bytes) (status : StatusUpdate (fl.F)) (server : S)
      → Holds blobs server
      → Holds blobs (o.send (status_request o c status) server).0
  status-Holds blobs status server h =
      let (good, same, rows) = honest.on_status status server h.0 in (good, λ id. same id ∙ h.1 id)

  -- The deletion of an id.
  abbrev pub without : Text → (Text → Option Bytes) → Text → Option Bytes
  without file_id blobs id = if file_id == id then none else blobs id

  module _ (file_id : Text) (queue pulled : ℕ) (enc plain : FilePath) (ne : enc ≢ plain)
      (blobs : Text → Option Bytes) (blob : Bytes) (there : blobs file_id ≡ some blob)
      (content : Bytes) (n : ℕ) (readable : Wrote (decrypt_file setup.crypto blob) content n) where
    delete_honest :
        (s : Puller S) (status : StatusUpdate (fl.F))
        → Holds blobs s.server
        → let run = delete o c file_id (report_status o c true status s) in
          (run.1 ≡ ok tt) × (run.0.files ≡ s.files) × Holds (without file_id blobs) run.0.server
    unfolding delete request read_reply
    delete_honest s status h =
        let at =
          report_status-IsAt o c (Holds blobs) (status-Holds blobs) s.files s.dirs true status s
            (refl, refl, h) in
        let s₁ = report_status o c true status s in
        let (good, deleted, (size, pieces, answer)) =
          honest.on_delete file_id s₁.server blob at.2.0 (at.2.1 file_id ∙ there) in
        (
          rw (answer, read_reply) refl,
          at.0,
          (
            good,
            λ id.
                deleted id
                ∙ ap (λ (b : Option Bytes). if file_id == id then none else b) (at.2.1 id),
          ),
        )

    -- The blob is in place: it is decrypted, and deleted on the server.
    decrypt_honest :
        (s : Puller S)
        → Holds blobs s.server
        → Dict.get s.files enc ≡ some blob
        → let run = decrypt_and_delete fl o c file_id queue pulled setup enc plain s in
          (run.1 ≡ ok tt)
          × (run.0.files ≡ Dict.put s.files plain content)
          × Holds (without file_id blobs) run.0.server
    unfolding decrypt_and_delete
    decrypt_honest s h got =
        let done = decrypt_to fl o c file_id queue pulled setup enc plain s in
        let (at, follows) =
          decrypt_to-IsAt fl o c (Holds blobs) (status-Holds blobs) s.files s.dirs file_id queue
            pulled setup enc plain blob s (refl, refl, h) got in
        let good : done.1 ≡ ok n = rw readable.1 at follows in
        let (fine, files, gone) = delete_honest done.0 _ at.2 in
        rw good (fine, files ∙ at.0 ∙ ap (Dict.put s.files plain) readable.0, gone)

    fetch_honest :
        (s : Puller S)
        → Holds blobs s.server
        → let run = fetch_and_decrypt fl o c file_id queue pulled setup enc plain s in
          (run.1 ≡ ok tt)
          × (run.0.files ≡ Dict.put (Dict.put s.files enc blob) plain content)
          × Holds (without file_id blobs) run.0.server
    unfolding fetch_and_decrypt
    fetch_honest s h =
        let status = file_status fl o c file_id queue pulled downloading (codes "downloading ") in
        let at =
          report_status-IsAt o c (Holds blobs) (status-Holds blobs) s.files s.dirs true status s
            (refl, refl, h) in
        let s₁ = report_status o c true status s in
        let on_tick = on_dl fl o c file_id queue pulled in
        let got = download o c file_id enc on_tick s₁ in
        let (good, same, (size, pieces, answer, full, whole)) =
          honest.on_get file_id s₁.server blob at.2.0 (at.2.1 file_id ∙ there) in
        let (f, at', others, read) =
          download-Received o c (Holds blobs) (status-Holds blobs) s.files s.dirs on_tick
            (λ f.
              on_dl-IsAt fl o c (Holds blobs) (status-Holds blobs) f s.dirs file_id queue pulled)
            enc file_id s₁ at (good, λ id. same id ∙ at.2.1 id) in
        let (received, (k, whole_read)) = read size pieces full answer in
        let files = at'.0 ∙ received ∙ ap (Dict.put s.files enc) whole in
        let (fine, files', gone) =
          decrypt_honest got.0 at'.2
            (ap (λ f. Dict.get f enc) files ∙ get-put_same s.files enc blob) in
        rw whole_read (fine, files' ∙ ap (λ f. Dict.put f plain content) files, gone)

  -- A file that the server holds and that can be read: it is under a path where there was none, and it is
  -- off the server, where the others are as they were.
  abbrev pub Delivers :
      FilePath → Text → (Text → Option Bytes) → Bytes → Puller S × Result Failure FilePath → Type 0
  Delivers out_dir file_id blobs content run =
      (t : Text) × (run.1 ≡ ok (out_dir ++ t ∷ []))
      × (Dict.get run.0.files (out_dir ++ t ∷ []) ≡ some content)
      × Holds (without file_id blobs) run.0.server

  pub process_one_honest :
      (out_dir : FilePath) (file_id name : Text) (index total_files pulled : ℕ)
      (blobs : Text → Option Bytes) (blob content : Bytes) (n : ℕ) (s : Puller S)
      → blobs file_id ≡ some blob
      → Wrote (decrypt_file setup.crypto blob) content n
      → Holds blobs s.server
      → IsPart file_id
      → Delivers out_dir file_id blobs content (
          process_one fl o c setup out_dir
            (tmp_dir out_dir)
            file_id
            name
            index
            total_files
            pulled
            s)
  unfolding process_one clean_up
  process_one_honest out_dir file_id name index total_files pulled blobs blob content n s there
        readable h part =
      let (t, found, free) = place s out_dir (safe_name setup.is_word name file_id) in
      let enc = tmp_dir out_dir ++ file_id ∷ [] in
      let plain = out_dir ++ t ∷ [] in
      let ne = tmp_dir-out_dir out_dir file_id t in
      let run =
        fetch_and_decrypt fl o c file_id (total_files + 1 - index) pulled setup enc plain s in
      let (fine, files, gone) =
        fetch_honest file_id (total_files + 1 - index) pulled enc plain ne blobs blob there content
          n readable s h in
      let kept : Dict.get (Dict.pop run.0.files enc) plain ≡ some content =
        get-pop run.0.files enc plain
        ∙ ground (
          arith,
          eq_iff enc plain,
          ap (λ f. Dict.get f plain) files,
          get-put_same (Dict.put s.files enc blob) plain content,
        ) in
      rw (found, join-part (tmp_dir out_dir) file_id part, process_one)
        (rw (fine, clean_up) (t, refl, kept, gone))
