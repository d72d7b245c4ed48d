-- ===== src/Pull/Transfers.antt =====
-- What `Client.download` and the decryption in `process_one` of scripts/pull.py leave in the files.
use aestor.Base.{
  ℕ, ◌+◌, ◌≡◌, ◌≢◌, refl, sym, ap, ◌∙◌, true, false, Option, none, some, List, [], ◌∷◌, ◌++◌, All,
  length, is_empty, append-nil, append_assoc, eq_refl, eq_iff, list_eq, nat_eq, arith,
}
use aestor.Base.Dict
use aestor.Base.Dict.{Dict, get-put, put-put}
use aestor.Base.Result.{Result, ok, err}
use aestor.Base.Text.{Text, codes}
use aestor.Encryption.Chunks.{concat}
use aestor.Encryption.Crypto.{Bytes}
use aestor.Encryption.Decrypt.{decrypt_file}
use aestor.Encryption.Frame.{Fault}
use aestor.Jobs.Record.{FilePath, Floats}
use aestor.Pairing.State.{StatusUpdate}
use aestor.Pull.Client.{
  Failure, other_error, no_body, receive, Reply, http_error, failed, response, Outside, Puller,
  Client, write_file, append_file, monotonic, request_of, read_pieces, download, file_url,
}
use aestor.Pull.Process.{Setup, no_tick, end_decrypt, decrypt_blob, decrypt_to}
use aestor.Pull.Progress.{Progress, start, update}
use aestor.Pull.Quiet.{
  status_request, IsAt, Leaves, report_status-IsAt, start-IsAt, update-IsAt, finish-IsAt,
  on_dec_all-IsAt,
}

pub get-put_same :
    {V : Type 0} (d : Dict FilePath V) (k : FilePath) (v : V) → Dict.get (Dict.put d k v) k ≡ some v
get-put_same d k v = get-put d k k v ∙ rw (eq_refl k) refl

module _ {F S : Type 0} (o : Outside F S) (c : Client) (Q : S → Type 0)
    (quiet : (status : StatusUpdate F) (server : S)
      → Q server
      → Q (o.send (status_request o c status) server).0)
    (files : Dict FilePath Bytes) (dirs : List FilePath) where
  append_file-IsAt :
      (dest : FilePath) (got chunk : Bytes) (s : Puller S)
      → IsAt o c Q quiet (Dict.put files dest got) dirs s
      → IsAt o c Q quiet (Dict.put files dest (got ++ chunk)) dirs (append_file dest chunk s)
  unfolding append_file
  append_file-IsAt dest got chunk s h =
      let there = ap (λ f. Dict.get f dest) h.0 ∙ get-put_same files dest got in
      rw (there, append_file)
        (
          ap (λ f. Dict.put f dest (got ++ chunk)) h.0 ∙ put-put files dest got (got ++ chunk),
          h.1,
          h.2,
        )

  module _ (on_tick : Progress → Puller S → Puller S)
      (leaves : (f : Dict FilePath Bytes) → Leaves o c Q quiet f dirs on_tick)
      (dest : FilePath) where
    -- What was read is in the file, whether the reading ended or raised; it raises only if reading does.
    read_pieces-IsAt :
        (total : Option ℕ) (stopped : Option Text) (pieces : List Bytes) (done : ℕ)
        (prog : Progress) (s : Puller S) (got : Bytes)
        → IsAt o c Q quiet (Dict.put files dest got) dirs s
        → let run = read_pieces o c on_tick dest total stopped pieces done prog s in
          (content : Bytes) × IsAt o c Q quiet (Dict.put files dest content) dirs run.0
          × (All (λ piece. is_empty piece ≡ false) pieces → content ≡ got ++ concat pieces)
          × (stopped ≡ none → (n : ℕ) × (run.1 ≡ ok n))
    unfolding read_pieces
    read_pieces-IsAt total none [] done prog s got h = (
      got,
      finish-IsAt o c Q quiet _ dirs on_tick (leaves _) prog s h,
      λ full. sym (append-nil got),
      λ e. (done, refl),
    )
    read_pieces-IsAt total (some e) [] done prog s got h =
        (got, h, λ full. sym (append-nil got), λ e. cc)
    read_pieces-IsAt total stopped ([] ∷ rest) done prog s got h = (
      got,
      finish-IsAt o c Q quiet _ dirs on_tick (leaves _) prog s h,
      λ full. absurd (cc full.0),
      λ e. (done, refl),
    )
    read_pieces-IsAt total stopped ((b ∷ chunk) ∷ rest) done prog s got h =
        let done' = done + length (b ∷ chunk) in
        let s₁ = append_file dest (b ∷ chunk) s in
        let run = update (monotonic o) on_tick done' total prog s₁ in
        let kept =
          update-IsAt o c Q quiet (Dict.put files dest (got ++ b ∷ chunk)) dirs on_tick (leaves _)
            done' total prog s₁ (append_file-IsAt dest got (b ∷ chunk) s h) in
        let (content, at, whole, ends) =
          read_pieces-IsAt total stopped rest done' run.1 run.0 (got ++ b ∷ chunk) kept in
        (content, at, λ full. whole full.1 ∙ append_assoc got (b ∷ chunk) (concat rest), ends)

    -- What a reply leaves in the files, and what it gives when it is read to its end.
    abbrev pub Received : Reply → Puller S × Result Failure ℕ → Type 0
    Received reply run =
        (f : Dict FilePath Bytes) × IsAt o c Q quiet f dirs run.0
        × ((path : FilePath) → dest ≢ path → Dict.get f path ≡ Dict.get files path)
        × ((size : Option ℕ) (pieces : List Bytes)
            → All (λ piece. is_empty piece ≡ false) pieces
            → reply ≡ response size pieces none
            → (f ≡ Dict.put files dest (concat pieces)) × ((n : ℕ) × (run.1 ≡ ok n)))

    get-put_other :
        (content : Bytes) (path : FilePath)
        → dest ≢ path
        → Dict.get (Dict.put files dest content) path ≡ Dict.get files path
    get-put_other content path ne =
        ground (arith, get-put files dest path content, eq_iff dest path)

    receive-Received :
        (file_id : Text) (reply : Reply) (s : Puller S)
        → IsAt o c Q quiet files dirs s
        → Received reply (receive o c file_id dest on_tick reply s)
    unfolding receive
    receive-Received file_id (http_error code text) s h =
        (files, h, λ path ne. refl, λ size pieces full e. cc)
    receive-Received file_id (failed e) s h = (files, h, λ path ne. refl, λ size pieces full e. cc)
    receive-Received file_id (response total pieces stopped) s h =
        let opened = start (monotonic o) on_tick total (write_file dest [] s) in
        let at =
          start-IsAt o c Q quiet (Dict.put files dest []) dirs on_tick (leaves _) total
            (write_file dest [] s) (ap (λ f. Dict.put f dest []) h.0, h.1, h.2) in
        let (content, at', whole, ends) =
          read_pieces-IsAt total stopped pieces 0 opened.1 opened.0 [] at in
        (
          Dict.put files dest content,
          at',
          get-put_other content,
          λ size pieces' full e.
              let same : pieces ≡ pieces' = cc e in
              (ap (Dict.put files dest) (whole (rw same full) ∙ ap concat same), ends (cc e)),
        )

    pub download-Received :
        (file_id : Text) (s : Puller S)
        → IsAt o c Q quiet files dirs s
        → let answer =
            o.send (request_of o c (codes "GET") (file_url file_id) no_body true) s.server in
          Q answer.0 → Received answer.1 (download o c file_id dest on_tick s)
    unfolding download
    download-Received file_id s h q = receive-Received file_id _ _ (h.0, h.1, q)

-- The outcome of a decryption, by that of `decrypt_file`.
abbrev pub Follows : Result Fault ℕ → Result Failure ℕ → Type 0
Follows (ok n) answer = answer ≡ ok n
Follows (err f) answer = (e : Failure) × (answer ≡ err e)

module _ (fl : Floats) {S : Type 0} (o : Outside (fl.F) S) (c : Client) (Q : S → Type 0)
    (quiet : (status : StatusUpdate (fl.F)) (server : S)
      → Q server
      → Q (o.send (status_request o c status) server).0)
    (files : Dict FilePath Bytes) (dirs : List FilePath) (file_id : Text) (queue pulled : ℕ)
    (setup : Setup) where
  end_decrypt-IsAt :
      (answer : Result Fault ℕ) (prog : Progress) (s : Puller S)
      → IsAt o c Q quiet files dirs s
      → let done = end_decrypt fl o c file_id queue pulled setup answer prog s in
        IsAt o c Q quiet files dirs done.0 × Follows answer done.1
  unfolding end_decrypt
  end_decrypt-IsAt (err f) prog s h = (h, (other_error (setup.fault_text f), refl))
  end_decrypt-IsAt (ok n) prog s h =
      (finish-IsAt o c Q quiet files dirs no_tick (λ p s h. h) prog s h, refl)

module _ (fl : Floats) {S : Type 0} (o : Outside (fl.F) S) (c : Client) (Q : S → Type 0)
    (quiet : (status : StatusUpdate (fl.F)) (server : S)
      → Q server
      → Q (o.send (status_request o c status) server).0)
    (files : Dict FilePath Bytes) (dirs : List FilePath) (file_id : Text) (queue pulled : ℕ)
    (setup : Setup) (enc_path plain_path : FilePath) where
  decrypt_blob-IsAt :
      (blob : Bytes) (s : Puller S)
      → IsAt o c Q quiet files dirs s
      → let run = decrypt_file setup.crypto blob in
        let done = decrypt_blob fl o c file_id queue pulled setup plain_path blob s in
        IsAt o c Q quiet (Dict.put files plain_path run.written) dirs done.0
        × Follows run.result done.1
  unfolding decrypt_blob
  decrypt_blob-IsAt blob s h =
      let run = decrypt_file setup.crypto blob in
      let reported = report_status-IsAt o c Q quiet files dirs true _ s h in
      let begun =
        start-IsAt o c Q quiet files dirs no_tick (λ p s h. h) (some (length blob)) _ reported in
      end_decrypt-IsAt fl o c Q quiet (Dict.put files plain_path run.written) dirs file_id queue
        pulled setup run.result _ _
        (on_dec_all-IsAt fl o c Q quiet (Dict.put files plain_path run.written) dirs file_id queue
          pulled run.reports _ _
          (ap (λ f. Dict.put f plain_path run.written) begun.0, begun.1, begun.2))

  -- Where the blob is there, what `decrypt_file` writes is in the plain file, and it decides the outcome.
  pub decrypt_to-IsAt :
      (blob : Bytes) (s : Puller S)
      → IsAt o c Q quiet files dirs s
      → Dict.get files enc_path ≡ some blob
      → let run = decrypt_file setup.crypto blob in
        let done = decrypt_to fl o c file_id queue pulled setup enc_path plain_path s in
        IsAt o c Q quiet (Dict.put files plain_path run.written) dirs done.0
        × Follows run.result done.1
  unfolding decrypt_to
  decrypt_to-IsAt blob s h there =
      let here = ap (λ f. Dict.get f enc_path) h.0 ∙ there in
      rw (here, decrypt_to) (decrypt_blob-IsAt blob s h)

  pub decrypt_to_missing :
      (s : Puller S)
      → Dict.get s.files enc_path ≡ none
      → let done = decrypt_to fl o c file_id queue pulled setup enc_path plain_path s in
        (done.0 ≡ s) × ((e : Failure) × (done.1 ≡ err e))
  unfolding decrypt_to
  decrypt_to_missing s e = rw (e, decrypt_to) (refl, (other_error (codes "no such file"), refl))
