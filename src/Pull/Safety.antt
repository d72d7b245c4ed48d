-- ===== src/Pull/Safety.antt =====
-- The files outside the directory for blobs over the cycles of scripts/pull.py.
use aestor.Base.{
  ℕ, zero, suc, ◌+◌, ◌≡◌, ◌≢◌, refl, sym, ap, ◌∙◌, inl, inr, Bool, true, not, Option, none, some,
  List, [], ◌∷◌, ◌++◌, length, All, if_rule, list_eq, nat_eq,
}
use aestor.Base.Dict
use aestor.Base.Result.{Result, ok, err, Result-cases}
use aestor.Base.Text.{Text, codes}
use aestor.Completed.Rows.{Row}
use aestor.Encryption.Crypto.{Bytes}
use aestor.Encryption.ManifestLine.{decrypt_manifest_line}
use aestor.Jobs.Record.{FilePath, Floats, or_text}
use aestor.Pairing.State.{StatusUpdate, listing}
use aestor.Pull.Client.{
  Failure, Outside, Puller, Client, request, report_status, list_manifest, pair,
}
use aestor.Pull.Cycle.{
  Names, pull_row, settle_row, pull_rows, pull_listed, list_rows, cycle, cycles, run_client, poll,
  pull_all,
}
use aestor.Pull.Kept.{tmp_dir, process_one-Leaves}
use aestor.Pull.Outcome.{Leaves}
use aestor.Pull.Paths.{IsPart}
use aestor.Pull.Process.{Setup, phase_status, process_one}
use aestor.Pull.Quiet.{report_status-IsAt}

pub files-report_status :
    {F S : Type 0} (o : Outside F S) (c : Client) (force : Bool) (status : StatusUpdate F)
    (s : Puller S)
    → (report_status o c force status s).files ≡ s.files
files-report_status o c force status s =
    (report_status-IsAt o c (λ server. Unit {0}) (λ st server q. tt) s.files s.dirs force status s
      (refl, refl, tt)).0

module _ (fl : Floats) {S P : Type 0} (o : Outside (fl.F) S) (c : Client) (setup : Setup)
    (names : Names P) (out_dir : FilePath) where
  -- Every list that the client reads names its files by single parts of a path.
  abbrev pub NamesParts : Type 0
  NamesParts =
      (s : Puller S) (rows : List Row)
      → (list_rows fl o c setup names out_dir (tmp_dir out_dir) s).1 ≡ ok rows
      → All (λ row. IsPart row.0) rows

module _ (fl : Floats) {S P : Type 0} (o : Outside (fl.F) S) (c : Client) (setup : Setup)
    (names : Names P) (out_dir : FilePath) (path : FilePath) (content : Bytes)
    (elsewhere : (file_id : Text) → IsPart file_id → tmp_dir out_dir ++ file_id ∷ [] ≢ path) where
  abbrev pub Has : Puller S → Type 0
  Has s = Dict.get s.files path ≡ some content

  report_status-Has :
      (force : Bool) (status : StatusUpdate (fl.F)) (s : Puller S)
      → Has s
      → Has (report_status o c force status s)
  report_status-Has force status s h =
      ap (λ f. Dict.get f path) (files-report_status o c force status s) ∙ h

  Leaves-Has :
      (enc : FilePath) (s : Puller S) (run : Puller S × Result Failure FilePath)
      → enc ≢ path
      → Leaves setup enc s run
      → Has s
      → Has run.0
  Leaves-Has enc s (s', err e) ne (gone, dirs, same) h = same path ne ∙ h
  Leaves-Has enc s (s', ok made) ne (gone, dirs, (free, done, only)) h =
      only path ne (λ e. cc (sym free ∙ ap (Dict.get s.files) e ∙ h)) ∙ h

  pull_row-Has :
      (row : Row) (index total_files pulled : ℕ) (s : Puller S)
      → IsPart row.0
      → Has s
      → Has (pull_row fl o c setup names out_dir (tmp_dir out_dir) row index total_files pulled s).0
  unfolding pull_row
  pull_row-Has row index total_files pulled s part h =
      elim (Result-cases (decrypt_manifest_line names.codec setup.crypto row.1)) [
        | inl (f, e) ↦ rw (e, pull_row) h
        | inr (payload, e) ↦
            rw (e, pull_row)
              (Leaves-Has (tmp_dir out_dir ++ row.0 ∷ []) s
                (process_one fl o c setup out_dir (tmp_dir out_dir) row.0
                  (or_text (names.name_of payload) row.0) index total_files pulled s)
                (elsewhere row.0 part)
                (process_one-Leaves fl o c setup out_dir row.0
                  (or_text (names.name_of payload) row.0) index total_files pulled s part)
                h)
      ]

  settle_row-Has :
      (file_id : Text) (index total_files pulled : ℕ) (run : Puller S × Result Failure FilePath)
      → Has run.0
      → Has
          (settle_row fl o c setup names out_dir
            (tmp_dir out_dir)
            file_id
            index
            total_files
            pulled
            run).0
  unfolding settle_row
  settle_row-Has file_id index total_files pulled (s, err e) h = report_status-Has true _ s h
  settle_row-Has file_id index total_files pulled (s, ok made) h = report_status-Has true _ s h

  pub pull_rows-Has :
      (rows : List Row) (index total_files : ℕ) (run : Puller S × ℕ)
      → All (λ row. IsPart row.0) rows
      → Has run.0
      → Has (pull_rows fl o c setup names out_dir (tmp_dir out_dir) rows index total_files run).0
  unfolding pull_rows
  pull_rows-Has [] index total_files (s, pulled) parts h = h
  pull_rows-Has (row ∷ rest) index total_files (s, pulled) (part, parts) h =
      pull_rows-Has rest (index + 1) total_files _ parts (
        settle_row-Has row.0 index total_files pulled _
          (pull_row-Has row index total_files pulled s part h))

  pull_listed-Has :
      (rows : List Row) (run : Puller S × ℕ)
      → All (λ row. IsPart row.0) rows
      → Has run.0
      → Has (pull_listed fl o c setup names out_dir (tmp_dir out_dir) rows run).0
  unfolding pull_listed
  pull_listed-Has [] (s, pulled) parts h = report_status-Has true _ s h
  pull_listed-Has (row ∷ rest) (s, pulled) parts h =
      pull_rows-Has (row ∷ rest) 1 (length (row ∷ rest)) (s, pulled) parts h

  pull_all-Has :
      (pulled : ℕ) (listed : Puller S × Result Failure (List Row))
      → ((rows : List Row) → listed.1 ≡ ok rows → All (λ row. IsPart row.0) rows)
      → Has listed.0
      → Has (pull_all fl o c setup names out_dir (tmp_dir out_dir) pulled listed).0
  unfolding pull_all
  pull_all-Has pulled (s, err e) parts h = report_status-Has true _ s h
  pull_all-Has pulled (s, ok rows) parts h = pull_listed-Has rows (s, pulled) (parts rows refl) h

  cycle-Has :
      (run : Puller S × ℕ)
      → NamesParts fl o c setup names out_dir
      → Has run.0
      → Has (cycle fl o c setup names out_dir (tmp_dir out_dir) run).0
  unfolding cycle list_rows list_manifest request
  cycle-Has (s, pulled) parts h =
      let status = phase_status listing none (codes "listing remote files") none pulled in
      let s₁ = report_status o c true status s in
      pull_all-Has pulled (list_rows fl o c setup names out_dir (tmp_dir out_dir) s₁) (parts s₁)
        (report_status-Has true status s h)

  cycles-Has :
      (n : ℕ) (run : Puller S × ℕ)
      → NamesParts fl o c setup names out_dir
      → Has run.0
      → Has (cycles fl o c setup names out_dir (tmp_dir out_dir) n run).0
  unfolding cycles
  cycles-Has zero run parts h = h
  cycles-Has (suc n) run parts h = cycles-Has n _ parts (cycle-Has run parts h)

  poll-Has :
      (n : ℕ) (paired : Puller S × Result Failure (Option ℕ))
      → NamesParts fl o c setup names out_dir
      → Has paired.0
      → Has (poll fl o c setup names out_dir (tmp_dir out_dir) n paired).0
  unfolding poll
  poll-Has n (s, err e) parts h = h
  poll-Has n (s, ok info) parts h = cycles-Has n _ parts h

  -- Where every list that the client reads names its files by single parts of a path, and however the
  -- server answers besides and whatever fails: a file that is there when the client starts, and that is
  -- not in the directory for blobs, is there with the same content after any number of cycles.
  pub run_client_keeps :
      (key_is_file : Bool) (hostname : Text) (override : Bool) (n : ℕ) (s : Puller S)
      → NamesParts fl o c setup names out_dir
      → Dict.get s.files path ≡ some content
      → Dict.get
          (run_client fl o c setup names out_dir
            (tmp_dir out_dir)
            key_is_file
            hostname
            override
            n
            s).0.files
          path
        ≡ some content
  unfolding run_client pair request
  run_client_keeps key_is_file hostname override n s parts h =
      let dirs = s.dirs ++ out_dir ∷ tmp_dir out_dir ∷ [] in
      let paired = pair o c hostname override (record s { dirs = dirs }) in
      if_rule (λ (run : Puller S × Option ℕ). Has run.0) (not key_is_file) (s, some 1)
        (poll fl o c setup names out_dir (tmp_dir out_dir) n paired) (λ e. h)
        (λ e. poll-Has n paired parts h)
