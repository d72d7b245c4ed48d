-- ===== src/Pull/Cycle.antt =====
-- `run` of scripts/pull.py: pairing, and the cycles that list the files of the server and pull each. The
-- sleeps, and the reports that repeat "idle" while it sleeps, are left out.
use aestor.Base.{
  ℕ, zero, suc, ◌+◌, ◌-◌, Bool, true, not, Option, none, some, List, [], ◌∷◌, ◌++◌, length, take,
  if◌then◌else◌,
}
use aestor.Base.Result.{Result, ok, err, ◌>>=◌}
use aestor.Base.Text.{Text, codes}
use aestor.Completed.Parse.{parse_manifest_text}
use aestor.Completed.Rows.{Row}
use aestor.Encryption.Frame.{Fault}
use aestor.Encryption.ManifestLine.{Codec, decrypt_manifest_line}
use aestor.Jobs.Record.{FilePath, Floats, or_text}
use aestor.Pairing.State.{listing, idle, error}
use aestor.Pull.Client.{
  Failure, other_error, error_text, Outside, Puller, Client, Act, report_status, pair,
  list_manifest,
}
use aestor.Pull.Process.{Setup, phase_status, process_one}

-- Payloads of manifest lines, which are JSON objects, with `payload.get("name")`, empty where it is
-- missing. Other JSON raises at `.get` and not in `loads`, which is the same `except` of the row: here
-- `loads` gives none.
pub record Names (P : Type 0) : Type 0 where
  pub codec : Codec P
  pub name_of : P → Text

abbrev pub file_count : Option ℕ → ℕ
file_count none = 0
file_count (some n) = n

abbrev pub fault_or {ℓ} : {A : Type ℓ} → (Fault → Text) → Result Fault A → Result Failure A
fault_or text (err f) = err (other_error (text f))
fault_or text (ok a) = ok a

module _ (fl : Floats) {S P : Type 0} (o : Outside (fl.F) S) (c : Client) (setup : Setup)
    (names : Names P) (out_dir work_dir : FilePath) where
  -- The `try` of one row, up to `process_one`.
  unfoldable pub pull_row : Row → ℕ → ℕ → ℕ → Act S FilePath
  pull_row row index total_files pulled s =
      elim (decrypt_manifest_line names.codec setup.crypto row.1) [
        | err f ↦ (s, err (other_error (setup.fault_text f)))
        | ok payload ↦
            process_one fl o c setup out_dir work_dir row.0 (or_text (names.name_of payload) row.0)
              index total_files pulled s
      ]

  -- The report after a row, and the count: a file that failed stays on the server.
  unfoldable pub settle_row : Text → ℕ → ℕ → ℕ → Puller S × Result Failure FilePath → Puller S × ℕ
  settle_row file_id index total_files pulled (s, err e) = (
    report_status o c true (phase_status error (some file_id) (take 500 (error_text e)) none pulled)
        s,
    pulled,
  )
  settle_row file_id index total_files pulled (s, ok path) = (
    report_status o c true
        (phase_status idle none (codes "pulled " ++ file_id) (some (total_files - index))
          (pulled + 1))
        s,
    pulled + 1,
  )

  unfoldable pub pull_rows : List Row → ℕ → ℕ → Puller S × ℕ → Puller S × ℕ
  pull_rows [] index total_files (s, pulled) = (s, pulled)
  pull_rows (row ∷ rest) index total_files (s, pulled) =
      pull_rows rest (index + 1) total_files
        (settle_row row.0 index total_files pulled (pull_row row index total_files pulled s))

  unfoldable pub pull_listed : List Row → Puller S × ℕ → Puller S × ℕ
  pull_listed [] (s, pulled) = (
    report_status o c true
        (phase_status idle none (codes "waiting for completed files") (some 0) pulled) s,
    pulled,
  )
  pull_listed (row ∷ rest) (s, pulled) = pull_rows (row ∷ rest) 1 (length (row ∷ rest)) (s, pulled)

  unfoldable pub list_rows : Act S (List Row)
  list_rows s =
      let (s', answer) = list_manifest o c s in
      (s', answer >>= λ text. fault_or setup.fault_text (parse_manifest_text text))

  -- A list that cannot be fetched or parsed is reported.
  unfoldable pub pull_all : ℕ → Puller S × Result Failure (List Row) → Puller S × ℕ
  pull_all pulled (s, err e) = (
    report_status o c true (phase_status error none (take 500 (error_text e)) none pulled) s,
    pulled,
  )
  pull_all pulled (s, ok rows) = pull_listed rows (s, pulled)

  -- The body of `while True`.
  unfoldable pub cycle : Puller S × ℕ → Puller S × ℕ
  cycle (s, pulled) = pull_all pulled (
      list_rows (
        report_status o c true
          (phase_status listing none (codes "listing remote files") none pulled) s))

  -- The loop does not end by itself: this is where it stands after so many cycles.
  unfoldable pub cycles : ℕ → Puller S × ℕ → Puller S × ℕ
  cycles zero run = run
  cycles (suc n) run = cycles n (cycle run)

  unfoldable pub poll : ℕ → Puller S × Result Failure (Option ℕ) → Puller S × Option ℕ
  poll n (s, err e) = (s, some 1)
  poll n (s, ok info) = ((cycles n (s, file_count info)).0, none)

  -- `run`: with no key, or where pairing fails, it returns 1; else it is in its loop.
  unfoldable pub run_client : Bool → Text → Bool → ℕ → Puller S → Puller S × Option ℕ
  run_client key_is_file hostname override n s =
      if not key_is_file
      then (s, some 1)
      else poll n
          (pair o c hostname override (record s { dirs = s.dirs ++ out_dir ∷ work_dir ∷ [] }))
