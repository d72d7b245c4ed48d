-- ===== src/Pull/Process.antt =====
-- `process_one` of scripts/pull.py.
use aestor.Base.{
  ℕ, suc, ◌+◌, ◌-◌, Bool, true, false, Option, none, some, List, [], ◌∷◌, ◌++◌, length, ltb,
  if◌then◌else◌, ◌==◌, list_eq, nat_eq,
}
use aestor.Base.Dict
use aestor.Base.Result.{Result, ok, err}
use aestor.Base.Text.{Text, codes}
use aestor.Encryption.Crypto.{Bytes, Crypto}
use aestor.Encryption.Decrypt.{decrypt_file}
use aestor.Encryption.Frame.{Fault}
use aestor.Jobs.Record.{FilePath, Floats}
use aestor.Pairing.State.{StatusUpdate, PullPhase, downloading, decrypting, deleting}
use aestor.Pull.Client.{
  Failure, runtime_error, other_error, Outside, Puller, Client, Act, ◌>>=◌, ◌>>◌, write_file,
  unlink, monotonic, report_status, download, delete,
}
use aestor.Pull.Names.{safe_name, unique_path}
use aestor.Pull.Paths.{join}
use aestor.Pull.Progress.{Progress, progress_of, start, update, finish}

unfoldable pub has_dir : List FilePath → FilePath → Bool
has_dir [] path = false
has_dir (d ∷ ds) path = let rest = has_dir ds path in if d == path then true else rest

-- What a client run has at hand: the private key and what it decrypts, `\w`, and the texts of exceptions.
pub record Setup : Type 0 where
  pub crypto : Crypto
  pub is_word : ℕ → Bool
  pub fault_text : Fault → Text

module _ {S : Type 0} where
  -- `(directory / name).exists()`
  unfoldable pub exists_in : Puller S → FilePath → Text → Bool
  exists_in s directory name = elim (Dict.get s.files (directory ++ name ∷ [])) [
    | none ↦ has_dir s.dirs (directory ++ name ∷ [])
    | some content ↦ true
  ]

  -- One more than there are files and directories.
  unfoldable pub path_fuel : Puller S → ℕ
  path_fuel s = suc (length s.files + length s.dirs)

  -- No callback.
  abbrev pub no_tick : Progress → Puller S → Puller S
  no_tick prog s = s

-- The report of a phase, with no numbers of a transfer in it.
abbrev pub phase_status :
    {F : Type 0} → PullPhase → Option Text → Text → Option ℕ → ℕ → StatusUpdate F
phase_status phase file_id message queue_remaining files_pulled = record {
  phase = phase;
  file_id = file_id;
  bytes_done = none;
  bytes_total = none;
  progress = none;
  rate_bps = none;
  message = some message;
  queue_remaining = queue_remaining;
  files_pulled = some files_pulled;
}

module _ (fl : Floats) {S : Type 0} where
  open fl use {F, zero, one, ratio}

  module _ (o : Outside F S) (c : Client) where
    -- `prog.rate_bps`
    unfoldable pub rate_bps : Progress → Puller S → Puller S × F
    rate_bps prog s = let (s', now) = monotonic o s in (s', o.rate prog.done (now - prog.started))

    module _ (file_id : Text) (queue_remaining files_pulled : ℕ) where
      abbrev pub file_status : PullPhase → Text → StatusUpdate F
      file_status phase doing =
          phase_status phase (some file_id) (doing ++ file_id) (some queue_remaining) files_pulled

      unfoldable pub on_dl : Progress → Puller S → Puller S
      on_dl prog s =
          let (s', rate) = rate_bps prog s in
          report_status o c false
            (record (file_status downloading (codes "downloading ")) {
              bytes_done = some prog.done;
              bytes_total = prog.total;
              progress = progress_of fl prog;
              rate_bps = some rate;
            })
            s'

      unfoldable pub on_dec : ℕ → ℕ → Progress → Puller S → Puller S × Progress
      on_dec done total prog s =
          let (s₁, prog') = update (monotonic o) no_tick done (some total) prog s in
          let (s₂, rate) = rate_bps prog' s₁ in
          (
            report_status o c false
                (record (file_status decrypting (codes "decrypting ")) {
                  bytes_done = some done;
                  bytes_total = some total;
                  progress = if ltb 0 total then some (ratio done total) else none;
                  rate_bps = some rate;
                })
                s₂,
            prog',
          )

      -- The calls of `on_progress` that `decrypt_file` makes. They do not touch the files.
      unfoldable pub on_dec_all : List (ℕ × ℕ) → Progress → Puller S → Puller S × Progress
      on_dec_all [] prog s = (s, prog)
      on_dec_all ((done, total) ∷ rest) prog s =
          let (s', prog') = on_dec done total prog s in on_dec_all rest prog' s'

      unfoldable pub end_decrypt : Setup → Result Fault ℕ → Progress → Act S ℕ
      end_decrypt setup (err f) prog s = (s, err (other_error (setup.fault_text f)))
      end_decrypt setup (ok n) prog s = ((finish (monotonic o) no_tick prog s).0, ok n)

      unfoldable pub decrypt_blob : Setup → FilePath → Bytes → Act S ℕ
      decrypt_blob setup plain_path blob s =
          let s₁ =
            report_status o c true
              (record (file_status decrypting (codes "decrypting ")) {
                bytes_done = some 0;
                bytes_total = some (length blob);
                progress = some zero;
              })
              s in
          let (s₂, prog) = start (monotonic o) no_tick (some (length blob)) s₁ in
          let run = decrypt_file setup.crypto blob in
          let (s₃, prog') = on_dec_all run.reports prog (write_file plain_path run.written s₂) in
          end_decrypt setup run.result prog' s₃

      unfoldable pub decrypt_to : Setup → FilePath → FilePath → Act S ℕ
      decrypt_to setup enc_path plain_path s = elim (Dict.get s.files enc_path) [
        | none ↦ (s, err (other_error (codes "no such file")))
        | some blob ↦ decrypt_blob setup plain_path blob s
      ]

      abbrev pub send_status : Bool → StatusUpdate F → Act S (Unit {0})
      send_status force status s = (report_status o c force status s, ok tt)

      -- The second half of the `try`: the remote file is deleted once the plain one is there.
      unfoldable pub decrypt_and_delete : Setup → FilePath → FilePath → Act S (Unit {0})
      decrypt_and_delete setup enc_path plain_path = do
        plain_bytes ← decrypt_to setup enc_path plain_path
        send_status true (record (file_status deleting (codes "deleting ")) { progress = some one })
        delete o c file_id

      -- The body of the `try`.
      unfoldable pub fetch_and_decrypt : Setup → FilePath → FilePath → Act S (Unit {0})
      fetch_and_decrypt setup enc_path plain_path = do
        send_status true (file_status downloading (codes "downloading "))
        enc_bytes ← download o c file_id enc_path on_dl
        decrypt_and_delete setup enc_path plain_path

    -- `except` and `finally`: the plain file is removed when something was raised, the blob always.
    unfoldable pub clean_up :
        FilePath
        → FilePath
        → Puller S × Result Failure (Unit {0})
        → Puller S × Result Failure FilePath
    clean_up enc_path plain_path (s, err e) = (unlink enc_path (unlink plain_path s), err e)
    clean_up enc_path plain_path (s, ok u) = (unlink enc_path s, ok plain_path)

    unfoldable pub process_one :
        Setup → FilePath → FilePath → Text → Text → ℕ → ℕ → ℕ → Act S FilePath
    process_one setup out_dir work_dir file_id name index total_files files_pulled s =
        let safe = safe_name setup.is_word name file_id in
        let enc_path = join work_dir file_id in
        elim (unique_path (exists_in s out_dir) (path_fuel s) safe) [
          | none ↦ (s, err (runtime_error (codes "out of fuel")))
          | some local ↦
              let plain_path = out_dir ++ local ∷ [] in
              clean_up enc_path plain_path (
                fetch_and_decrypt file_id (total_files + 1 - index) files_pulled setup enc_path
                  plain_path s)
        ]
