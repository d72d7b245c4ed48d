-- ===== src/Manager/Resuming.antt =====
-- A download over HTTP that is interrupted and resumed by Range.
use aestor.Base.{ℕ, ◌≡◌, Option, none, some, List, [], ◌∷◌, list_eq, nat_eq}
use aestor.Base.Text.{Text}
use aestor.Encryption.Crypto.{Bytes}
use aestor.Jobs.Record.{JobRecord, Floats}
use aestor.Manager.HttpDownload.{HttpReply, End, finished, attempt}
use aestor.Pull.Paths.{IsPart}
use aestor.Manager.Ranges.{IsPrefix, Serves}

-- A name that the server gives is one part of a path, and no other file of the job's directory has it.
abbrev pub Spares : (Text → Option Bytes) → HttpReply → Type 0
Spares others reply =
    (name : Text) → reply.file_name ≡ some name → IsPart name × (others name ≡ none)

-- One attempt: the file stays a front of the whole, and where the attempt finishes it is the whole.
module _ (fl : Floats) (others : Text → Option Bytes) where
  open fl use {F}

  abbrev Gets : Bytes → Option Bytes × End → Type 0
  Gets whole (file, end) = IsPrefix whole file × (end ≡ finished → file ≡ some whole)

-- An attempt that came before: when it was, after how many chunks the user paused, and the server then.
pub record Try : Type 0 where
  pub now : ℕ
  pub left : Option ℕ
  pub serve : Option ℕ → HttpReply

module _ (fl : Floats) (others : Text → Option Bytes) where
  open fl use {F}

  -- However it is asked, the server serves the file, and spares the other files of the directory.
  abbrev pub IsFair : Bytes → (Option ℕ → HttpReply) → Type 0
  IsFair whole serve =
      (start : Option ℕ) → Serves whole start (serve start) × Spares others (serve start)

  unfoldable pub run_tries : List Try → JobRecord F × Option Bytes → JobRecord F × Option Bytes
  run_tries [] (job, file) = (job, file)
  run_tries (t ∷ tries) (job, file) =
      let run = attempt fl others t.now t.left t.serve job file in run_tries tries (run.0, run.1)
