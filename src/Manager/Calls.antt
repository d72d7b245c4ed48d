-- ===== src/Manager/Calls.antt =====
-- The calls that are made for one job, in any order.
use aestor.Base.{ℕ, ◌≡◌, ◌≢◌, refl, ◌∙◌, Bool, Option, List, [], ◌∷◌, All, list_eq, nat_eq}
use aestor.Base.Text.{Text}
use aestor.Jobs.Record.{Floats, FilePath}
use aestor.Manager.State.{Manager}
use aestor.Manager.Control.{pause, resume, cancel, job_of}
use aestor.Manager.Retry.{World, retry}
use aestor.Manager.Complete.{Finish, complete_torrent}
use aestor.Manager.Poll.{PollStatus, poll_handle}
use aestor.Manager.Touches.{IsKeyed, Touches, Touches-IsKeyed}
use aestor.Manager.Pausing.{pause-Touches, resume-Touches}
use aestor.Manager.Cancelling.{cancel-Touches}
use aestor.Manager.Retrying.{retry-Touches}
use aestor.Manager.Polling.{poll_handle-Touches}
use aestor.Manager.Completing.{complete_torrent-Touches}

-- A call with what the outside answers to it.
pub data Call (F H : Type 0) : Type 0 where
  pausing resuming : ℕ → Text → Call F H
  cancelling : (FilePath → Bool) → Text → Call F H
  retrying : World F H → Text → Call F H
  polling : ℕ → (H → Option (PollStatus F)) → Text → H → Text → Call F H
  completing : Finish H → Text → Call F H

module _ {F H : Type 0} where
  -- The job that a call is made for.
  unfoldable pub target : Call F H → Text
  target (pausing now id) = id
  target (resuming now id) = id
  target (cancelling dir_exists id) = id
  target (retrying w id) = id
  target (polling now poll message h id) = id
  target (completing w id) = id

module _ (fl : Floats) {H : Type 0} where
  open fl use {F}

  unfoldable pub perform : Call F H → Manager F H → Manager F H
  perform (pausing now id) m = (pause fl now id m).0
  perform (resuming now id) m = (resume fl now id m).0
  perform (cancelling dir_exists id) m = (cancel fl dir_exists id m).0
  perform (retrying w id) m = (retry fl w id m).0
  perform (polling now poll message h id) m = (poll_handle fl now poll message id h m).0
  perform (completing w id) m = (complete_torrent fl w id m).0

  -- The event loop makes every history of the manager a sequence of calls.
  unfoldable pub run : List (Call F H) → Manager F H → Manager F H
  run [] m = m
  run (call ∷ calls) m = run calls (perform call m)

  perform-Touches :
      (call : Call F H) (m : Manager F H)
      → IsKeyed m.store
      → Touches (target call) m.store (perform call m).store
  unfolding perform target
  perform-Touches (pausing now id) m keyed = pause-Touches fl now id m (keyed id)
  perform-Touches (resuming now id) m keyed = resume-Touches fl now id m (keyed id)
  perform-Touches (cancelling dir_exists id) m keyed = cancel-Touches fl dir_exists id m (keyed id)
  perform-Touches (retrying w id) m keyed = retry-Touches fl w id m (keyed id)
  perform-Touches (polling now poll message h id) m keyed =
      poll_handle-Touches fl now poll message id h m (keyed id)
  perform-Touches (completing w id) m keyed = complete_torrent-Touches fl w id m (keyed id)

  -- From a registry that keeps each job under its own id: after any calls, in any order and with any
  -- answers from the outside, every job is registered under its own id, and a job that none of the
  -- calls was made for is as it was, field by field.
  pub run-other :
      (calls : List (Call F H)) (m : Manager F H) (k : Text)
      → IsKeyed m.store
      → All (λ call. k ≢ target call) calls
      → IsKeyed (run calls m).store × (job_of fl (run calls m) k ≡ job_of fl m k)
  unfolding run
  run-other [] m k keyed others = (keyed, refl)
  run-other (call ∷ calls) m k keyed others =
      let g = perform-Touches call m keyed in
      let keyed' = Touches-IsKeyed (target call) m.store (perform call m).store g keyed in
      let (keyed'', same) = run-other calls (perform call m) k keyed' others.1 in
      (keyed'', same ∙ g.0 k others.0)
