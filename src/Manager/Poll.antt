-- ===== src/Manager/Poll.antt =====
-- `_poll_once` of backend/app/services/download_manager.py: what one round makes of each job.
use aestor.Base.{
  ℕ, suc, ◌-◌, Bool, true, false, not, ◌&&◌, ◌||◌, Option, none, some, List, [], ◌∷◌, is_empty,
  length, nat_beq, leb, if◌then◌else◌, list_eq, nat_eq,
}
use aestor.Base.Dict.{Dict}
use aestor.Base.Text.{Text}
use aestor.Jobs.Record.{
  JobRecord, JobStatus, downloading, paused, encrypting, completed, failed, cancelled, Floats,
  touch, push_speed, PeerInfo,
}
use aestor.Manager.State.{Manager, TorrentStatus, torrent_is_finished, fail_job, set_job}
use aestor.Manager.Complete.{Finish, complete_torrent}
use aestor.Manager.Control.{job_of}

-- A status of libtorrent with the handle's other answers, as `_poll_once` reads them: an attribute
-- that is missing is none.
pub record PollStatus (F : Type 0) : Type 0 where
  pub test : TorrentStatus F
  pub download_rate : F
  pub upload_rate : F
  pub download_payload_rate : Option F
  pub upload_payload_rate : Option F
  pub total_upload : ℕ
  pub state_name : Text
  pub num_peers : ℕ
  pub num_seeds : ℕ
  pub list_peers : ℕ
  pub list_seeds : ℕ
  pub num_pieces : ℕ
  pub pieces : Option (List Bool)
  -- `handle.torrent_file().num_pieces()`, none where there is no file yet
  pub file_pieces : Option ℕ
  pub distributed_copies : F
  pub current_tracker : Text
  pub has_metadata : Bool
  pub save_path : Text
  pub active_duration : Option F
  pub info_hash : Option Text
  pub name : Text
  pub peers : List (PeerInfo F)
  pub time : F

abbrev pub or_none_text : Text → Option Text
or_none_text t = if is_empty t then none else some t

abbrev pub else_ {ℓ} : {A : Type ℓ} → Option A → A → A
else_ none a = a
else_ (some b) a = b

unfoldable pub count_true : List Bool → ℕ
count_true [] = 0
count_true (true ∷ bs) = suc (count_true bs)
count_true (false ∷ bs) = count_true bs

unfoldable pub have_pieces : ℕ → Option (List Bool) → ℕ
have_pieces num none = num
have_pieces num (some bits) = count_true bits

-- The bitfield's length, or the torrent file's count where there is no bitfield or an empty one.
unfoldable pub total_pieces : Option (List Bool) → Option ℕ → ℕ
total_pieces none file = else_ file 0
total_pieces (some bits) file = if nat_beq (length bits) 0 then else_ file 0 else length bits

-- The jobs that a round passes over.
unfoldable pub is_settled : JobStatus → Bool
is_settled completed = true
is_settled failed = true
is_settled cancelled = true
is_settled encrypting = true
is_settled _ = false

module _ (fl : Floats) where
  open fl use {F, zero, is_positive, over}

  -- `_eta_seconds`
  unfoldable pub eta_seconds : Option ℕ → ℕ → F → Option F
  eta_seconds none done rate = none
  eta_seconds (some total) done rate =
      if nat_beq total 0 || not (is_positive rate)
      then none
      else if leb total done
      then some zero
      else some (over (total - done) rate)

  unfoldable pub polled_job : ℕ → PollStatus F → JobRecord F → JobRecord F
  polled_job now st job =
      let seen = record job {
        progress = st.test.progress;
        download_rate = st.download_rate;
        upload_rate = st.upload_rate;
        payload_download_rate = else_ st.download_payload_rate st.download_rate;
        payload_upload_rate = else_ st.upload_payload_rate st.upload_rate;
        total_bytes = some st.test.total_wanted;
        downloaded_bytes = st.test.total_wanted_done;
        uploaded_bytes = st.total_upload;
        state = some st.state_name;
        num_peers = st.num_peers;
        num_seeds = st.num_seeds;
        list_peers = st.list_peers;
        list_seeds = st.list_seeds;
        pieces_done = have_pieces st.num_pieces st.pieces;
        num_pieces = total_pieces st.pieces st.file_pieces;
        distributed_copies = st.distributed_copies;
        current_tracker = or_none_text st.current_tracker;
        has_metadata = st.has_metadata;
        save_path = or_none_text st.save_path;
        active_duration_seconds = else_ st.active_duration job.active_duration_seconds;
        info_hash = elim st.info_hash [ none ↦ job.info_hash | some h ↦ some h ];
        name = if is_empty st.name then job.name else st.name;
        eta_seconds =
            eta_seconds (some st.test.total_wanted) st.test.total_wanted_done st.download_rate;
        peers = st.peers;
      } in
      let sampled =
        push_speed (record { t = st.time; down = st.download_rate; up = st.upload_rate }) seen in
      touch now (
        if job.user_paused
        then record sampled { status = paused; download_rate = zero; upload_rate = zero }
        else record sampled { status = downloading })

  -- Whether the round finds the job's download finished.
  unfoldable pub poll_done : PollStatus F → JobRecord F → Bool
  poll_done st job = not job.user_paused && torrent_is_finished fl (some st.test)

module _ (fl : Floats) {H : Type 0} where
  open fl use {F}

  -- One handle: `poll` answers with a status or with the message of what `status()` raised. The
  -- result is the manager and whether the job is to be completed.
  unfoldable pub poll_handle :
      ℕ → (H → Option (PollStatus F)) → Text → Text → H → Manager F H → Manager F H × Bool
  poll_handle now poll message job_id h m = elim (job_of fl m job_id) [
    | none ↦ (m, false)
    | some job ↦ if is_settled job.status then (m, false) else elim (poll h) [
      | none ↦ (fail_job fl now message job m, false)
      | some st ↦ (set_job (polled_job fl now st job) m, poll_done fl st job)
    ]
  ]

  -- The loop over a copy of the handles; the ids of the finished jobs, in order.
  unfoldable pub poll_handles :
      ℕ → (H → Option (PollStatus F)) → Text → Dict Text H → Manager F H → Manager F H × List Text
  poll_handles now poll message [] m = (m, [])
  poll_handles now poll message ((job_id, h) ∷ rest) m =
      let (m', done) = poll_handle now poll message job_id h m in
      let (m'', finished) = poll_handles now poll message rest m' in
      (m'', if done then job_id ∷ finished else finished)

  -- The completions of the finished jobs, one after the other, and whether the task was cancelled in one.
  unfoldable pub complete_all : (Text → Finish H) → List Text → Manager F H → Manager F H × Bool
  complete_all finishes [] m = (m, false)
  complete_all finishes (job_id ∷ ids) m =
      let (m', stopped) = complete_torrent fl (finishes job_id) job_id m in
      let rest = complete_all finishes ids m' in if stopped then (m', true) else rest

  -- The round: `finishes` is what the outside answers while a job is completed.
  unfoldable pub poll_once :
      ℕ → (H → Option (PollStatus F)) → Text → (Text → Finish H) → Manager F H → Manager F H × Bool
  poll_once now poll message finishes m =
      if not m.has_session
      then (m, false)
      else let (m', finished) = poll_handles now poll message m.handles m in
        complete_all finishes finished m'
