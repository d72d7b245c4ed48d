-- ===== src/Manager/Tests.antt =====
-- The theorems on the manager at concrete data. Floats and handles are numbers here.
use aestor.Base.{
  ℕ, ◌≡◌, ◌≢◌, ◌⊎◌, refl, Bool, true, false, none, some, List, [], ◌∷◌, arith, ltb, leb, nat_beq,
  list_eq, list_beq, nat_eq, eq_iff,
}
use aestor.Base.Dict
use aestor.Base.Result.{ok, err}
use aestor.Base.Text.{Text, codes}
use aestor.Jobs.Record.{
  JobRecord, JobStatus, Floats, FilePath, magnet, queued, downloading, paused, encrypting,
  completed, failed, new_job, touch,
}
use aestor.Jobs.Registry.{get_job}
use aestor.Jobs.Snapshot.{Snapshot, from_persist_dict}
use aestor.Manager.State.{Manager, has_key}
use aestor.Manager.Control.{job_of, is_pausable, is_uncancellable, pause, resume, cancel}
use aestor.Manager.Retry.{World, retry}
use aestor.Manager.Poll.{PollStatus, is_settled, poll_once}
use aestor.Manager.Complete.{Finish, complete_torrent}
use aestor.Manager.Add.{Answers, add_torrent_bytes}
use aestor.Manager.Touches.{IsKeyed}
use aestor.Manager.Pausing.{pause-survives, resume-pause, resume_any_status}
use aestor.Manager.Cancelling.{cancel_lem}
use aestor.Manager.Retrying.{retry_claims}
use aestor.Manager.Polling.{poll_once-settled}
use aestor.Manager.CompletionSteps.{IsDone, IsCut, IsEncrypting}
use aestor.Manager.Completing.{complete_torrent_lem}
use aestor.Manager.Calls.{Call, pausing, completing, target, run, run-other}
use aestor.Manager.Adding.{AddEnds, upload_answer, add_torrent_bytes-AddEnds}

abbrev pub floats : Floats
floats = record {
  F = ℕ;
  zero = 0;
  one = 1;
  is_zero = λ x. nat_beq x 0;
  ratio = λ a b. 0;
  over = λ n r. n;
  is_positive = λ x. ltb 0 x;
  is_near_one = λ x. leb 1 x;
}

abbrev pub a1 : Text
a1 = codes "a1"

abbrev pub dir : FilePath
dir = codes "data" ∷ a1 ∷ []

abbrev pub film : JobStatus → Bool → JobRecord ℕ
film status user =
    record (touch 9 (new_job floats 5 a1 magnet (codes "film") (codes "magnet:?x") none)) {
      status = status;
      user_paused = user;
      work_dir = some dir;
    }

-- A manager with that job, and a handle for it.
abbrev with_film : JobStatus → Bool → Manager ℕ ℕ
with_film status user = record {
  store = record { jobs = (a1, film status user) ∷ []; snapshots = [] };
  handles = (a1, 3) ∷ [];
  http_tasks = [];
  has_session = true;
  effects = [];
}

film_there : (s : JobStatus) (u : Bool) → job_of floats (with_film s u) a1 ≡ some (film s u)
unfolding get_job Dict.get list_beq
film_there s u = refl

handle_there : (s : JobStatus) (u : Bool) → Dict.get (with_film s u).handles a1 ≡ some 3
unfolding Dict.get list_beq
handle_there s u = refl

one-IsKeyed :
    (id : Text) (job : JobRecord ℕ)
    → job.id ≡ id
    → IsKeyed (record { jobs = (id, job) ∷ []; snapshots = [] })
unfolding get_job Dict.get
one-IsKeyed id job own k j e = ground (arith, eq_iff id k)

film-IsKeyed : (s : JobStatus) (u : Bool) → IsKeyed (with_film s u).store
unfolding new_job touch
film-IsKeyed s u = one-IsKeyed a1 (film s u) refl

pause-survives_example :
    let m' = (pause floats 20 a1 (with_film queued false)).0 in
    (d : Snapshot ℕ) × (Dict.get m'.store.snapshots dir ≡ some d)
    × ((from_persist_dict floats (λ p. false) 30 d dir).status ≡ paused)
    × ((from_persist_dict floats (λ p. false) 30 d dir).user_paused ≡ true)
    × ((from_persist_dict floats (λ p. false) 30 d dir).id ≡ a1)
unfolding is_pausable new_job touch
pause-survives_example =
    pause-survives floats 20 30 (λ p. false) a1 (with_film queued false) (film queued false) dir
      (film_there queued false) refl refl

resume-pause_example :
    let m1 = (pause floats 20 a1 (with_film downloading false)).0 in
    let m2 = (resume floats 30 a1 m1).0 in
    ((pause floats 20 a1 (with_film downloading false)).1 ≡ true)
    × (pause floats 30 a1 m1 ≡ (m1, false))
    × ((resume floats 30 a1 m1).1 ≡ true)
    × ((job' : JobRecord ℕ) × (job_of floats m2 a1 ≡ some job')
        × (job'.status ≡ downloading)
        × (job'.user_paused ≡ false)
        × (job'.progress ≡ 0)
        × (job'.downloaded_bytes ≡ 0))
unfolding is_pausable new_job touch
resume-pause_example =
    resume-pause floats 20 30 a1 (with_film downloading false) (film downloading false)
      (film_there downloading false) refl refl

resume_any_status_example :
    let m = with_film encrypting true in
    ((resume floats 30 a1 m).1 ≡ true)
    × ((job' : JobRecord ℕ) × (job_of floats (resume floats 30 a1 m).0 a1 ≡ some job')
        × (job'.status ≡ downloading)
        × (job'.user_paused ≡ false))
unfolding new_job touch
resume_any_status_example =
    resume_any_status floats 30 a1 (with_film encrypting true) (film encrypting true)
      (film_there encrypting true) refl refl

cancel_lem_example :
    let m = with_film paused true in
    let m' = cancel floats (λ d. true) a1 m in
    ((m' ≡ (m, false))
      × ((job_of floats m a1 ≡ none)
          ⊎ ((job : JobRecord ℕ) × (job_of floats m a1 ≡ some job)
              × ((job.status ≡ completed) ⊎ (job.status ≡ encrypting)))))
    ⊎ ((job : JobRecord ℕ) × (job_of floats m a1 ≡ some job)
        × (job.status ≢ completed)
        × (job.status ≢ encrypting)
        × (m'.1 ≡ true)
        × (job_of floats m'.0 a1 ≡ none)
        × (Dict.get m'.0.handles a1 ≡ none)
        × (Dict.get m'.0.http_tasks a1 ≡ none)
        × ((d : FilePath) → job.work_dir ≡ some d → Dict.get m'.0.store.snapshots d ≡ none))
cancel_lem_example = cancel_lem floats (λ d. true) a1 (with_film paused true)

abbrev world : World ℕ ℕ
world = record {
  now = 40;
  download_dir = codes "data" ∷ [];
  is_file = λ p. false;
  exists = λ p. false;
  torrent_status = λ h. none;
  info_name = λ p. err (codes "no file");
  add_torrent = ok 4;
}

idle_there : has_key (with_film failed false).http_tasks a1 ≡ false
unfolding Dict.get
idle_there = refl

retry_claims_example :
    let m = with_film failed false in
    let m1 = (retry floats world a1 m).0 in
    (((retry floats world a1 m).1 ≡ ok true)
      × ((job' : JobRecord ℕ) × (job_of floats m1 a1 ≡ some job') × (job'.status ≢ failed))
      × (retry floats world a1 m1 ≡ (m1, ok false)))
    ⊎ (((retry floats world a1 m).1 ≢ ok true)
        × ((job' : JobRecord ℕ) × (job_of floats m1 a1 ≡ some job') × (job'.status ≡ failed)))
unfolding new_job touch
retry_claims_example =
    retry_claims floats world world a1 (with_film failed false) (film failed false)
      (film_there failed false) refl refl idle_there

abbrev seen : PollStatus ℕ
seen = record {
  test = record {
    is_finished = true;
    is_seeding = false;
    progress = 1;
    total_wanted = 8;
    total_wanted_done = 8;
  };
  download_rate = 5;
  upload_rate = 0;
  download_payload_rate = none;
  upload_payload_rate = none;
  total_upload = 0;
  state_name = codes "finished";
  num_peers = 1;
  num_seeds = 1;
  list_peers = 1;
  list_seeds = 1;
  num_pieces = 2;
  pieces = none;
  file_pieces = some 2;
  distributed_copies = 1;
  current_tracker = [];
  has_metadata = true;
  save_path = [];
  active_duration = none;
  info_hash = none;
  name = codes "film";
  peers = [];
  time = 50;
}

abbrev finish : Finish ℕ
finish = record {
  now = 60;
  file_id = codes "f00d";
  pause = λ h. ok tt;
  content_name = λ h. ok (some (codes "film"));
  exists = λ p. true;
  is_file = λ p. true;
  is_dir = λ p. false;
  size = λ p. 8;
  entries = λ p. codes "film" ∷ [];
  zip = λ p. ok tt;
  append_completed = λ p name. ok tt;
  stopping = false;
}

poll_once-settled_example :
    let m' =
      (poll_once floats 50 (λ h. some seen) [] (λ id. finish) (with_film encrypting false)).0 in
    IsKeyed m'.store × (job_of floats m' a1 ≡ some (film encrypting false))
unfolding is_settled
poll_once-settled_example =
    poll_once-settled floats 50 (λ h. some seen) [] (λ id. finish) (with_film encrypting false) a1
      (film encrypting false) (film-IsKeyed encrypting false) (film_there encrypting false) refl

complete_torrent_lem_example :
    let (m', stopped) = complete_torrent floats finish a1 (with_film downloading false) in
    ((stopped ≡ false) × IsDone finish.file_id a1 m'.store × (Dict.get m'.handles a1 ≡ none))
    ⊎ (((stopped ≡ false)
          × ((j : JobRecord ℕ) × (e : Text) × (job_of floats m' a1 ≡ some j)
              × (j.status ≡ failed)
              × (j.error ≡ some e)))
        ⊎ ((stopped ≡ true) × IsCut finish × IsEncrypting a1 m'.store))
unfolding is_uncancellable new_job touch
complete_torrent_lem_example =
    complete_torrent_lem floats finish a1 3 (with_film downloading false) (film downloading false)
      (film_there downloading false) refl (handle_there downloading false) refl

abbrev b2 : Text
b2 = codes "b2"

abbrev calls : List (Call ℕ ℕ)
calls = pausing 20 b2 ∷ completing finish b2 ∷ []

run-other_example :
    IsKeyed (run floats calls (with_film downloading false)).store
    × (job_of floats (run floats calls (with_film downloading false)) a1
        ≡ job_of floats (with_film downloading false) a1)
unfolding target
run-other_example =
    run-other floats calls (with_film downloading false) a1 (film-IsKeyed downloading false)
      (ground arith, (ground arith, tt))

abbrev answers : Answers ℕ
answers = record {
  now = 70;
  job_id = b2;
  download_dir = codes "data" ∷ [];
  magnet_name = none;
  url_name = codes "page";
  info_name = err (codes "bad file");
  add_torrent = ok 4;
}

add_torrent_bytes-AddEnds_example :
    AddEnds floats true
      (upload_answer answers)
      answers
      (with_film downloading false)
      (add_torrent_bytes floats answers (codes "x.torrent") (with_film downloading false))
add_torrent_bytes-AddEnds_example =
    add_torrent_bytes-AddEnds floats answers (codes "x.torrent") (with_film downloading false)
