-- ===== src/Manager/RestartTests.antt =====
-- The theorems on restarts and on resumed downloads at concrete data.
use aestor.Base.{
  if◌then◌else◌, ◌==◌, ℕ, ◌≡◌, refl, true, false, none, some, Option, List, [], ◌∷◌, All, drop,
  list_eq, nat_eq,
}
use aestor.Base.Result.{ok}
use aestor.Base.Text.{Text, codes}
use aestor.Encryption.Crypto.{Bytes}
use aestor.Jobs.Record.{JobRecord, downloading, paused}
use aestor.Jobs.Registry.{
  load_persisted_jobs, load_all, sort_by_path, insert_by_path, is_persistable,
}
use aestor.Jobs.Snapshot.{to_persist_dict, from_persist_dict}
use aestor.Manager.State.{Manager}
use aestor.Manager.HttpDownload.{HttpReply}
use aestor.Manager.Restore.{start}
use aestor.Manager.Restored.{IsRestored}
use aestor.Manager.Restoring.{start-IsRestored}
use aestor.Manager.Resuming.{Try}
use aestor.Manager.Retry.{World}
use aestor.Manager.Tests.{floats, film, dir}

-- The disk after a stop: one snapshot.
abbrev asleep : Manager ℕ ℕ
asleep = record {
  store = record { jobs = []; snapshots = (dir, to_persist_dict floats (film paused true)) ∷ [] };
  handles = [];
  http_tasks = [];
  has_session = false;
  effects = [];
}

abbrev answers : Text → World ℕ ℕ
answers id = record {
  now = 20;
  download_dir = codes "data" ∷ [];
  is_file = λ path. true;
  exists = λ path. true;
  torrent_status = λ h. none;
  info_name = λ path. ok (codes "film");
  add_torrent = ok 5;
}

abbrev woken : List (JobRecord ℕ)
woken =
    from_persist_dict floats (λ path. true) 9 (to_persist_dict floats (film paused true)) dir ∷ []

woken_loads : load_persisted_jobs floats (λ path. true) 9 asleep.store ≡ woken
unfolding load_persisted_jobs load_all sort_by_path insert_by_path is_persistable from_persist_dict
    to_persist_dict
woken_loads = refl

start-IsRestored_example :
    All
      (λ (job : JobRecord ℕ).
        IsRestored floats job.id (start floats answers (λ path. true) 9 asleep))
      (load_persisted_jobs floats (λ path. true) 9 asleep.store)
start-IsRestored_example =
    start-IsRestored floats answers (λ path. true) 9 asleep (rw woken_loads (tt, tt))

abbrev whole : Bytes
whole = codes "hello world"

abbrev serve : Option ℕ → HttpReply
serve none = record {
  status_code = 200;
  range_total = none;
  content_length = some (some 11);
  chunks = codes "hello" ∷ codes " world" ∷ [];
  broken = none;
  file_name = some (codes "hello.txt");
}
serve (some n) = record {
  status_code = 206;
  range_total = some (some 11);
  content_length = none;
  chunks = drop n whole ∷ [];
  broken = none;
  file_name = none;
}

-- The snapshot of the job lies beside the file.
abbrev others : Text → Option Bytes
others name = if name == codes "job.json" then some (codes "{}") else none

-- The user pauses after the first chunk.
abbrev tries : List Try
tries = record { now = 9; left = some 1; serve = serve } ∷ []

abbrev job : JobRecord ℕ
job = film downloading false
