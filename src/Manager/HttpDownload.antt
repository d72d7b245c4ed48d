-- ===== src/Manager/HttpDownload.antt =====
-- `_http_download` and `_fetch_torrent_then_add` of backend/app/services/download_manager.py. The
-- rates and the speed history are left out; the file at `dest` is its content. The save right after a
-- renaming is that at the end of the attempt here.
use aestor.Base.{
  ℕ, zero, suc, ◌+◌, Bool, true, false, not, ◌&&◌, Option, none, some, List, [], ◌∷◌, ◌++◌, length,
  nat_beq, ltb, leb, if◌then◌else◌, ◌==◌, list_eq, nat_eq,
}
use aestor.Base.Dict
use aestor.Base.Result.{Result, ok, err}
use aestor.Base.Text.{Text, codes}
use aestor.Encryption.Crypto.{Bytes}
use aestor.Jobs.Record.{JobRecord, downloading, paused, cancelled, Floats, FilePath, touch, or_text}
use aestor.Jobs.Snapshot.{source_torrent}
use aestor.Manager.State.{Manager, resume_handle, emit, persist, set_job, fail_job}
use aestor.Manager.Complete.{Halt, failure, task_cancelled, Finish, finalize_path}

-- A response: its status, what follows the slash of Content-Range and the Content-Length, each as `int`
-- reads it (an inner `none` where it raises), the chunks of its body, and what then raises, if anything.
pub record HttpReply : Type 0 where
  pub status_code : ℕ
  pub range_total : Option (Option ℕ)
  pub content_length : Option (Option ℕ)
  pub chunks : List Bytes
  pub broken : Option Text
  -- `Path(part).name` of the file name in Content-Disposition, where there is one
  pub file_name : Option Text

-- The end of one attempt.
pub data End : Type 0 where
  finished user_paused : End
  raised : Text → End

-- `httpx` raises for every status that is not 2xx.
unfoldable pub is_success : ℕ → Bool
is_success code = leb 200 code && ltb code 300

unfoldable pub file_size : Option Bytes → ℕ
file_size none = 0
file_size (some content) = length content

-- `headers["Range"]` from the size of the file that is there.
unfoldable pub range_start : Option Bytes → Option ℕ
range_start file = if ltb 0 (file_size file) then some (file_size file) else none

-- The test of the status: the file as it is kept, or what is raised.
unfoldable pub check_status : ℕ → Option Bytes → Result Text (Option Bytes)
check_status code file =
    if ltb 0 (file_size file) && nat_beq code 200
    then ok none
    else if is_success code
    then ok file
    else err (codes "http status")

-- `job.total_bytes`; a Content-Length that is no number raises.
unfoldable pub total_of : HttpReply → ℕ → Option ℕ → Result Text (Option ℕ)
total_of reply existing old = elim reply.range_total [
  | some (some n) ↦ ok (some n)
  | some none ↦ ok old
  | none ↦ elim reply.content_length [
    | none ↦ ok old
    | some none ↦ err (codes "invalid literal for int()")
    | some (some n) ↦ ok (some (if nat_beq reply.status_code 206 then n + existing else n))
  ]
]

-- The mode "ab" goes on behind what is there, "wb" begins anew.
unfoldable pub appends : ℕ → Option Bytes → Bool
appends code file = ltb 0 (file_size file) && nat_beq code 206

unfoldable pub opened : ℕ → Option Bytes → Bytes
opened code none = []
opened code (some content) = if appends code (some content) then content else []

-- The loop over the chunks, until the user pauses: `left` is the number of chunks before that.
unfoldable pub write_chunks : Option ℕ → Option Text → List Bytes → Bytes → Bytes × End
write_chunks left none [] content = (content, finished)
write_chunks left (some e) [] content = (content, raised e)
write_chunks (some zero) broken (chunk ∷ chunks) content = (content, user_paused)
write_chunks (some (suc n)) broken (chunk ∷ chunks) content =
    write_chunks (some n) broken chunks (content ++ chunk)
write_chunks none broken (chunk ∷ chunks) content =
    write_chunks none broken chunks (content ++ chunk)

-- Whether a chunk is written at all.
unfoldable pub writes : Option ℕ → List Bytes → Bool
writes left [] = false
writes (some zero) (chunk ∷ chunks) = false
writes left (chunk ∷ chunks) = true

-- The file after the response to the request for it, and the end of the attempt.
unfoldable pub save_body : Option ℕ → HttpReply → Option Bytes → Option Bytes × End
save_body left reply file =
    let (content, end) =
      write_chunks left reply.broken reply.chunks (opened reply.status_code file) in
    (some content, end)

-- The file under the new name: the one that is there, else the one that is moved.
abbrev pub file_under : Option Bytes → Option Bytes → Option Bytes
file_under none file = file
file_under (some content) file = some content

module _ (fl : Floats) where
  open fl use {F, ratio}

  -- `job.progress`, where the size is known and not 0.
  unfoldable pub shown_progress : ℕ → JobRecord F → F
  shown_progress done job = elim job.total_bytes [
    | none ↦ job.progress
    | some total ↦ if ltb 0 total then ratio done total else job.progress
  ]

  -- What the loop leaves on the job, once a chunk is written: the bytes so far are the file's size.
  unfoldable pub counted_job : ℕ → Option Bytes → JobRecord F → JobRecord F
  counted_job now file job = touch now (record job {
    downloaded_bytes = file_size file;
    progress = shown_progress (file_size file) job;
    state = some (codes "http");
  })

  -- The job and the file as an attempt leaves them.
  abbrev pub Attempt : Type 0
  Attempt = JobRecord F × Option Bytes × End

  -- The name that the server gives: the file moves under it, unless there is one, which is taken instead.
  unfoldable pub take_name :
      (Text → Option Bytes) → HttpReply → JobRecord F → Option Bytes → JobRecord F × Option Bytes
  take_name others reply job file = elim reply.file_name [
    | none ↦ (job, file)
    | some name ↦
        if name == job.name
        then (job, file)
        else (record job { name = name }, file_under (others name) file)
  ]

  unfoldable pub receive_body :
      (Text → Option Bytes)
      → ℕ
      → Option ℕ
      → HttpReply
      → Option ℕ
      → JobRecord F
      → Option Bytes
      → Attempt
  receive_body others now left reply total job file =
      let (job', named) = take_name others reply (record job { total_bytes = total }) file in
      let (file', end) = save_body left reply named in
      (if writes left reply.chunks then counted_job now file' job' else job', file', end)

  -- One request, with the Range of the file that is there; `serve` answers it.
  unfoldable pub attempt :
      (Text → Option Bytes)
      → ℕ
      → Option ℕ
      → (Option ℕ → HttpReply)
      → JobRecord F
      → Option Bytes
      → Attempt
  attempt others now left serve job file =
      let reply = serve (range_start file) in
      elim (check_status reply.status_code file) [
        | err e ↦ (job, file, raised e)
        | ok kept ↦ elim (total_of reply (file_size kept) job.total_bytes) [
          | err e ↦ (job, kept, raised e)
          | ok total ↦ receive_body others now left reply total job kept
        ]
      ]

  unfoldable pub begun_download : ℕ → JobRecord F → JobRecord F
  begun_download now job = touch now (record job { status = downloading; error = none })

  unfoldable pub paused_download : ℕ → JobRecord F → JobRecord F
  paused_download now job = touch now (record job { status = paused; download_rate = fl.zero })

module _ (fl : Floats) {H : Type 0} where
  open fl use {F}

  -- `self._http_tasks.pop(job.id, None)`
  abbrev pub leave_tasks : Text → Manager F H → Manager F H
  leave_tasks id m = record m { http_tasks = Dict.pop m.http_tasks id }

  -- The `except` and `finally` of the task.
  unfoldable pub end_task : ℕ → JobRecord F × Manager F H × Option Text → Manager F H
  end_task now (job, m, none) = leave_tasks job.id m
  end_task now (job, m, some e) = leave_tasks job.id (fail_job fl now e job m)

  -- A cancelled task leaves the job for the next start when the manager is stopping.
  unfoldable pub cancelled_task : Bool → ℕ → JobRecord F → Manager F H → Manager F H
  cancelled_task stopping now job m =
      let m' =
        if not stopping then set_job (touch now (record job { status = cancelled })) m else m in
      leave_tasks job.id m'

  -- The same for what `_finalize_path` raised.
  unfoldable pub end_finalize : Finish H → JobRecord F × Manager F H × Option Halt → Manager F H
  end_finalize w (job, m, none) = leave_tasks job.id m
  end_finalize w (job, m, some (failure e)) = leave_tasks job.id (fail_job fl w.now e job m)
  end_finalize w (job, m, some task_cancelled) = cancelled_task w.stopping w.now job m

  -- After an attempt: the file is encrypted, or the task waits for the user, or the job has failed.
  unfoldable pub end_attempt :
      Finish H → FilePath → Attempt fl → Manager F H → Manager F H × Option Bytes
  end_attempt w dir (job, file, finished) m =
      (end_finalize w (finalize_path fl w job (dir ++ job.name ∷ []) m), file)
  end_attempt w dir (job, file, user_paused) m = (persist fl (paused_download fl w.now job) m, file)
  end_attempt w dir (job, file, raised e) m = (end_task w.now (job, m, some e), file)

  -- One turn of the outer loop for the job as it stands.
  unfoldable pub http_turn :
      Finish H
      → (Text → Option Bytes)
      → Option ℕ
      → (Option ℕ → HttpReply)
      → FilePath
      → JobRecord F
      → Option Bytes
      → Manager F H
      → Manager F H × Option Bytes
  http_turn w others left serve dir job file m =
      if job.user_paused
      then (persist fl (paused_download fl w.now job) m, file)
      else let job' = begun_download fl w.now job in
        end_attempt w dir (attempt fl others w.now left serve job' file) (persist fl job' m)

  -- The torrent file that was fetched is handed to libtorrent, whatever the user has paused meanwhile.
  unfoldable pub add_fetched :
      ℕ
      → Result Text Text
      → Result Text H
      → JobRecord F
      → Manager F H
      → JobRecord F × Manager F H × Option Text
  add_fetched now info added job m = elim info [
    | err e ↦ (job, m, some e)
    | ok name ↦
        let job' = record job { name = or_text name job.name } in
        elim added [
          | err e ↦ (job', m, some e)
          | ok h ↦
              let job'' = touch now (record job' { status = downloading }) in
              let m' = emit (resume_handle h) m in
              (job'', persist fl job'' (record m' { handles = Dict.put m'.handles job.id h }), none)
        ]
  ]

  unfoldable pub keep_fetched :
      ℕ
      → Result Text Text
      → Result Text H
      → JobRecord F
      → Manager F H
      → JobRecord F × Manager F H × Option Text
  keep_fetched now info added job m =
      if not m.has_session then (job, m, some (codes "session gone")) else elim job.work_dir [
        | none ↦ (job, m, some [])
        | some dir ↦
            add_fetched now info added
              (record job { torrent_path = some (dir ++ source_torrent ∷ []) }) m
      ]

  -- `_fetch_torrent_then_add`, with what the request, `torrent_info` and `add_torrent` answer.
  unfoldable pub fetch_torrent_then_add :
      ℕ
      → Result Text Bytes
      → Result Text Text
      → Result Text H
      → JobRecord F
      → Manager F H
      → Manager F H
  fetch_torrent_then_add now fetched info added job m =
      end_task now
        (elim fetched [ err e ↦ (job, m, some e) | ok content ↦ keep_fetched now info added job m ])
