-- ===== src/Manager/Add.antt =====
-- `add_url`, `add_torrent_bytes` and the three adders of backend/app/services/download_manager.py.
use aestor.Base.{
  ℕ, true, not, Option, none, some, [], ◌∷◌, ◌++◌, if◌then◌else◌, nat_beq, list_eq, nat_eq,
}
use aestor.Base.Dict
use aestor.Base.Result.{Result, ok, err}
use aestor.Base.Text.{Text, codes, strip, lower, ends_with}
use aestor.Jobs.Record.{
  JobRecord, JobKind, magnet, torrent, http, downloading, Floats, FilePath, touch, new_job, or_text,
}
use aestor.Jobs.Registry.{add_job}
use aestor.Jobs.Snapshot.{source_torrent}
use aestor.Manager.State.{
  Manager, ManagerError, session_not_started, unsupported_url, libtorrent_error, resume_handle,
  make_dir, spawn, Task, http_download, fetch_torrent, emit, persist, set_job, is_magnet, is_http,
}

-- What the outside answers while one call runs.
pub record Answers (H : Type 0) : Type 0 where
  pub now : ℕ
  pub job_id : Text
  pub download_dir : FilePath
  -- `lt.parse_magnet_uri(magnet).name`, none where the call raises
  pub magnet_name : Option Text
  -- `Path(unquote(urlparse(url).path)).name`
  pub url_name : Text
  -- `lt.torrent_info(path).name()`
  pub info_name : Result Text Text
  pub add_torrent : Result Text H

-- `url.lower().split("?", 1)[0]`, its part before a question mark.
unfoldable pub before_query : Text → Text
before_query [] = []
before_query (c ∷ s) = let rest = before_query s in if nat_beq c 63 then [] else c ∷ rest

-- `name or default` where the name may be missing.
abbrev pub name_or : Option Text → Text → Text
name_or none default = default
name_or (some name) default = or_text name default

-- `_guess_name_from_url`, behind the parsing of the URL.
unfoldable pub guess_name_from_url : Text → Text
guess_name_from_url url_name = or_text url_name (codes "download")

abbrev pub Added : Type 0 → Type 0 → Type 0
Added F H = Manager F H × Result ManagerError (JobRecord F)

-- The name that is shown: the caller's, else that of the magnet, else "magnet".
unfoldable pub magnet_display : Option Text → Option Text → Text
magnet_display name parsed = name_or name (name_or parsed (codes "magnet"))

module _ (fl : Floats) {H : Type 0} where
  open fl use {F}

  -- The new job with its directory, registered and saved as QUEUED.
  unfoldable pub register :
      Answers H → JobKind → Text → Text → Manager F H → JobRecord F × Manager F H
  register a kind name source m =
      let dir = a.download_dir ++ a.job_id ∷ [] in
      let job = record (new_job fl a.now a.job_id kind name source none) { work_dir = some dir } in
      let m' = emit (make_dir dir) m in (job, record m' { store = add_job fl job true m'.store })

  -- A job that is handed to a task of its own.
  unfoldable pub start_task : Answers H → Task → JobRecord F → Manager F H → Added F H
  start_task a t job m =
      let job' = touch a.now (record job { status = downloading }) in
      let m' = persist fl job' m in
      (emit (spawn t) (record m' { http_tasks = Dict.put m'.http_tasks job.id t }), ok job')

  -- A job that is handed to libtorrent. Where that raises, the job stays registered as QUEUED.
  unfoldable pub start_torrent : Answers H → JobRecord F → Manager F H → Added F H
  start_torrent a job m = elim (a.add_torrent) [
    | err e ↦ (m, err (libtorrent_error e))
    | ok h ↦
        let job' = touch a.now (record job { status = downloading }) in
        let m' = emit (resume_handle h) m in
        (persist fl job' (record m' { handles = Dict.put m'.handles job.id h }), ok job')
  ]

  unfoldable pub add_magnet : Answers H → Text → Option Text → Manager F H → Added F H
  add_magnet a url name m =
      if not m.has_session
      then (m, err session_not_started)
      else let (job, m') = register a magnet (magnet_display name a.magnet_name) url m in
        start_torrent a job m'

  unfoldable pub add_remote_torrent : Answers H → Text → Option Text → Manager F H → Added F H
  add_remote_torrent a url name m =
      if not m.has_session
      then (m, err session_not_started)
      else let (job, m') =
          register a torrent (name_or name (guess_name_from_url a.url_name)) url m in
        start_task a (fetch_torrent a.job_id) job m'

  unfoldable pub add_http : Answers H → Text → Option Text → Manager F H → Added F H
  add_http a url name m =
      if not m.has_session
      then (m, err session_not_started)
      else let (job, m') = register a http (name_or name (guess_name_from_url a.url_name)) url m in
        start_task a (http_download a.job_id) job m'

  unfoldable pub add_url : Answers H → Text → Option Text → Manager F H → Added F H
  add_url a raw name m =
      let url = strip raw in
      if is_magnet url
      then add_magnet a url name m
      else if is_http url
      then (if ends_with (before_query (lower url)) (codes ".torrent")
          then add_remote_torrent a url name m
          else add_http a url name m)
      else (m, err unsupported_url)

  -- The uploaded file is read, and its name is taken over.
  unfoldable pub start_upload : Answers H → Text → JobRecord F → Manager F H → Added F H
  start_upload a filename job m = elim (a.info_name) [
    | err e ↦ (m, err (libtorrent_error e))
    | ok info ↦
        let job' = record job { name = or_text info filename } in
        start_torrent a job' (set_job job' m)
  ]

  -- The uploaded file lies at `source.torrent` in the job's directory.
  unfoldable pub add_torrent_bytes : Answers H → Text → Manager F H → Added F H
  add_torrent_bytes a filename m =
      if not m.has_session
      then (m, err session_not_started)
      else let dir = a.download_dir ++ a.job_id ∷ [] in
        let job = record (new_job fl a.now a.job_id torrent filename filename none) {
          torrent_path = some (dir ++ source_torrent ∷ []);
          work_dir = some dir;
        } in
        let m' = emit (make_dir dir) m in
        let m'' = record m' { store = add_job fl job true m'.store } in
        start_upload a filename job m''
