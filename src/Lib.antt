-- ===== src/Lib.antt =====
-- aestor: a download server that encrypts what it has fetched and hands it to one paired client.
--
-- The parts and how they interact. `DownloadManager` takes URLs and torrent files, drives libtorrent
-- and HTTP tasks, and keeps one `JobRecord` for each in the `Store`, which also writes a snapshot of
-- it (job.json) into the job's directory. A finished download is packed, encrypted by the `Encryptor`
-- and dropped from the registry's view under its plain name. `PairingService` holds the single slot
-- for the client that may list, fetch and delete the encrypted files. That client is scripts/pull.py:
-- it reads the manifest, downloads each blob, decrypts it to a file of its own and deletes it remotely.
--
-- Files and what they are about:
--   Base         Python's dict, str, sorted and exceptions, over native numbers
--   Encryption   backend/app/services/encryption.py: `Encryptor.encrypt_file` (Encrypt), `decrypt_file`
--                (Decrypt), the frames of both (Frame), and the lines of the manifest (ManifestLine);
--                RSA-OAEP, AES-GCM and the random bytes are the records Crypto and Entropy with the
--                laws IsLawful and HasSizes (Crypto), JSON and base64 the record Codec
--   Pairing      backend/app/services/pairing.py: the service and pair.json (State), its methods
--                (Service), who owns the slot (Ownership), histories of calls (History)
--   Jobs         backend/app/services/store.py and backend/app/models.py: `JobRecord` (Record),
--                `to_persist_dict` and `from_persist_dict` (Snapshot), the job half of `Store`
--                (Registry), what is on disk (Persistence)
--   Completed    backend/app/services/store.py: the file half of `Store` (Files), the manifest as rows
--                (Rows), deletion (Deletion), storing (Storing), the listing (Listing, Listed);
--                `parse_manifest_text` of backend/app/services/encryption.py (Parse, Printing)
--   Manager      backend/app/services/download_manager.py: the state (State); `pause`, `resume`,
--                `cancel` (Control); `retry` (Retry); `add_url`, `add_torrent_bytes` (Add);
--                `_poll_once` (Poll); `_complete_torrent`, `_finalize_path` (Complete); `start`, `stop`
--                and the restore of the saved jobs (Restore); `_http_download`, the fetch of a remote
--                torrent file (HttpDownload)
--   Auth         backend/app/auth.py: the guards (Guards), the login throttle (Throttle); the gate
--                in front of the API and the login endpoint of backend/app/main.py (Gate, Throttle)
--   Api          backend/app/main.py: the routes below /api/v1 with `_require_paired_client`, and the
--                deletion from the web, over the pairing service and the completed files (Routes);
--                who is let in (Exclusive, LetIn), what is served after a deletion (Deleting), what of
--                the directory the client sees (Shelf). The routes behind HTTP are the server that the
--                client talks to (Serving), which keeps its contract (Contract); client, routes and
--                encryption together (Delivered). pair.json lies in the directory of the completed files,
--                so a file route reads and writes it under that name as well. What the framework does is the record Framework with
--                the laws IsHttp
--   Pull         scripts/pull.py: `_safe_name`, `_unique_path` (Names), `Progress` (Progress), the path
--                of a blob (Paths), the requests and what the client keeps (Client), `process_one`
--                (Process), the cycle and `run` (Cycle). The server behind HTTP, the clock and what it
--                reads are the record Outside, and Honest says what a server that keeps its contract
--                answers in a good state
--
-- How the state corresponds to the code. An object that the source shares and changes in place (a job,
-- the tables of handles and tasks) is a value that each operation returns; a changed job is put back
-- under its id. What the program asks of the outside (libtorrent, asyncio, the file system, the
-- notifier) is a list of effects in their order, and what the outside answers is an argument (World,
-- Answers, Finish, PollStatus, `is_file`, the times). An exception is a value of Result or a message.
-- A method that awaits is one step: the calls on one job are taken not to interleave within a method,
-- and History and Calls compose them in any order. Floats are a parameter (Floats), times are
-- microseconds, texts are code points, paths are lists of parts, and a name from libtorrent is one part.
-- The id of a blob that the client is given may have slashes and dots (Paths). The cancellation of a
-- task, which `except Exception` lets through, is the value task_cancelled of Halt, and what the outside
-- answers while a round of polling completes its jobs is an argument of `poll_once`. The limits on the
-- fields of a request body, whose breach FastAPI answers with 422, are the framework's.
--
-- Bounds and fuel. The loop of `encrypt_file` and that of `decrypt_file` run on fuel, one more than the
-- bytes that there are to read; every turn reads at least one, and the round trip shows that both
-- return. A source is bounded by 2^32 chunks of 512 KiB, past which `_chunk_nonce` raises. `_unique_path`
-- tries names on fuel, one more than the files and directories there are, and one of so many names is
-- free. The client's endless loop is its state after n turns. Everything else is structural.
--
-- Not modelled: the HTTP routes that pass on to the download manager or only read for the web,
-- `_poll_loop`, `_zip_dir` and the resume data of libtorrent, the transfer rates of `_http_download`,
-- and of the pull client its argument parser, the id that it derives from the machine, the texts of its
-- log, its sleeps and the repeated idle reports. They are glue around the parts above or file-system
-- work. The live hub, notifications, egress and GeoIP are I/O without a decision that the other parts
-- depend on. File operations of the job half of the store are taken to succeed.
pub mod Base
pub mod Encryption
pub mod Pairing
pub mod Jobs
pub mod Manager
pub mod Auth
pub mod Completed
pub mod Pull
pub mod Api
