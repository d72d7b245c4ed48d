-- ===== src/Pull/Drained.antt =====
-- A cycle of scripts/pull.py against a server that keeps the contract of the file API.
use aestor.Base.{
  ℕ, ◌+◌, ◌-◌, ◌≡◌, ◌≢◌, refl, ap, ◌∙◌, true, if_rule, Option, none, some, List, [], ◌∷◌, ◌++◌, All,
  map, length, eq_iff, eq_refl, list_eq, nat_eq, arith,
}
use aestor.Base.Dict
use aestor.Base.Result.{Result, ok, err}
use aestor.Base.Text.{Text, codes}
use aestor.Completed.Rows.{Row}
use aestor.Encryption.Crypto.{Bytes}
use aestor.Encryption.Decrypt.{decrypt_file}
use aestor.Encryption.Loops.{Wrote}
use aestor.Encryption.ManifestLine.{decrypt_manifest_line}
use aestor.Jobs.Record.{FilePath, Floats, or_text}
use aestor.Pairing.State.{idle, listing}
use aestor.Pull.Client.{
  Failure, Outside, Puller, Client, read_reply, request, report_status, list_manifest,
}
use aestor.Pull.Cycle.{
  Names, pull_row, settle_row, pull_rows, pull_listed, list_rows, pull_all, cycle,
}
use aestor.Pull.Delivery.{Holds, status-Holds, without, Delivers, process_one_honest}
use aestor.Pull.Honest.{Api, IsHonest}
use aestor.Pull.Kept.{tmp_dir, tmp_dir-out_dir}
use aestor.Pull.Paths.{IsPart}
use aestor.Pull.Process.{Setup, phase_status}
use aestor.Pull.Quiet.{report_status-IsAt}
use aestor.Pull.Safety.{pull_rows-Has}

-- A row of the manifest, the blob that is stored for it, and what the blob decrypts to.
pub record Item : Type 0 where
  pub row : Row
  pub blob : Bytes
  pub content : Bytes

abbrev pub Distinct : List Item → Type 0
Distinct [] = Unit
Distinct (item ∷ items) = All (λ other. item.row.0 ≢ other.row.0) items × Distinct items

module _ {P : Type 0} (setup : Setup) (names : Names P) where
  -- The line of an item and its blob can both be decrypted.
  abbrev pub IsReadable : Item → Type 0
  IsReadable item =
      ((payload : P) × (decrypt_manifest_line names.codec setup.crypto item.row.1 ≡ ok payload))
      × ((n : ℕ) × Wrote (decrypt_file setup.crypto item.blob) item.content n)

module _ (fl : Floats) {S P : Type 0} (o : Outside (fl.F) S) (c : Client) (api : Api S)
    (honest : IsHonest o c api) (setup : Setup) (names : Names P) (out_dir : FilePath) where
  abbrev IsStored : (Text → Option Bytes) → Item → Type 0
  IsStored blobs item = blobs item.row.0 ≡ some item.blob

  -- The content is a file of the output directory, and the blob is off the server.
  abbrev pub IsPulled : Puller S → Item → Type 0
  IsPulled s item =
      (t : Text) × (Dict.get s.files (out_dir ++ t ∷ []) ≡ some item.content)
      × (api.blobs s.server item.row.0 ≡ none)

  pull_row_honest :
      (item : Item) (index total_files pulled : ℕ) (blobs : Text → Option Bytes) (s : Puller S)
      → IsReadable setup names item
      → IsStored blobs item
      → IsPart item.row.0
      → Holds fl o c api honest setup blobs s.server
      → Delivers fl o c api honest setup out_dir item.row.0 blobs item.content (
          pull_row fl o c setup names out_dir (tmp_dir out_dir) item.row index total_files pulled s)
  unfolding pull_row
  pull_row_honest item index total_files pulled blobs s ((payload, line), (n, readable)) there part
        h =
      rw (line, pull_row)
        (process_one_honest fl o c api honest setup out_dir item.row.0
          (or_text (names.name_of payload) item.row.0) index total_files pulled blobs item.blob
          item.content n s there readable h part)

  IsStored-without :
      (file_id : Text) (blobs : Text → Option Bytes) (items : List Item)
      → All (λ other. file_id ≢ other.row.0) items
      → All (IsStored blobs) items
      → All (IsStored (without fl o c api honest setup file_id blobs)) items
  IsStored-without file_id blobs [] distinct stored = tt
  IsStored-without file_id blobs (item ∷ items) distinct stored = (
    ground (arith, eq_iff file_id item.row.0, distinct.0, stored.0),
    IsStored-without file_id blobs items distinct.1 stored.1,
  )

  settle_row_ok :
      (file_id : Text) (index total_files pulled : ℕ) (run : Puller S × Result Failure FilePath)
      (path : FilePath) (blobs : Text → Option Bytes)
      → run.1 ≡ ok path
      → Holds fl o c api honest setup blobs run.0.server
      → let after =
          settle_row fl o c setup names out_dir
            (tmp_dir out_dir)
            file_id
            index
            total_files
            pulled
            run in
        (after.1 ≡ pulled + 1)
        × (after.0.files ≡ run.0.files)
        × Holds fl o c api honest setup blobs after.0.server
  unfolding settle_row
  settle_row_ok file_id index total_files pulled (s, err e) path blobs good h = cc
  settle_row_ok file_id index total_files pulled (s, ok made) path blobs good h =
      let at =
        report_status-IsAt o c (Holds fl o c api honest setup blobs)
          (status-Holds fl o c api honest setup blobs) s.files s.dirs true
          (phase_status idle none (codes "pulled " ++ file_id) (some (total_files - index))
            (pulled + 1))
          s (refl, refl, h) in
      (refl, at.0, at.2)

  parts-map :
      (items : List Item)
      → All (λ item. IsPart item.row.0) items
      → All (λ row. IsPart row.0) (map (λ item. item.row) items)
  parts-map [] parts = tt
  parts-map (item ∷ items) (part, parts) = (part, parts-map items parts)

  pull_rows_honest :
      (items : List Item) (index total_files : ℕ) (blobs : Text → Option Bytes) (run : Puller S × ℕ)
      → All (IsReadable setup names) items
      → All (IsStored blobs) items
      → Distinct items
      → All (λ item. IsPart item.row.0) items
      → Holds fl o c api honest setup blobs run.0.server
      → let after =
          pull_rows fl o c setup names out_dir
            (tmp_dir out_dir)
            (map (λ item. item.row) items)
            index
            total_files
            run in
        (after.1 ≡ run.1 + length items)
        × All (IsPulled after.0) items
        × ((id : Text) → blobs id ≡ none → api.blobs after.0.server id ≡ none)
  unfolding pull_rows
  pull_rows_honest [] index total_files blobs (s, pulled) readable stored distinct parts h =
      (omega arith, tt, λ id e. h.1 id ∙ e)
  pull_rows_honest (item ∷ items) index total_files blobs (s, pulled) readable stored distinct parts
        h =
      let first =
        pull_row fl o c setup names out_dir (tmp_dir out_dir) item.row index total_files pulled s in
      let (t, made, content, left) =
        pull_row_honest item index total_files pulled blobs s readable.0 stored.0 parts.0 h in
      let blobs' = without fl o c api honest setup item.row.0 blobs in
      let (count, files, held) =
        settle_row_ok item.row.0 index total_files pulled first _ blobs' made left in
      let second =
        settle_row fl o c setup names out_dir (tmp_dir out_dir) item.row.0 index total_files pulled
          first in
      let (total, rest, gone) =
        pull_rows_honest items (index + 1) total_files blobs' second readable.1
          (IsStored-without item.row.0 blobs items distinct.0 stored.1) distinct.1 parts.1 held in
      let here = ap (λ f. Dict.get f (out_dir ++ t ∷ [])) files ∙ content in
      let kept =
        pull_rows-Has fl o c setup names out_dir (out_dir ++ t ∷ []) item.content
          (λ id part. tmp_dir-out_dir out_dir id t) (map (λ item. item.row) items) (index + 1)
          total_files second (parts-map items parts.1) here in
      (
        omega (arith, total, count),
        ((t, kept, gone item.row.0 (rw (eq_refl item.row.0) refl)), rest),
        λ id e. gone id (if_rule (λ b. b ≡ none) _ none (blobs id) (λ x. refl) (λ x. e)),
      )

  pull_listed_honest :
      (items : List Item) (blobs : Text → Option Bytes) (run : Puller S × ℕ)
      → All (IsReadable setup names) items
      → All (IsStored blobs) items
      → Distinct items
      → All (λ item. IsPart item.row.0) items
      → Holds fl o c api honest setup blobs run.0.server
      → let after =
          pull_listed fl o c setup names out_dir
            (tmp_dir out_dir)
            (map (λ item. item.row) items)
            run in
        (after.1 ≡ run.1 + length items) × All (IsPulled after.0) items
  unfolding pull_listed
  pull_listed_honest [] blobs (s, pulled) readable stored distinct parts h = (omega arith, tt)
  pull_listed_honest (item ∷ items) blobs (s, pulled) readable stored distinct parts h =
      let (total, all_pulled, gone) =
        pull_rows_honest (item ∷ items) 1 _ blobs (s, pulled) readable stored distinct parts h in
      (total, all_pulled)

  pub list_rows_honest :
      (blobs : Text → Option Bytes) (s : Puller S)
      → Holds fl o c api honest setup blobs s.server
      → let listed = list_rows fl o c setup names out_dir (tmp_dir out_dir) s in
        (listed.1 ≡ ok (api.rows s.server)) × Holds fl o c api honest setup blobs listed.0.server
  unfolding list_rows list_manifest request read_reply
  list_rows_honest blobs s h =
      let (good, same, (raw, text, (size, pieces, answer, full, whole), decoded, parsed)) =
        honest.on_list s.server h.0 in
      let decoded' = ap o.decode whole ∙ decoded in
      (rw answer (rw decoded' (rw parsed refl)), (good, λ id. same id ∙ h.1 id))

  -- A server that keeps the contract of the file API, in a good state, whose manifest lists files with
  -- different ids, each one part of a path and stored, with a line and a blob that decrypt: after one
  -- cycle the count has risen by the number of the files, the content of each is a file of the output
  -- directory, and none of them is on the server.
  pub cycle_drains :
      (items : List Item) (s : Puller S) (pulled : ℕ)
      → api.good s.server
      → api.rows s.server ≡ map (λ item. item.row) items
      → All (λ item. api.blobs s.server item.row.0 ≡ some item.blob) items
      → All (IsReadable setup names) items
      → Distinct items
      → All (λ item. IsPart item.row.0) items
      → let after = cycle fl o c setup names out_dir (tmp_dir out_dir) (s, pulled) in
        (after.1 ≡ pulled + length items)
        × All
            (λ item.
              (t : Text) × (Dict.get after.0.files (out_dir ++ t ∷ []) ≡ some item.content)
              × (api.blobs after.0.server item.row.0 ≡ none))
            items
  unfolding cycle pull_all
  cycle_drains items s pulled good rows stored readable distinct parts =
      let status = phase_status listing none (codes "listing remote files") none pulled in
      let s₁ = report_status o c true status s in
      let blobs = api.blobs s.server in
      let at =
        report_status-IsAt o c
          (λ server.
            Holds fl o c api honest setup blobs server × (api.rows server ≡ api.rows s.server))
          (λ st server q. (
            status-Holds fl o c api honest setup blobs st server q.0,
            (honest.on_status st server q.0.0).2 ∙ q.1,
          ))
          s.files s.dirs true status s (refl, refl, ((good, λ id. refl), refl)) in
      let (found, held) = list_rows_honest blobs s₁ at.2.0 in
      let found' = found ∙ ap ok (at.2.1 ∙ rows) in
      let listed = list_rows fl o c setup names out_dir (tmp_dir out_dir) s₁ in
      rw (found', pull_all)
        (pull_listed_honest items blobs (listed.0, pulled) readable stored distinct parts held)
