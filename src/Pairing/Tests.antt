-- ===== src/Pairing/Tests.antt =====
-- Runs of the pairing service, and its theorems at concrete data.
use mathlib.Core.Option
use aestor.Base.{
  ℕ, ◌↔◌, ◌+◌, ◌≡◌, ◌≢◌, refl, true, false, none, some, List, [], ◌∷◌, list_eq, nat_eq, list_beq,
}
use aestor.Base.Result.{ok, err}
use aestor.Base.Text.{Text, codes, strip}
use aestor.Pairing.State.{Data, absent, Service, StatusUpdate, downloading}
use aestor.Pairing.Service.{
  init, load, save, pair, pair_with, conflicts, owner, to_info, info_of, is_online, require_client,
  touch, update_status, not_paired_client, pairing_conflict, PairingError, online_ttl,
}
use aestor.Pairing.Ownership.{owner-pair, claim, IsRefused, pair_fails, padded_client}
use aestor.Pairing.History.{Call, pairing, touching, perform, run, forget_seen, reload, run-owner}

abbrev box : Text
box = codes "box:1"

abbrev padded : Text
padded = codes " box:1 "

abbrev paired : Service ℕ
paired = (pair 1000 9_000_000 padded none false (init absent)).0

strip-padded : strip padded ≡ box
unfolding strip
strip-padded = refl

-- The paired client is online while its heartbeat is at most 45 seconds old.
online_edge : (to_info (1000 + online_ttl) paired).online ≡ true
unfolding pair strip conflicts owner pair_with save init load to_info info_of is_online list_beq
online_edge = refl

owner-paired : owner paired ≡ some box
unfolding pair strip conflicts owner pair_with save init load list_beq
owner-paired = refl

owner-pair_example :
    owner (pair 2000 9_500_000 (codes "lab:2") none true paired).0
    ≡ claim (strip (codes "lab:2")) true (owner paired)
owner-pair_example = owner-pair 2000 9_500_000 (codes "lab:2") none true paired

refused :
    (pair 2000 9_500_000 (codes "lab:2") none false paired).1
    ≡ err (pairing_conflict (to_info 2000 paired))
unfolding pair strip conflicts owner pair_with save init load list_beq
refused = refl

pair_fails_example :
    let run = pair 2000 9_500_000 (codes "lab:2") none false paired in
    (((e : PairingError ℕ) × (run.1 ≡ err e)) ↔ IsRefused (codes "lab:2") false paired)
    × (IsRefused (codes "lab:2") false paired → run.0 ≡ paired)
pair_fails_example = pair_fails 2000 9_500_000 (codes "lab:2") none false paired

abbrev status : StatusUpdate ℕ
status = record {
  phase = downloading;
  file_id = some (codes "f");
  bytes_done = some 1;
  bytes_total = some 2;
  progress = none;
  rate_bps = none;
  message = none;
  queue_remaining = none;
  files_pulled = none;
}

abbrev paired_data : Data ℕ
paired_data = pair_with 1000 (strip padded) none none

paired-data : paired.pair_data ≡ some paired_data
unfolding pair strip conflicts owner pair_with save init load list_beq
paired-data = refl

named : paired_data.client_id ≡ strip padded
unfolding pair_with
named = refl

not_blank : strip padded ≢ []
unfolding strip
not_blank h = cc

not_stripped : strip padded ≢ padded
unfolding strip
not_stripped h = cc

padded_client_example :
    (require_client (some padded) paired ≡ ok tt)
    × (touch 3000 9_600_000 padded paired ≡ paired)
    × (update_status 3000 9_600_000 padded status paired ≡ (paired, err not_paired_client))
padded_client_example =
    padded_client 3000 9_600_000 padded status paired paired_data paired-data named not_blank
      not_stripped

-- The heartbeat comes within two seconds of the pairing, so it is not written.
abbrev history : List (Call ℕ)
history = pairing 1000 9_000_000 box none false ∷ touching 5000 9_000_100 box ∷ []

heartbeat_unsaved :
    ((run history (init absent)).dirty_disk ≡ true)
    × (Option.map (λ (d : Data ℕ). d.last_seen) (load (run history (init absent)).disk)
        ≡ some (some 1000))
unfolding run perform pair touch strip conflicts owner pair_with save init load list_beq
heartbeat_unsaved = (refl, refl)

reload_example :
    Option.map forget_seen (init (run history (init absent)).disk).pair_data
    ≡ Option.map forget_seen (run history (init absent)).pair_data
reload_example = reload history absent

abbrev settled : List (Call ℕ)
settled = pairing 1000 9_000_000 box none false ∷ []

run-owner_example :
    owner (
      run
        (pairing 7000 9_900_000 (codes "lab:2") none false ∷ touching 8000 9_900_100 box ∷ [])
        paired)
    ≡ some box
run-owner_example =
    run-owner (pairing 7000 9_900_000 (codes "lab:2") none false ∷ touching 8000 9_900_100 box ∷ [])
      paired box (refl, (tt, tt)) owner-paired
