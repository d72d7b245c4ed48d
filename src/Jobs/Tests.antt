-- ===== src/Jobs/Tests.antt =====
-- The theorems on jobs at concrete data. Floats are numbers here.
use aestor.Base.{
  ℕ, ◌≡◌, refl, true, none, some, [], ◌∷◌, ◌++◌, arith, ltb, leb, nat_beq, nat_beq_iff, list_eq,
  nat_eq,
}
use aestor.Base.Dict
use aestor.Base.Text.{codes}
use aestor.Jobs.Record.{JobRecord, Floats, FilePath, http, torrent, downloading, new_job, touch}
use aestor.Jobs.Registry.{Store, flush_dirty_jobs, is_persistable}
use aestor.Jobs.Snapshot.{source_torrent, to_persist_dict, from_persist_dict}
use aestor.Jobs.Persistence.{to_persist_dict-from_persist_dict, flush_dirty_jobs-saves}

abbrev pub floats : Floats
floats = record {
  F = ℕ;
  zero = 0;
  one = 1;
  is_zero = λ x. nat_beq x 0;
  ratio = λ a b. 0;
  over = λ n r. n;
  is_positive = λ x. ltb 0 x;
  is_near_one = λ x. leb 1 x;
}

abbrev dir : FilePath
dir = codes "data" ∷ codes "a1" ∷ []

abbrev film : JobRecord ℕ
film = record (touch 9 (new_job floats 5 (codes "a1") torrent (codes "film") (codes "film") none)) {
  status = downloading;
  work_dir = some dir;
  torrent_path = some (dir ++ source_torrent ∷ []);
}

abbrev page : JobRecord ℕ
page = new_job floats 8 (codes "b2") http (codes "page") (codes "http://h/page") none

to_persist_dict-from_persist_dict_example :
    to_persist_dict floats
      (from_persist_dict floats (λ p. true) 70 (to_persist_dict floats film) dir)
    ≡ to_persist_dict floats film
unfolding new_job touch
to_persist_dict-from_persist_dict_example =
    to_persist_dict-from_persist_dict floats (λ p. true) 70 film dir (λ x z. (nat_beq_iff x 0).0 z)
      refl (ground arith) (source_torrent, [], refl, refl)

abbrev two_jobs : Store ℕ
two_jobs = record { jobs = (codes "a1", film) ∷ (codes "b2", page) ∷ []; snapshots = [] }

flush_dirty_jobs-saves_example :
    Dict.get (flush_dirty_jobs floats two_jobs).snapshots dir ≡ some (to_persist_dict floats film)
unfolding new_job touch is_persistable
flush_dirty_jobs-saves_example =
    flush_dirty_jobs-saves floats [] ((codes "b2", page) ∷ []) (codes "a1") film [] dir refl refl
      refl ((ground arith), tt)
