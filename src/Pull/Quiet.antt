-- ===== src/Pull/Quiet.antt =====
-- What the reports and the log of scripts/pull.py leave alone: the files, and what the server holds.
use aestor.Base.{
  ℕ, ◌-◌, ◌≡◌, inl, inr, Bool, true, false, not, ◌&&◌, Option, none, some, Option-cases, List, [],
  ◌∷◌, if_rule, ltb,
}
use aestor.Base.Dict.{Dict}
use aestor.Base.Result.{Result, ok, err}
use aestor.Base.Text.{Text, codes}
use aestor.Encryption.Crypto.{Bytes}
use aestor.Jobs.Record.{FilePath, Floats}
use aestor.Pairing.State.{StatusUpdate}
use aestor.Pull.Client.{
  status_body, Request, Failure, Outside, Puller, Client, monotonic, request_of, request,
  report_status,
}
use aestor.Pull.Process.{no_tick, rate_bps, on_dl, on_dec, on_dec_all}
use aestor.Pull.Progress.{Progress, start, update, finish, emit, positive_or}

module _ {F S : Type 0} (o : Outside F S) (c : Client) where
  abbrev pub status_request : StatusUpdate F → Request F
  status_request status =
      request_of o c (codes "POST") (codes "/api/v1/status") (status_body c.client_id status) false

  -- `Q` holds of the server after any report.
  module _ (Q : S → Type 0)
      (quiet : (status : StatusUpdate F) (server : S)
        → Q server
        → Q (o.send (status_request status) server).0) where
    abbrev pub IsAt : Dict FilePath Bytes → List FilePath → Puller S → Type 0
    IsAt files dirs s = (s.files ≡ files) × (s.dirs ≡ dirs) × Q s.server

    module _ (files : Dict FilePath Bytes) (dirs : List FilePath) where
      answered :
          (answer : Result Failure Bytes) (now : ℕ) (s : Puller S)
          → IsAt files dirs s
          → IsAt files dirs (elim answer [ err e ↦ s | ok raw ↦ record s { last_status_at = now } ])
      answered (err e) now s h = h
      answered (ok raw) now s h = h

      pub report_status-IsAt :
          (force : Bool) (status : StatusUpdate F) (s : Puller S)
          → IsAt files dirs s
          → IsAt files dirs (report_status o c force status s)
      unfolding report_status monotonic request
      report_status-IsAt force status s h =
          let (s₁, now) = monotonic o s in
          let (s₂, answer) =
            request o c (codes "POST") (codes "/api/v1/status") (status_body c.client_id status)
              false s₁ in
          if_rule (IsAt files dirs) (not force && ltb (now - s₁.last_status_at) 350_000) s₁
            (elim answer [ err e ↦ s₂ | ok raw ↦ record s₂ { last_status_at = now } ]) (λ e. h)
            (λ e. answered answer now s₂ (h.0, h.1, quiet status s.server h.2))

      -- A callback that leaves them alone too.
      abbrev pub Leaves : (Progress → Puller S → Puller S) → Type 0
      Leaves on_tick =
          (p : Progress) (s : Puller S) → IsAt files dirs s → IsAt files dirs (on_tick p s)

      module _ (on_tick : Progress → Puller S → Puller S) (leaves : Leaves on_tick) where
        emit-IsAt :
            (force final : Bool) (p : Progress) (s : Puller S)
            → IsAt files dirs s
            → IsAt files dirs (emit (monotonic o) on_tick force final p s).0
        unfolding emit monotonic
        emit-IsAt force final p s h = leaves p _ h

        pub start-IsAt :
            (total : Option ℕ) (s : Puller S)
            → IsAt files dirs s
            → IsAt files dirs (start (monotonic o) on_tick total s).0
        unfolding start monotonic
        start-IsAt total s h = elim (Option-cases (positive_or total none)) [
          | inl e ↦ rw (e, start) h
          | inr (n, e) ↦ rw (e, start) (emit-IsAt true false _ _ h)
        ]

        pub update-IsAt :
            (done : ℕ) (total : Option ℕ) (p : Progress) (s : Puller S)
            → IsAt files dirs s
            → IsAt files dirs (update (monotonic o) on_tick done total p s).0
        unfolding update
        update-IsAt done total p s h = emit-IsAt false false _ s h

        pub finish-IsAt :
            (p : Progress) (s : Puller S)
            → IsAt files dirs s
            → IsAt files dirs (finish (monotonic o) on_tick p s).0
        unfolding finish
        finish-IsAt p s h =
            let done : ℕ = elim p.total [ none ↦ p.done | some n ↦ n ] in
            let p' : Progress = record p { done = done } in
            if_rule (λ (run : Puller S × Progress). IsAt files dirs run.0) p.finished (s, p)
              (emit (monotonic o) on_tick true true p' s) (λ e. h) (λ e. emit-IsAt true true p' s h)

module _ (fl : Floats) {S : Type 0} (o : Outside (fl.F) S) (c : Client) (Q : S → Type 0)
    (quiet : (status : StatusUpdate (fl.F)) (server : S)
      → Q server
      → Q (o.send (status_request o c status) server).0)
    (files : Dict FilePath Bytes) (dirs : List FilePath) (file_id : Text) (queue pulled : ℕ) where
  pub on_dl-IsAt : Leaves o c Q quiet files dirs (on_dl fl o c file_id queue pulled)
  unfolding on_dl rate_bps monotonic
  on_dl-IsAt p s h = report_status-IsAt o c Q quiet files dirs false _ (rate_bps fl o c p s).0 h

  pub on_dec_all-IsAt :
      (reports : List (ℕ × ℕ)) (p : Progress) (s : Puller S)
      → IsAt o c Q quiet files dirs s
      → IsAt o c Q quiet files dirs (on_dec_all fl o c file_id queue pulled reports p s).0
  unfolding on_dec_all on_dec rate_bps monotonic
  on_dec_all-IsAt [] p s h = h
  on_dec_all-IsAt ((done, total) ∷ rest) p s h =
      let (s₁, p') = update (monotonic o) no_tick done (some total) p s in
      on_dec_all-IsAt rest p' _ (
        report_status-IsAt o c Q quiet files dirs false _ (rate_bps fl o c p' s₁).0
          (update-IsAt o c Q quiet files dirs no_tick (λ p s h. h) done (some total) p s h))
