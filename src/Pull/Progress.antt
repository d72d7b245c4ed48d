-- ===== src/Pull/Progress.antt =====
-- `Progress` of scripts/pull.py. The lines that it logs are kept by what they say of the transfer; the
-- byte counts, rates and times are printed from the same numbers. Times are microseconds. The percentage
-- is exact: the floats that the source computes it with agree below 2^46 bytes.
use aestor.Base.{
  ℕ, ◌+◌, ◌-◌, ◌*◌, ◌/◌, min, Bool, true, false, not, ◌&&◌, ◌||◌, Option, none, some, List, [], ◌∷◌,
  ◌++◌, ltb, if◌then◌else◌,
}
use aestor.Jobs.Record.{Floats}

-- A line: the start, what was received of an unknown size, or a milestone of a known one.
pub data Line : Type 0 where
  starting : Option ℕ → Line
  received : ℕ → Bool → Line
  percent : ℕ → ℕ → ℕ → Bool → Line

pub record Progress : Type 0 where
  pub total : Option ℕ
  pub done : ℕ
  pub started : ℕ
  pub next_pct : ℕ
  pub last_log : ℕ
  pub finished : Bool
  pub lines : List Line

-- `total if total and total > 0 else …`
abbrev pub positive_or : Option ℕ → Option ℕ → Option ℕ
positive_or none old = old
positive_or (some n) old = if ltb 0 n then some n else old

abbrev pub write_line : Line → Progress → Progress
write_line line p = record p { lines = p.lines ++ line ∷ [] }

-- The line of an unknown size, at most one in two seconds but for the last.
unfoldable pub log_received : ℕ → Bool → Bool → Progress → Progress
log_received now force final p =
    if not force && (not final && ltb (now - p.last_log) 2_000_000)
    then p
    else record (write_line (received p.done final) p) {
      last_log = now;
      finished = final || p.finished;
    }

unfoldable pub milestone : Bool → ℕ → ℕ → ℕ
milestone final done total =
    let pct = if final then 100 else 100 * done / total in
    if final then 100 else min 95 (pct / 5 * 5)

unfoldable pub log_percent : ℕ → Bool → Bool → ℕ → Progress → Progress
log_percent now force final total p =
    let reached = milestone final p.done total in
    if not force && (not final && ltb reached p.next_pct)
    then p
    else record (write_line (percent reached p.done total final) p) {
      last_log = now;
      next_pct = reached + 5;
      finished = final || p.finished;
    }

unfoldable pub log_progress : ℕ → Bool → Bool → Progress → Progress
log_progress now force final p = elim p.total [
  | none ↦ log_received now force final p
  | some total ↦ log_percent now force final total p
]

-- `Progress.progress`
unfoldable pub progress_of : (fl : Floats) → Progress → Option (fl.F)
progress_of fl p = elim p.total [
  | none ↦ none
  | some total ↦ if ltb 0 total then some (fl.ratio p.done total) else none
]

-- The clock and the callback act on the state of the caller.
module _ {S : Type 0} (monotonic : S → S × ℕ) (on_tick : Progress → S → S) where
  unfoldable pub emit : Bool → Bool → Progress → S → S × Progress
  emit force final p s =
      let (s₁, now) = monotonic s in (on_tick p s₁, log_progress now force final p)

  unfoldable pub start : Option ℕ → S → S × Progress
  start total s =
      let (s₁, now) = monotonic s in
      let total' = positive_or total none in
      let p : Progress = record {
        total = total';
        done = 0;
        started = now;
        next_pct = 0;
        last_log = 0;
        finished = false;
        lines = starting total' ∷ [];
      } in
      elim total' [ none ↦ (s₁, p) | some n ↦ emit true false p s₁ ]

  unfoldable pub update : ℕ → Option ℕ → Progress → S → S × Progress
  update done total p s =
      emit false false (record p { total = positive_or total p.total; done = done }) s

  unfoldable pub finish : Progress → S → S × Progress
  finish p s =
      if p.finished
      then (s, p)
      else let done : ℕ = elim p.total [ none ↦ p.done | some n ↦ n ] in
        emit true true (record p { done = done }) s
