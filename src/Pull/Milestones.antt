-- ===== src/Pull/Milestones.antt =====
-- The percentages that `Progress` of scripts/pull.py logs.
use aestor.Base.{
  ℕ, ◌+◌, ◌*◌, ◌≤◌, ◌≡◌, refl, ap, ◌⊎◌, inl, inr, Bool, true, false, ◌||◌, Option, none, List, [],
  ◌∷◌, ◌++◌, length, ltb, arith, Bool-cases, Option-cases, if_rule,
}
use aestor.Pull.Progress.{
  Line, starting, received, percent, Progress, positive_or, write_line, log_received, milestone,
  log_percent, log_progress, emit, start, update, finish,
}

unfoldable pub percents : List Line → List ℕ
percents [] = []
percents (starting total ∷ lines) = percents lines
percents (received done final ∷ lines) = percents lines
percents (percent reached done total final ∷ lines) = reached ∷ percents lines

-- From `lo` on, each number is at least five above the one before it, and the last is five below `hi`.
abbrev pub Rises : ℕ → List ℕ → ℕ → Type 0
Rises lo [] hi = lo ≤ hi
Rises lo (m ∷ ms) hi = (lo ≤ m) × Rises (m + 5) ms hi

Rises-snoc :
    (lo : ℕ) (ms : List ℕ) (hi m : ℕ) → Rises lo ms hi → hi ≤ m → Rises lo (ms ++ m ∷ []) (m + 5)
Rises-snoc lo [] hi m h le = (omega arith, omega arith)
Rises-snoc lo (k ∷ ms) hi m h le = (h.0, Rises-snoc (k + 5) ms hi m h.1 le)

length-Rises : (lo : ℕ) (ms : List ℕ) (hi : ℕ) → Rises lo ms hi → lo + 5 * length ms ≤ hi
length-Rises lo [] hi h = omega arith
length-Rises lo (m ∷ ms) hi h = omega (arith, length-Rises (m + 5) ms hi h.1, h.0)

Rises-weaken : (lo : ℕ) (ms : List ℕ) (hi top : ℕ) → Rises lo ms hi → hi ≤ top → Rises lo ms top
Rises-weaken lo [] hi top h le = omega arith
Rises-weaken lo (m ∷ ms) hi top h le = (h.0, Rises-weaken (m + 5) ms hi top h.1 le)

percents-snoc_percent :
    (lines : List Line) (reached done total : ℕ) (final : Bool)
    → percents (lines ++ percent reached done total final ∷ []) ≡ percents lines ++ reached ∷ []
unfolding percents
percents-snoc_percent [] reached done total final = refl
percents-snoc_percent (starting t ∷ lines) reached done total final =
    percents-snoc_percent lines reached done total final
percents-snoc_percent (received d f ∷ lines) reached done total final =
    percents-snoc_percent lines reached done total final
percents-snoc_percent (percent r d t f ∷ lines) reached done total final =
    ap (◌∷◌ r) (percents-snoc_percent lines reached done total final)

percents-snoc_received :
    (lines : List Line) (done : ℕ) (final : Bool)
    → percents (lines ++ received done final ∷ []) ≡ percents lines
unfolding percents
percents-snoc_received [] done final = refl
percents-snoc_received (starting t ∷ lines) done final = percents-snoc_received lines done final
percents-snoc_received (received d f ∷ lines) done final = percents-snoc_received lines done final
percents-snoc_received (percent r d t f ∷ lines) done final =
    ap (◌∷◌ r) (percents-snoc_received lines done final)

-- The lines so far rise to the next milestone, and the last line is still to come or was the last.
abbrev IsRising : Progress → Type 0
IsRising p =
    Rises 0 (percents p.lines) p.next_pct
    × (p.next_pct ≤ 105)
    × (p.finished ≡ false → p.next_pct ≤ 100)

log_received-IsRising :
    (now : ℕ) (force final : Bool) (p : Progress)
    → IsRising p
    → IsRising (log_received now force final p)
unfolding log_received
log_received-IsRising now force final p h =
    ground (arith, percents-snoc_received p.lines p.done final)

milestone_le : (done total : ℕ) → milestone false done total ≤ 95
unfolding milestone
milestone_le done total = omega arith

milestone_final : (done total : ℕ) → milestone true done total ≡ 100
unfolding milestone
milestone_final done total = refl

-- A line that is due, and the last one only once.
percent-IsRising :
    (now done total reached : ℕ) (final : Bool) (p : Progress)
    → IsRising p
    → p.next_pct ≤ reached
    → reached ≤ 100
    → (final ≡ false → reached ≤ 95)
    → IsRising (record (write_line (percent reached done total final) p) {
      last_log = now;
      next_pct = reached + 5;
      finished = final || p.finished;
    })
percent-IsRising now done total reached final p h due top low = (
  rw (percents-snoc_percent p.lines reached done total final)
      (Rises-snoc 0 (percents p.lines) p.next_pct reached h.0 due),
  omega arith,
  λ e. ground arith,
)

log_percent-IsRising :
    (now : ℕ) (force final : Bool) (total : ℕ) (p : Progress)
    → IsRising p
    → (final ≡ true → p.finished ≡ false)
    → (force ≡ true → (final ≡ true) ⊎ (p.next_pct ≡ 0))
    → IsRising (log_percent now force final total p)
unfolding log_percent
log_percent-IsRising now force true total p h fresh forced =
    let low = h.2 (fresh refl) in
    let top = milestone_final p.done total in
    let made =
      percent-IsRising now p.done total (milestone true p.done total) true p h (omega arith)
        (omega arith) (λ e. cc) in
    elim force as (λ f. IsRising (log_percent now f true total p)) [ true ↦ made | false ↦ made ]
log_percent-IsRising now true false total p h fresh forced =
    let low = milestone_le p.done total in
    elim (forced refl) [
      | inl e ↦ cc
      | inr zero_pct ↦
          percent-IsRising now p.done total (milestone false p.done total) false p h (omega arith)
            (omega arith) (λ e. low)
    ]
log_percent-IsRising now false false total p h fresh forced =
    let reached = milestone false p.done total in
    let low = milestone_le p.done total in
    elim (Bool-cases (ltb reached p.next_pct)) [
      | inl early ↦ rw (early, log_percent) h
      | inr due ↦
          rw (due, log_percent)
            (percent-IsRising now p.done total reached false p h (ground arith) (omega arith)
              (λ e. low))
    ]

log_progress-IsRising :
    (now : ℕ) (force final : Bool) (p : Progress)
    → IsRising p
    → (final ≡ true → p.finished ≡ false)
    → (force ≡ true → (final ≡ true) ⊎ (p.next_pct ≡ 0))
    → IsRising (log_progress now force final p)
unfolding log_progress
log_progress-IsRising now force final p h fresh forced = elim (Option-cases p.total) [
  | inl e ↦ rw (e, log_progress) (log_received-IsRising now force final p h)
  | inr (total, e) ↦
      rw (e, log_progress) (log_percent-IsRising now force final total p h fresh forced)
]

-- What the client does with a progress, in any order.
pub data Report : Type 0 where
  updates : ℕ → Option ℕ → Report
  finishes : Report

module _ {S : Type 0} (monotonic : S → S × ℕ) (on_tick : Progress → S → S) where
  unfoldable pub report_all : List Report → S × Progress → S × Progress
  report_all [] (s, p) = (s, p)
  report_all (updates done total ∷ rest) (s, p) =
      report_all rest (update monotonic on_tick done total p s)
  report_all (finishes ∷ rest) (s, p) = report_all rest (finish monotonic on_tick p s)

  start-IsRising : (total : Option ℕ) (s : S) → IsRising (start monotonic on_tick total s).1
  unfolding start emit percents
  start-IsRising total s = elim (Option-cases (positive_or total none)) [
    | inl e ↦ rw (e, start) (omega arith, omega arith, λ e. omega arith)
    | inr (n, e) ↦
        rw (e, start)
          (log_progress-IsRising _ true false _ (omega arith, omega arith, λ e. omega arith)
            (λ e. cc) (λ e. inr refl))
  ]

  finish-IsRising : (p : Progress) (s : S) → IsRising p → IsRising (finish monotonic on_tick p s).1
  unfolding finish emit
  finish-IsRising p s h =
      if_rule (λ (run : S × Progress). IsRising run.1) p.finished _ _ (λ e. h)
        (λ e. log_progress-IsRising _ true true _ h (λ x. e) (λ x. inl refl))

  report_all-IsRising :
      (reports : List Report) (run : S × Progress)
      → IsRising run.1
      → IsRising (report_all reports run).1
  unfolding report_all update emit
  report_all-IsRising [] (s, p) h = h
  report_all-IsRising (updates done total ∷ rest) (s, p) h =
      report_all-IsRising rest _ (log_progress-IsRising _ false false _ h (λ e. cc) (λ e. cc))
  report_all-IsRising (finishes ∷ rest) (s, p) h =
      report_all-IsRising rest _ (finish-IsRising p s h)

  -- For a progress of any size, known or not, and whatever is reported to it afterwards in any order: the
  -- percentages in its log rise by at least five from line to line, none is above 100, and there are at
  -- most 21 of them.
  pub percents-start :
      (total : Option ℕ) (s : S) (reports : List Report)
      → let shown = percents ((report_all reports (start monotonic on_tick total s)).1.lines) in
        Rises 0 shown 105 × (length shown ≤ 21)
  percents-start total s reports =
      let h =
        report_all-IsRising reports (start monotonic on_tick total s) (start-IsRising total s) in
      let run = (report_all reports (start monotonic on_tick total s)).1 in
      let rises = Rises-weaken 0 (percents run.lines) run.next_pct 105 h.0 h.1 in
      (rises, omega (arith, length-Rises 0 (percents run.lines) 105 rises))
