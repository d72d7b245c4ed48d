-- ===== src/Pull/Decimal.antt =====
-- The decimals of numbers, and the candidates of `_unique_path` of scripts/pull.py, differ.
use mathlib.Core.List.{append_cancel_left, append_cancel_right}
use aestor.Base.{
  ℕ, zero, suc, ◌+◌, ◌-◌, ◌*◌, ◌/◌, ◌%◌, ◌<◌, ◌≡◌, ap, sym, ◌∙◌, [], ◌∷◌, ◌++◌, drop, arith,
}
use aestor.Base.Text.{Text}
use aestor.Pull.Names.{digits_before, decimal, candidate, stem_suffix}

value : ℕ → Text → ℕ
value acc [] = acc
value acc (c ∷ t) = value (acc * 10 + (c - 48)) t

digits_before-value :
    (fuel n : ℕ) (later : Text) → n < fuel → value 0 (digits_before fuel n later) ≡ value n later
unfolding value digits_before
digits_before-value zero n later h = absurd (omega arith)
digits_before-value (suc fuel) n later h =
    let step : 9 < n
        → value 0 (digits_before fuel (n / 10) ((48 + n % 10) ∷ later)) ≡ value n later =
      λ big.
        digits_before-value fuel (n / 10) ((48 + n % 10) ∷ later) (omega arith)
        ∙ ap (λ k. value k later) (omega arith) in
    ground (arith, step)

decimal-value : (n : ℕ) → value 0 (decimal n) ≡ n
unfolding value
decimal-value n = digits_before-value (suc n) n [] (omega arith)

pub candidate-injective :
    (filename : Text) (n k : ℕ) → candidate filename n ≡ candidate filename k → n ≡ k
unfolding candidate drop value
candidate-injective filename n k h =
    let parts = stem_suffix filename in
    let tails =
      append_cancel_left parts.0 (45 ∷ (decimal n ++ parts.1)) (45 ∷ (decimal k ++ parts.1)) h in
    let digits = append_cancel_right (45 ∷ decimal n) (45 ∷ decimal k) parts.1 tails in
    sym (decimal-value n) ∙ ap (λ t. value 0 (drop 1 t)) digits ∙ decimal-value k
