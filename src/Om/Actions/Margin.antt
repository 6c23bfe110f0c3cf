-- ===== src/Om/Actions/Margin.antt =====
-- `updateIsolatedMargin`: amounts finer than a millionth are refused.
use hyperliquid_cpp.Base.{ℕ, ◌+◌, ◌*◌, ◌≡◌, refl, ◌∙◌, ◌≢◌, inl, inr, true, arith, Bool-cases}
use hyperliquid_cpp.Base.Int.{ℤ, pos, negsuc, ◌*ℤ◌, eq_ℤ, tdiv, tmod, *ℤ-pos_parts, eq_of_parts}
use hyperliquid_cpp.Core.Decimal.{Decimal}
use hyperliquid_cpp.Core.Errors.{rejected, Error, Result, success, failure}
use hyperliquid_cpp.Om.Actions.Wire.{EncodedAction}
use hyperliquid_cpp.Om.Actions.Others.{isolated_margin, update_isolated_margin}

-- An amount that the venue's unit of one millionth divides, and one that it does not.
pub data MarginOutcome (asset : ℕ) (raw : ℤ) : Result EncodedAction → Type 0 where
  whole :
      (micro : ℤ)
      → raw ≡ micro *ℤ pos 100
      → MarginOutcome asset raw (success (isolated_margin asset micro))
  finer :
      (e : Error)
      → ((micro : ℤ) → raw ≢ micro *ℤ pos 100)
      → e.kind ≡ rejected
      → MarginOutcome asset raw (failure e)

quotient_exact :
    (raw : ℤ) → eq_ℤ (tmod raw (pos 100)) (pos 0) ≡ true → raw ≡ tdiv raw (pos 100) *ℤ pos 100
unfolding tdiv tmod
quotient_exact (pos n) h =
    eq_of_parts _ _ (ground (arith, *ℤ-pos_parts (tdiv (pos n) (pos 100)) 100))
quotient_exact (negsuc n) h =
    eq_of_parts _ _ (ground (arith, *ℤ-pos_parts (tdiv (negsuc n) (pos 100)) 100))

multiple_exact : (raw micro : ℤ) → raw ≡ micro *ℤ pos 100 → eq_ℤ (tmod raw (pos 100)) (pos 0) ≡ true
unfolding tmod ◌*ℤ◌
multiple_exact raw (pos n) h = let e : raw ≡ pos (n * 100) = h ∙ ground arith in rw e (ground arith)
multiple_exact raw (negsuc n) h =
    let e : raw ≡ negsuc (n * 100 + 99) = h ∙ ground arith in rw e (ground arith)

-- An amount that is a number of millionths is sent as that number, and any other amount is refused
-- before anything is sent.
pub update_isolated_margin-MarginOutcome :
    (asset : ℕ) (usdc : Decimal) → MarginOutcome asset usdc.raw (update_isolated_margin asset usdc)
unfolding update_isolated_margin
update_isolated_margin-MarginOutcome asset usdc =
    elim (Bool-cases (eq_ℤ (tmod usdc.raw (pos 100)) (pos 0))) [
      | inl t ↦ rw t (whole (tdiv usdc.raw (pos 100)) (quotient_exact usdc.raw t))
      | inr t ↦ rw t (finer _ (λ micro e. cc (t, multiple_exact usdc.raw micro e)) refl)
    ]
