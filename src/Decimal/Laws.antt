-- ===== src/Decimal/Laws.antt =====
-- Consequences of the laws of decimals.
use agora_opencode.Prelude.{◌≡◌, inl, inr, true, false, arith, Bool-cases}
use agora_opencode.Decimal.Defs.{Decimal, zero_dec, one_dec, max, min}

module _ {D : Type 0} ⦃d : Decimal D⦄ where
  pub below_irrefl : (a : D) → d.below a a ≡ false
  below_irrefl a = elim (Bool-cases (d.below a a)) [ inl e ↦ d.below_asym a a e | inr e ↦ e ]

  pub below_trans : (a b c : D) → d.below a b ≡ true → d.below c b ≡ false → d.below a c ≡ true
  below_trans a b c h k = elim (Bool-cases (d.below a c)) [
    | inl e ↦ e
    | inr e ↦ ground (arith, d.below_between a c b e k)
  ]

  -- A value clamped to the unit interval lies in it.
  pub clamp_unit :
      (x : D)
      → (d.below (max zero_dec (min one_dec x)) zero_dec ≡ false)
        × (d.below one_dec (max zero_dec (min one_dec x)) ≡ false)
  clamp_unit x = ground (
    arith,
    d.zero-below-one,
    below_irrefl zero_dec,
    below_irrefl one_dec,
    d.below_asym zero_dec one_dec d.zero-below-one,
    d.below_asym x one_dec,
    d.below_asym zero_dec x,
  )
