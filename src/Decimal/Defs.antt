-- ===== src/Decimal/Defs.antt =====
-- The operations on decimals that the program uses, and the laws it relies on.
use agora_opencode.Prelude.{
  ℕ, suc, ◌≤◌, ◌≡◌, Bool, true, false, Option, String, List, [], ◌∷◌, if◌then◌else◌,
}

pub record Decimal (D : Type 0) : Type 0 where
  -- `Decimal("0.75")` is `lit 75 2`, `Decimal(n)` is `lit n 0`.
  pub lit : ℕ → ℕ → D
  -- `Decimal(text)`, `none` where it raises
  pub parse : String → Option D
  pub plus : D → D → D
  pub minus : D → D → D
  pub times : D → D → D
  pub over : D → D → D
  -- `a < b`
  pub below : D → D → Bool
  -- `int(d)` and `int(text)`, a negative result as 0
  pub truncate : D → ℕ
  pub parse_int : String → Option ℕ
  pub below_asym : (a b : D) → below a b ≡ true → below b a ≡ false
  pub below_between : (a b c : D) → below a b ≡ false → below b c ≡ false → below a c ≡ false
  pub zero-below-one : below (lit 0 0) (lit 1 0) ≡ true
  pub lit_mono : (m n k : ℕ) → m ≤ n → below (lit n k) (lit m k) ≡ false
  pub zero_exponent : (k : ℕ) → below (lit 0 k) (lit 0 0) ≡ false
  pub zero_plus : (a : D) → below (plus (lit 0 0) a) a ≡ false
  pub plus_mono : (a b e : D) → below b a ≡ false → below (plus b e) (plus a e) ≡ false
  pub plus_grows : (a e : D) → below e (lit 0 0) ≡ false → below (plus a e) a ≡ false
  pub times_nonneg :
      (a b : D)
      → below a (lit 0 0) ≡ false
      → below b (lit 0 0) ≡ false
      → below (times a b) (lit 0 0) ≡ false
  pub ratio_nonneg : (m n : ℕ) → below (over (lit m 0) (lit (suc n) 0)) (lit 0 0) ≡ false
  pub ratio-le-one :
      (m n : ℕ) → m ≤ suc n → below (lit 1 0) (over (lit m 0) (lit (suc n) 0)) ≡ false

module _ {D : Type 0} ⦃d : Decimal D⦄ where
  abbrev pub zero_dec : D
  zero_dec = d.lit 0 0

  abbrev pub one_dec : D
  one_dec = d.lit 1 0

  -- `max(a, b)` and `min(a, b)` keep the first of two equal values.
  abbrev pub max : D → D → D
  max a b = if d.below a b then b else a

  abbrev pub min : D → D → D
  min a b = if d.below b a then b else a

  -- `sum(values, start=Decimal("0"))`
  abbrev pub sum_from : D → List D → D
  sum_from acc [] = acc
  sum_from acc (x ∷ xs) = sum_from (d.plus acc x) xs
