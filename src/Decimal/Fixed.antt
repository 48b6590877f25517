-- ===== src/Decimal/Fixed.antt =====
-- Decimals of two places, rounded down: a computable instance of the interface. A number is a
-- difference of two counts of hundredths.
use agora_opencode.Prelude.{
  sym, subst, ap, arith, str_eq, leb, if◌then◌else◌, Bool, ℕ, ◌+◌, ◌-◌, ◌*◌, ◌/◌, ◌≤◌, ◌≡◌, refl,
  suc, zero, true, false, none, some, Option, ltb, String,
}
use native.Mathlib.Nat.{div-le_of_le-mul, zero-div}
use agora_opencode.Decimal.Defs.{Decimal}

pub record Fixed : Type 0 where
  pub up : ℕ
  pub down : ℕ

abbrev pub hundredths : ℕ → ℕ → ℕ
hundredths m zero = m * 100
hundredths m (suc zero) = m * 10
hundredths m (suc (suc zero)) = m
hundredths m (suc (suc (suc k))) = 0

abbrev pub below : Fixed → Fixed → Bool
below a b = ltb (a.up + b.down) (b.up + a.down)

abbrev pub plus : Fixed → Fixed → Fixed
plus a b = record { up = a.up + b.up; down = a.down + b.down }

abbrev pub minus : Fixed → Fixed → Fixed
minus a b = record { up = a.up + b.down; down = a.down + b.up }

-- The positive and the negative part.
abbrev pub gain : Fixed → ℕ
gain a = a.up - a.down

abbrev pub loss : Fixed → ℕ
loss a = a.down - a.up

abbrev pub times : Fixed → Fixed → Fixed
times a b = record {
  up = (gain a * gain b + loss a * loss b) / 100;
  down = (gain a * loss b + loss a * gain b) / 100;
}

abbrev pub over : Fixed → Fixed → Fixed
over a b = record {
  up = if leb b.down b.up then gain a * 100 / gain b else loss a * 100 / loss b;
  down = if leb b.down b.up then loss a * 100 / gain b else gain a * 100 / loss b;
}

-- Of the texts that a decimal is read from, those that the examples use.
abbrev pub parse : String → Option Fixed
parse s =
    if str_eq s "0"
    then some (record { up = 0; down = 0 })
    else (if str_eq s "1"
        then some (record { up = 100; down = 0 })
        else (if str_eq s "0.5" then some (record { up = 50; down = 0 }) else none))

abbrev pub lit : ℕ → ℕ → Fixed
lit m k = record { up = hundredths m k; down = 0 }

pub hundredths_mono : (m n k : ℕ) → m ≤ n → hundredths m k ≤ hundredths n k
hundredths_mono m n zero h = omega arith
hundredths_mono m n (suc zero) h = omega arith
hundredths_mono m n (suc (suc zero)) h = omega arith
hundredths_mono m n (suc (suc (suc k))) h = omega arith

over_lit :
    (m n : ℕ)
    → over (lit m 0) (lit (suc n) 0) ≡ record { up = m * 100 * 100 / (suc n * 100); down = 0 }
over_lit m n =
    let positive : leb 0 (suc n * 100) ≡ true = ground arith in
    let gain_m : m * 100 - 0 ≡ m * 100 = omega arith in
    let gain_n : suc n * 100 - 0 ≡ suc n * 100 = omega arith in
    let loss_m : 0 - m * 100 ≡ 0 = omega arith in
    rw (positive, gain_m, gain_n, loss_m, zero-div (suc n * 100)) refl

-- The laws of the interface.
pub asym : (a b : Fixed) → below a b ≡ true → below b a ≡ false
asym a b h = ground (arith, h)

pub between : (a b c : Fixed) → below a b ≡ false → below b c ≡ false → below a c ≡ false
between a b c h k = ground (arith, h, k)

pub mono : (m n k : ℕ) → m ≤ n → below (lit n k) (lit m k) ≡ false
mono m n k h = ground (arith, hundredths_mono m n k h)

pub zero_places : (k : ℕ) → below (lit 0 k) (lit 0 0) ≡ false
zero_places zero = refl
zero_places (suc zero) = refl
zero_places (suc (suc zero)) = refl
zero_places (suc (suc (suc k))) = refl

pub starts : (a : Fixed) → below (plus (lit 0 0) a) a ≡ false
starts a = ground arith

pub plus_mono : (a b e : Fixed) → below b a ≡ false → below (plus b e) (plus a e) ≡ false
plus_mono a b e h = ground (arith, h)

pub grows : (a e : Fixed) → below e (lit 0 0) ≡ false → below (plus a e) a ≡ false
grows a e h = ground (arith, h)

no_loss : (a : Fixed) → below a (lit 0 0) ≡ false → loss a ≡ 0
no_loss a h = ground (arith, h)

pub nonneg :
    (a b : Fixed)
    → below a (lit 0 0) ≡ false
    → below b (lit 0 0) ≡ false
    → below (times a b) (lit 0 0) ≡ false
nonneg a b h k =
    let none_down : gain a * loss b + loss a * gain b ≡ 0 =
      rw (no_loss a h, no_loss b k) (omega arith) in
    ground (arith, ap (λ z. z / 100) none_down)

pub quotient_nonneg : (m n : ℕ) → below (over (lit m 0) (lit (suc n) 0)) (lit 0 0) ≡ false
quotient_nonneg m n = subst (λ z. below z (lit 0 0) ≡ false) (sym (over_lit m n)) (ground arith)

pub quotient-le-one :
    (m n : ℕ) → m ≤ suc n → below (lit 1 0) (over (lit m 0) (lit (suc n) 0)) ≡ false
quotient-le-one m n h =
    let bound : m * 100 * 100 / (suc n * 100) ≤ 100 =
      div-le_of_le-mul (suc n * 100) (omega (arith, h)) in
    subst (λ z. below (lit 1 0) z ≡ false) (sym (over_lit m n)) (ground (arith, bound))

instance abbrev pub fixed_decimal : Decimal Fixed
fixed_decimal = record {
  lit = lit;
  parse = parse;
  plus = plus;
  minus = minus;
  times = times;
  over = over;
  below = below;
  truncate = λ a. gain a / 100;
  parse_int = λ s. if str_eq s "2" then some 2 else none;
  below_asym = asym;
  below_between = between;
  zero-below-one = refl;
  lit_mono = mono;
  zero_exponent = zero_places;
  zero_plus = starts;
  plus_mono = plus_mono;
  plus_grows = grows;
  times_nonneg = nonneg;
  ratio_nonneg = quotient_nonneg;
  ratio-le-one = quotient-le-one;
}
