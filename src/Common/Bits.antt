-- ===== src/Common/Bits.antt =====
-- Facts about the bitwise operations at variables. A number is read digit by digit:
-- `digit m p` is bit `p` of `m`, and each operation acts on the digits.
use Prim.Native.Nat.{ℕ, zero, suc, ◌+◌, ◌-◌, ◌*◌, ◌/◌, ◌%◌, ◌^◌, ◌≤◌, ◌<◌, min, max, digits}
use Prim.Native.Nat.{bit_and, bit_or, bit_and-bitwise, bit_or-bitwise}
use mathlib.Core.Path.{◌≡◌, refl, ap, ◌∙◌}
use mathlib.Core.Bool.{Bool, true, false, not, ◌&&◌, ◌||◌}
use mathlib.Core.Logic.{◌≢◌}
use native.Mathlib.Nat.{pow-suc, one-le-pow}
use native.Mathlib.Omega.{arith}
use rustprobe.Common.Tests.{◌==◌, ltb, if◌then◌else◌}

unfoldable pub digit : ℕ → ℕ → ℕ
digit m zero = m % 2
digit m (suc p) = digit (m / 2) p

-- `mask & (1 << p) != 0`
abbrev pub has_bit : ℕ → ℕ → Bool
has_bit mask p = not (bit_and mask (2 ^ p) == 0)

module _ (end : ℕ → ℕ) (op : ℕ → ℕ → ℕ) where
  -- Fuel beyond the first number changes nothing.
  spare_fuel : (k l a b : ℕ) → a ≤ k → a ≤ l → digits end op k a b ≡ digits end op l a b
  spare_fuel zero zero a b _ _ = refl
  spare_fuel (suc k) (suc l) zero b _ _ = refl
  spare_fuel zero (suc l) zero b _ _ = refl
  spare_fuel (suc k) zero zero b _ _ = refl
  spare_fuel zero (suc l) (suc a) b h _ = absurd (omega arith)
  spare_fuel (suc k) zero (suc a) b _ h = absurd (omega arith)
  spare_fuel (suc k) (suc l) (suc a) b h h' =
      omega (arith, spare_fuel k l (suc a / 2) (b / 2) (omega arith) (omega arith))

bit_and-zero_left : (b : ℕ) → bit_and 0 b ≡ 0
bit_and-zero_left b = bit_and-bitwise 0 b

bit_or-zero_left : (b : ℕ) → bit_or 0 b ≡ b
bit_or-zero_left b = bit_or-bitwise 0 b

pub bit_and_halves : (a b : ℕ) → bit_and a b ≡ bit_and (a / 2) (b / 2) * 2 + min (a % 2) (b % 2)
bit_and_halves zero b = omega (arith, bit_and-zero_left b, bit_and-zero_left (b / 2))
bit_and_halves (suc a) b = omega (
  arith,
  bit_and-bitwise (suc a) b,
  bit_and-bitwise (suc a / 2) (b / 2),
  spare_fuel (λ y. 0) min a (suc a / 2) (suc a / 2) (b / 2) (omega arith) (omega arith),
)

pub bit_or_halves : (a b : ℕ) → bit_or a b ≡ bit_or (a / 2) (b / 2) * 2 + max (a % 2) (b % 2)
bit_or_halves zero b = omega (arith, bit_or-zero_left b, bit_or-zero_left (b / 2))
bit_or_halves (suc a) b = omega (
  arith,
  bit_or-bitwise (suc a) b,
  bit_or-bitwise (suc a / 2) (b / 2),
  spare_fuel (λ y. y) max a (suc a / 2) (suc a / 2) (b / 2) (omega arith) (omega arith),
)

pub digit-le-one : (m p : ℕ) → digit m p ≤ 1
unfolding digit
digit-le-one m zero = omega arith
digit-le-one m (suc p) = digit-le-one (m / 2) p

pub digit-zero : (p : ℕ) → digit 0 p ≡ 0
unfolding digit
digit-zero zero = refl
digit-zero (suc p) = digit-zero p

half : (a b c : ℕ) → a ≡ b * 2 + c → c ≤ 1 → a / 2 ≡ b
half a b c e h = omega arith

parity : (a b c : ℕ) → a ≡ b * 2 + c → c ≤ 1 → a % 2 ≡ c
parity a b c e h = omega arith

pub digit-bit_and : (a b p : ℕ) → digit (bit_and a b) p ≡ min (digit a p) (digit b p)
unfolding digit
digit-bit_and a b zero = parity _ _ _ (bit_and_halves a b) (omega arith)
digit-bit_and a b (suc p) =
    rw (half _ _ _ (bit_and_halves a b) (omega arith)) (digit-bit_and (a / 2) (b / 2) p)

pub digit-bit_or : (a b p : ℕ) → digit (bit_or a b) p ≡ max (digit a p) (digit b p)
unfolding digit
digit-bit_or a b zero = parity _ _ _ (bit_or_halves a b) (omega arith)
digit-bit_or a b (suc p) =
    rw (half _ _ _ (bit_or_halves a b) (omega arith)) (digit-bit_or (a / 2) (b / 2) p)

double : (p : ℕ) → 2 ^ suc p ≡ 2 ^ p * 2
double p = pow-suc 2 p

pub digit-pow : (p q : ℕ) → digit (2 ^ p) q ≡ (if p == q then 1 else 0)
unfolding digit
digit-pow zero zero = refl
digit-pow zero (suc q) = ground (arith, digit-zero q)
digit-pow (suc p) zero = grind (arith, double p)
digit-pow (suc p) (suc q) =
    rw (half (2 ^ suc p) (2 ^ p) 0 (omega (arith, double p)) (omega arith))
      (digit-pow p q ∙ ground arith)

bit_and-zero_right : (a : ℕ) → (k : ℕ) → a ≤ k → bit_and a 0 ≡ 0
bit_and-zero_right zero k h = refl
bit_and-zero_right (suc a) zero h = absurd (omega arith)
bit_and-zero_right (suc a) (suc k) h =
    omega (arith, bit_and_halves (suc a) 0, bit_and-zero_right (suc a / 2) k (omega arith))

-- A test against one bit reads that digit.
pub bit_and-pow : (m p : ℕ) → bit_and m (2 ^ p) ≡ digit m p * 2 ^ p
unfolding digit
bit_and-pow m zero =
    omega (arith, bit_and_halves m 1, bit_and-zero_right (m / 2) (m / 2) (omega arith))
bit_and-pow m (suc p) = omega (
  arith,
  bit_and_halves m (2 ^ suc p),
  double p,
  ap (λ (t : ℕ). bit_and (m / 2) t)
      (half (2 ^ suc p) (2 ^ p) 0 (omega (arith, double p)) (omega arith)),
  bit_and-pow (m / 2) p,
  ap (λ (t : ℕ). digit (m / 2) p * t) (double p),
)

abbrev one_digit : ℕ → Bool
one_digit d = d == 1

has_bit-digit : (m p : ℕ) → has_bit m p ≡ one_digit (digit m p)
has_bit-digit m p = ground (arith, bit_and-pow m p, digit-le-one m p, one-le-pow p 2)

pub has_bit→digit : (m p : ℕ) → has_bit m p ≡ true → digit m p ≡ 1
has_bit→digit m p h = ground (arith, has_bit-digit m p)

pub digit→has_bit : (m p : ℕ) → digit m p ≡ 1 → has_bit m p ≡ true
digit→has_bit m p h = ground (arith, has_bit-digit m p)

pub has_bit-zero : (p : ℕ) → has_bit 0 p ≡ false
has_bit-zero p = has_bit-digit 0 p ∙ ground (arith, digit-zero p)

pub has_bit-bit_and : (a b p : ℕ) → has_bit (bit_and a b) p ≡ (has_bit a p && has_bit b p)
has_bit-bit_and a b p =
    rw (has_bit-digit a p, has_bit-digit b p, has_bit-digit (bit_and a b) p)
      (ground (arith, digit-bit_and a b p, digit-le-one a p, digit-le-one b p))

pub has_bit-bit_or : (a b p : ℕ) → has_bit (bit_or a b) p ≡ (has_bit a p || has_bit b p)
has_bit-bit_or a b p =
    rw (has_bit-digit a p, has_bit-digit b p, has_bit-digit (bit_or a b) p)
      (ground (arith, digit-bit_or a b p, digit-le-one a p, digit-le-one b p))

pub has_bit-pow : (p q : ℕ) → has_bit (2 ^ p) q ≡ p == q
has_bit-pow p q = has_bit-digit (2 ^ p) q ∙ ground (arith, digit-pow p q)

-- `used | (1 << p)` has the old bits and bit `p`.
pub has_bit-bit_or_pow : (m p q : ℕ) → has_bit (bit_or m (2 ^ p)) q ≡ (has_bit m q || p == q)
has_bit-bit_or_pow m p q = has_bit-bit_or m (2 ^ p) q ∙ rw (has_bit-pow p q)

digit-complement : (w m p : ℕ) → m < 2 ^ w → p < w → digit (2 ^ w - 1 - m) p ≡ 1 - digit m p
unfolding digit
digit-complement zero m p h k = absurd (omega arith)
digit-complement (suc w) m zero h k = omega (arith, double w)
digit-complement (suc w) m (suc p) h k =
    let e : (2 ^ suc w - 1 - m) / 2 ≡ 2 ^ w - 1 - m / 2 = omega (arith, double w) in
    rw e (digit-complement w (m / 2) p (omega (arith, double w)) (omega arith))

-- `!m` on a word of `w` bits.
pub has_bit-complement :
    (w m p : ℕ) → m < 2 ^ w → p < w → has_bit (2 ^ w - 1 - m) p ≡ not (has_bit m p)
has_bit-complement w m p h k =
    rw (has_bit-digit m p, has_bit-digit (2 ^ w - 1 - m) p)
      (ground (arith, digit-complement w m p h k, digit-le-one m p))

digit_beyond : (w m p : ℕ) → m < 2 ^ w → w ≤ p → digit m p ≡ 0
unfolding digit
digit_beyond zero m p h k = let e : m ≡ 0 = omega arith in rw e (digit-zero p)
digit_beyond (suc w) m zero h k = absurd (omega arith)
digit_beyond (suc w) m (suc p) h k =
    digit_beyond w (m / 2) p (omega (arith, double w)) (omega arith)

pub has_bit_beyond : (w m p : ℕ) → m < 2 ^ w → w ≤ p → has_bit m p ≡ false
has_bit_beyond w m p h k = has_bit-digit m p ∙ ground (arith, digit_beyond w m p h k)

SomeDigitBelow : (w m : ℕ) → Type 0
SomeDigitBelow w m = (p : ℕ) × (p < w) × (digit m p ≡ 1)

from_half :
    (w m r : ℕ)
    → m % 2 ≡ r
    → m ≢ 0
    → (m / 2 ≢ 0 → SomeDigitBelow w (m / 2))
    → SomeDigitBelow (suc w) m
unfolding digit SomeDigitBelow
from_half w m zero e n below = let (p, lt, d) = below (omega arith) in (suc p, omega arith, d)
from_half w m (suc r) e n below = (0, omega arith, omega arith)

some_digit : (w m : ℕ) → m < 2 ^ w → m ≢ 0 → SomeDigitBelow w m
unfolding SomeDigitBelow
some_digit zero m h n = absurd (n (omega arith))
some_digit (suc w) m h n =
    unfold SomeDigitBelow in
    from_half w m (m % 2) refl n (some_digit w (m / 2) (omega (arith, double w)))

-- A word that is not zero has a bit.
pub some_bit : (w m : ℕ) → m < 2 ^ w → m ≢ 0 → (p : ℕ) × (p < w) × (has_bit m p ≡ true)
unfolding SomeDigitBelow
some_bit w m h n = let (p, lt, d) = some_digit w m h n in (p, lt, digit→has_bit m p d)

-- Words with the same bits are equal.
pub same_digits :
    (w a b : ℕ) → a < 2 ^ w → b < 2 ^ w → ((p : ℕ) → p < w → digit a p ≡ digit b p) → a ≡ b
unfolding digit
same_digits zero a b ha hb same = omega arith
same_digits (suc w) a b ha hb same = omega (
  arith,
  same 0 (omega arith),
  same_digits w (a / 2) (b / 2) (omega (arith, double w)) (omega (arith, double w))
      (λ p h. same (suc p) (omega arith)),
)

pub same_bits :
    (w a b : ℕ) → a < 2 ^ w → b < 2 ^ w → ((p : ℕ) → p < w → has_bit a p ≡ has_bit b p) → a ≡ b
same_bits w a b ha hb same = same_digits w a b ha hb (λ p h.
    ground
      (arith, same p h, has_bit-digit a p, has_bit-digit b p, digit-le-one a p, digit-le-one b p))

pub bit_or-lt : (w a b : ℕ) → a < 2 ^ w → b < 2 ^ w → bit_or a b < 2 ^ w
bit_or-lt zero a b ha hb =
    let e : a ≡ 0 = omega arith in let e' : b ≡ 0 = omega arith in rw (e, e') (omega arith)
bit_or-lt (suc w) a b ha hb = omega (
  arith,
  double w,
  bit_or_halves a b,
  bit_or-lt w (a / 2) (b / 2) (omega (arith, double w)) (omega (arith, double w)),
)

pub bit_and-le : (k a b : ℕ) → a ≤ k → bit_and a b ≤ a
bit_and-le zero a b h = let e : a ≡ 0 = omega arith in rw e (omega (arith, bit_and-zero_left b))
bit_and-le (suc k) zero b h = omega (arith, bit_and-zero_left b)
bit_and-le (suc k) (suc a) b h =
    omega (arith, bit_and_halves (suc a) b, bit_and-le k (suc a / 2) (b / 2) (omega arith))

digit-ones : (g p : ℕ) → digit (2 ^ g - 1) p ≡ (if ltb p g then 1 else 0)
unfolding digit
digit-ones zero p = digit-zero p ∙ ground arith
digit-ones (suc g) zero = grind (arith, double g, one-le-pow g 2)
digit-ones (suc g) (suc p) =
    let e : (2 ^ suc g - 1) / 2 ≡ 2 ^ g - 1 = omega (arith, double g, one-le-pow g 2) in
    rw e (digit-ones g p ∙ ground arith)

-- `(1 << g) - 1` has the bits below `g`.
pub has_bit-ones : (g p : ℕ) → has_bit (2 ^ g - 1) p ≡ ltb p g
has_bit-ones g p = has_bit-digit (2 ^ g - 1) p ∙ ground (arith, digit-ones g p)

pub pow_mono : (g k : ℕ) → g ≤ k → 2 ^ g ≤ 2 ^ k
pow_mono zero k h = omega (arith, one-le-pow k 2)
pow_mono (suc g) zero h = absurd (omega arith)
pow_mono (suc g) (suc k) h = omega (arith, double g, double k, pow_mono g k (omega arith))
