-- ===== src/Toml/Ranges/Masks.antt =====
-- probe-config-toml/src/board_toml.rs: the bits that a range sets, and the ends of runs of bits.
use mathlib.Core.Path.{subst}
use native.Mathlib.Nat.{pow-suc, one-le-pow}
use rustprobe.Common.{
  ℕ, zero, suc, ◌+◌, ◌^◌, ◌≤◌, ◌<◌, ◌≡◌, sym, inl, inr, true, ◌&&◌, ◌||◌, arith, ltb, leb, ◌==◌,
  ==_iff, bit_or, Bool-cases,
}
use rustprobe.Common.Bits.{has_bit, has_bit-bit_or_pow, bit_or-lt, pow_mono}
use rustprobe.Toml.Ranges.{set_bits, run_end}

pub has_bit-set_bits :
    (count pin mask q : ℕ)
    → has_bit (set_bits count pin mask) q ≡ (has_bit mask q || (leb pin q && ltb q (pin + count)))
unfolding set_bits
has_bit-set_bits zero pin mask q = ground arith
has_bit-set_bits (suc count) pin mask q = ground (
  arith,
  has_bit-set_bits count (pin + 1) (bit_or mask (2 ^ pin)) q,
  has_bit-bit_or_pow mask pin q,
)

pow_lt : (p w : ℕ) → p < w → 2 ^ p < 2 ^ w
pow_lt p w h = omega (arith, pow_mono (suc p) w h, pow-suc 2 p, one-le-pow p 2)

pub set_bits-lt :
    (count pin mask : ℕ) → mask < 2 ^ 64 → pin + count ≤ 64 → set_bits count pin mask < 2 ^ 64
unfolding set_bits
set_bits-lt zero pin mask m h = m
set_bits-lt (suc count) pin mask m h =
    set_bits-lt count (pin + 1) (bit_or mask (2 ^ pin))
      (bit_or-lt 64 mask (2 ^ pin) m (pow_lt pin 64 (omega arith))) (omega arith)

-- The run goes on to the last of the bits in a row.
pub record IsRun (mask pin last : ℕ) : Type 0 where
  pub starts : pin ≤ last
  pub within : last < 64
  pub full : (q : ℕ) → pin ≤ q → q ≤ last → has_bit mask q ≡ true

IsRun-single : (mask pin : ℕ) → pin < 64 → has_bit mask pin ≡ true → IsRun mask pin pin
IsRun-single mask pin h b = record {
  starts = omega arith;
  within = h;
  full = λ q lo hi. subst (λ k. has_bit mask k ≡ true) (omega arith) b;
}

IsRun-longer :
    (mask pin last : ℕ) → has_bit mask pin ≡ true → IsRun mask (pin + 1) last → IsRun mask pin last
IsRun-longer mask pin last b r = record {
  starts = omega (arith, r.starts);
  within = r.within;
  full = λ q lo hi. elim (Bool-cases (q == pin)) [
    | inl here ↦ subst (λ k. has_bit mask k ≡ true) (sym ((==_iff q pin).0 here)) b
    | inr later ↦ r.full q (ground arith) hi
  ];
}

pub run_end-IsRun :
    (left mask pin : ℕ)
    → pin + left ≡ 63
    → has_bit mask pin ≡ true
    → IsRun mask pin (run_end left mask pin)
unfolding run_end
run_end-IsRun zero mask pin h b = IsRun-single mask pin (omega arith) b
run_end-IsRun (suc left) mask pin h b = elim (Bool-cases (has_bit mask (pin + 1))) [
  | inl more ↦
      rw more (IsRun-longer mask pin _ b (run_end-IsRun left mask (pin + 1) (omega arith) more))
  | inr no_more ↦ rw no_more (IsRun-single mask pin (omega arith) b)
]
