-- ===== src/Toml/Ranges/RoundTrip.antt =====
-- probe-config-toml/src/board_toml.rs: masks are read back from their ranges.
use rustprobe.Common.{
  ℕ, zero, suc, ◌+◌, ◌-◌, ◌^◌, ◌≤◌, ◌<◌, ◌≡◌, refl, ap, ◌∙◌, inl, inr, true, false, ◌&&◌, ◌||◌,
  List, [], ◌∷◌, arith, All, ltb, leb, ok, Bool-cases, ltb→lt, ltb-false,
}
use rustprobe.Common.Bits.{has_bit, has_bit-zero, same_bits}
use rustprobe.Toml.Text.{Text, trim, trim_start, trim_end, is_empty, split, join}
use rustprobe.Toml.Ranges.{
  set_bits, add_part, add_parts, parse_pin_ranges, run_end, range_text, ranges, format_pin_ranges,
}
use rustprobe.Toml.Ranges.Texts.{
  IsPlain, trim-IsPlain, split-join, parse_range-range_text, range_text-IsPlain,
  range_text-is_empty,
}
use rustprobe.Toml.Ranges.Masks.{has_bit-set_bits, set_bits-lt, IsRun, run_end-IsRun}

-- `m` has the bits of `acc`, and those of `mask` from `pin` on.
record IsFilled (mask pin acc m : ℕ) : Type 0 where
  word : m < 2 ^ 64
  bits : (q : ℕ) → q < 64 → has_bit m q ≡ (has_bit acc q || (leb pin q && has_bit mask q))

not_ltb : (a b : ℕ) → b ≤ a → ltb a b ≡ false
not_ltb a b h = ground arith

add_parts-range_text :
    (acc lo hi : ℕ) (parts : List Text)
    → lo ≤ hi
    → hi < 64
    → add_parts acc (range_text lo hi ∷ parts) ≡ add_parts (set_bits (hi + 1 - lo) lo acc) parts
unfolding add_parts add_part
add_parts-range_text acc lo hi parts h bound =
    let plain = range_text-IsPlain lo hi (omega arith) bound in
    rw
      (
        trim-IsPlain (range_text lo hi) plain,
        range_text-is_empty lo hi,
        parse_range-range_text lo hi h bound,
      )
      (rw (not_ltb hi lo h))

add_parts_nil : (acc : ℕ) → add_parts acc [] ≡ ok acc
unfolding add_parts
add_parts_nil acc = refl

module _ (mask : ℕ) where
  IsFilled-at_end : (pin acc : ℕ) → 64 ≤ pin → acc < 2 ^ 64 → IsFilled mask pin acc acc
  IsFilled-at_end pin acc h w = record { word = w; bits = λ q lt. ground arith }

  IsFilled-skipped :
      (pin acc m : ℕ)
      → has_bit mask pin ≡ false
      → IsFilled mask (pin + 1) acc m
      → IsFilled mask pin acc m
  IsFilled-skipped pin acc m clear f = record {
    word = f.word;
    bits = λ q lt. ground (arith, f.bits q lt);
  }

  IsFilled-whole_run :
      (pin last acc m : ℕ)
      → IsRun mask pin last
      → IsFilled mask (last + 1) (set_bits (last + 1 - pin) pin acc) m
      → IsFilled mask pin acc m
  IsFilled-whole_run pin last acc m r f = record {
    word = f.word;
    bits =
        λ q lt. ground (arith, f.bits q lt, r.full q, has_bit-set_bits (last + 1 - pin) pin acc q);
  }

  ranges_zero : (pin : ℕ) → ranges 0 mask pin ≡ []
  unfolding ranges
  ranges_zero pin = refl

  module _ (fuel pin : ℕ) where
    ranges_past : ltb pin 64 ≡ false → ranges (suc fuel) mask pin ≡ []
    unfolding ranges
    ranges_past h = ground arith

    ranges_clear :
        ltb pin 64 ≡ true
        → has_bit mask pin ≡ false
        → ranges (suc fuel) mask pin ≡ ranges fuel mask (pin + 1)
    unfolding ranges
    ranges_clear h h' = ground arith

    ranges_set :
        ltb pin 64 ≡ true
        → has_bit mask pin ≡ true
        → ranges (suc fuel) mask pin
          ≡ range_text pin (run_end (63 - pin) mask pin)
            ∷ ranges fuel mask (run_end (63 - pin) mask pin + 1)
    unfolding ranges
    ranges_set h h' = ground arith

  add_parts-ranges :
      (fuel pin acc : ℕ)
      → 64 ≤ pin + fuel
      → acc < 2 ^ 64
      → (m : ℕ) × (add_parts acc (ranges fuel mask pin) ≡ ok m) × IsFilled mask pin acc m
  add_parts-ranges zero pin acc h w =
      (acc, rw (ranges_zero pin) (add_parts_nil acc), IsFilled-at_end pin acc (omega arith) w)
  add_parts-ranges (suc fuel) pin acc h w = elim (Bool-cases (ltb pin 64)) [
    | inr past ↦ (
      acc,
      rw (ranges_past fuel pin past) (add_parts_nil acc),
      IsFilled-at_end pin acc (ltb-false _ _ past) w,
    )
    | inl more ↦ elim (Bool-cases (has_bit mask pin)) [
      | inr clear ↦
          let (m, e, f) = add_parts-ranges fuel (pin + 1) acc (omega arith) w in
          (m, rw (ranges_clear fuel pin more clear) e, IsFilled-skipped pin acc m clear f)
      | inl is_set ↦
          let last = run_end (63 - pin) mask pin in
          let r : IsRun mask pin last =
            run_end-IsRun (63 - pin) mask pin (omega (arith, ltb→lt _ _ more)) is_set in
          let acc' = set_bits (last + 1 - pin) pin acc in
          let w' : acc' < 2 ^ 64 =
            set_bits-lt (last + 1 - pin) pin acc w (omega (arith, r.starts, r.within)) in
          let (m, e, f) = add_parts-ranges fuel (last + 1) acc' (omega (arith, r.starts)) w' in
          (
            m,
            rw (ranges_set fuel pin more is_set)
                (add_parts-range_text acc pin last _ r.starts r.within ∙ e),
            IsFilled-whole_run pin last acc m r f,
          )
    ]
  ]

ranges_none : (mask pin : ℕ) → All (All IsPlain) (ranges 0 mask pin)
unfolding ranges
ranges_none mask pin = tt

ranges-IsPlain : (fuel mask pin : ℕ) → All (All IsPlain) (ranges fuel mask pin)
ranges-IsPlain zero mask pin = ranges_none mask pin
ranges-IsPlain (suc fuel) mask pin = elim (Bool-cases (ltb pin 64)) [
  | inr past ↦ rw (ranges_past mask fuel pin past) tt
  | inl more ↦ elim (Bool-cases (has_bit mask pin)) [
    | inr clear ↦ rw (ranges_clear mask fuel pin more clear) (ranges-IsPlain fuel mask (pin + 1))
    | inl is_set ↦
        let r = run_end-IsRun (63 - pin) mask pin (omega (arith, ltb→lt _ _ more)) is_set in
        rw (ranges_set mask fuel pin more is_set)
          (range_text-IsPlain pin _ (ltb→lt _ _ more) r.within, ranges-IsPlain fuel mask _)
  ]
]

empty_text : parse_pin_ranges [] ≡ add_parts 0 []
unfolding parse_pin_ranges add_parts split trim trim_start trim_end is_empty
empty_text = refl

-- The parts of the formatted text are the ranges; a text without ranges is one empty part.
parse-join :
    (parts : List Text)
    → All (All IsPlain) parts
    → parse_pin_ranges (join b',' parts) ≡ add_parts 0 parts
unfolding parse_pin_ranges join
parse-join [] h = empty_text
parse-join (part ∷ parts) (h, hs) = ap (add_parts 0) (split-join part parts h hs)

-- Every 64-bit mask is read back from the pin ranges that it is printed as.
pub parse-format_pin_ranges :
    (mask : ℕ) → mask < 2 ^ 64 → parse_pin_ranges (format_pin_ranges mask) ≡ ok mask
unfolding format_pin_ranges
parse-format_pin_ranges mask h =
    let (m, e, f) = add_parts-ranges mask 64 0 0 (omega arith) (omega arith) in
    let same : m ≡ mask =
      same_bits 64 m mask f.word h (λ q lt. ground (arith, f.bits q lt, has_bit-zero q)) in
    parse-join (ranges 64 mask 0) (ranges-IsPlain 64 mask 0) ∙ e ∙ ap (λ r. ok r) same
