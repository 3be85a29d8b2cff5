-- ===== src/Toml/Ranges.antt =====
-- probe-config-toml/src/board_toml.rs: pin ranges.
pub mod Texts
pub mod Masks
pub mod Named
pub mod RoundTrip
use rustprobe.Common.{
  ℕ, zero, suc, ◌+◌, ◌-◌, ◌^◌, Bool, true, false, not, Option, none, some, List, [], ◌∷◌, ◌++◌, ltb,
  if◌then◌else◌, bit_or, map, Result, ok, err, ◌>>=◌, ◌>>◌, guard, ok_or,
}
use rustprobe.Common.Bits.{has_bit}
use rustprobe.Toml.Text.{Text, is_empty, trim, split, split_once, parse_u8, decimal, join}

pub data RangeError : Type 0 where
  invalid_pin : Text → RangeError
  pin_out_of_range : ℕ → RangeError
  descending : Text → RangeError

unfoldable pub parse_pin : Text → Result RangeError ℕ
parse_pin text = do
  pin ← ok_or (parse_u8 (trim text)) (invalid_pin text)
  guard (not (ltb 63 pin)) (pin_out_of_range pin)
  ok pin

-- `match part.split_once('-')`
unfoldable pub parse_range : Text → Result RangeError (ℕ × ℕ)
parse_range part = elim (split_once b'-' part) [
  | some (lo, hi) ↦ do a ← parse_pin lo; b ← parse_pin hi; ok (a, b)
  | none ↦ do pin ← parse_pin part; ok (pin, pin)
]

-- `for pin in lo..=hi`, with `count` pins left.
unfoldable pub set_bits : ℕ → ℕ → ℕ → ℕ
set_bits zero pin mask = mask
set_bits (suc count) pin mask = set_bits count (pin + 1) (bit_or mask (2 ^ pin))

unfoldable pub add_part : ℕ → Text → Result RangeError ℕ
add_part mask part = do
  (lo, hi) ← parse_range part
  guard (not (ltb hi lo)) (descending part)
  ok (set_bits (hi + 1 - lo) lo mask)

-- The loop over the parts, trimmed, of which the empty ones are skipped.
unfoldable pub add_parts : ℕ → List Text → Result RangeError ℕ
add_parts mask [] = ok mask
add_parts mask (raw ∷ parts) =
    let part = trim raw in
    (if is_empty part then ok mask else add_part mask part) >>= λ m. add_parts m parts

unfoldable pub parse_pin_ranges : Text → Result RangeError ℕ
parse_pin_ranges text = add_parts 0 (split b',' text)

-- The inner loop of `format_pin_ranges`, with `left` pins left.
unfoldable pub run_end : ℕ → ℕ → ℕ → ℕ
run_end zero mask pin = pin
run_end (suc left) mask pin =
    let further = run_end left mask (pin + 1) in if has_bit mask (pin + 1) then further else pin

unfoldable pub range_text : ℕ → ℕ → Text
range_text start pin =
    if not (ltb start pin) then decimal start else decimal start ++ b'-' ∷ decimal pin

-- The outer loop.
unfoldable pub ranges : ℕ → ℕ → ℕ → List Text
ranges zero mask pin = []
ranges (suc fuel) mask pin = elim (ltb pin 64) [
  | false ↦ []
  | true ↦ elim (has_bit mask pin) [
    | false ↦ ranges fuel mask (pin + 1)
    | true ↦
        let last = run_end (63 - pin) mask pin in range_text pin last ∷ ranges fuel mask (last + 1)
  ]
]

unfoldable pub format_pin_ranges : ℕ → Text
format_pin_ranges mask = join b',' (ranges 64 mask 0)
