-- ===== src/Toml/Tests.antt =====
-- The unit tests of probe-config-toml/src/board_toml.rs, and the theorems at the Pico's profile.
use rustprobe.Common.{◌≡◌, refl, [], ◌∷◌, arith, ok, err, is_ok, false}
use rustprobe.Config.{pico}
use rustprobe.Toml.Text.{
  is_whitespace, is_empty, trim_start, trim_end, trim, extend_first, split, extend_before,
  split_once, scan, parse_digits, parse_u8, decimal, join,
}
use rustprobe.Toml.Ranges.{
  descending, pin_out_of_range, parse_pin, parse_range, set_bits, add_part, add_parts,
  parse_pin_ranges, run_end, range_text, ranges, format_pin_ranges,
}
use rustprobe.Toml.Ranges.RoundTrip.{parse-format_pin_ranges}
use rustprobe.Toml.Board.{TomlBoardProfile, into_profile, from_profile}

run : Unit {0}
unfolding is_whitespace is_empty trim_start trim_end trim extend_first split extend_before
    split_once scan parse_digits parse_u8 decimal join parse_pin parse_range set_bits add_part
    add_parts parse_pin_ranges run_end range_text ranges format_pin_ranges into_profile from_profile
run = tt

-- "1, 4-5"
parses_mixed : parse_pin_ranges (b'1' ∷ b',' ∷ b' ' ∷ b'4' ∷ b'-' ∷ b'5' ∷ []) ≡ ok 0b110010
unfolding run
parses_mixed = refl

-- "5-2"
rejects_descending :
    parse_pin_ranges (b'5' ∷ b'-' ∷ b'2' ∷ []) ≡ err (descending (b'5' ∷ b'-' ∷ b'2' ∷ []))
unfolding run
rejects_descending = refl

-- "64"
rejects_beyond : parse_pin_ranges (b'6' ∷ b'4' ∷ []) ≡ err (pin_out_of_range 64)
unfolding run
rejects_beyond = refl

-- "1--3"
rejects_two_dashes : is_ok (parse_pin_ranges (b'1' ∷ b'-' ∷ b'-' ∷ b'3' ∷ [])) ≡ false
unfolding run
rejects_two_dashes = refl

pico_reserved :
    format_pin_ranges pico.reserved ≡ b'2' ∷ b'3' ∷ b'-' ∷ b'2' ∷ b'5' ∷ b',' ∷ b'2' ∷ b'9' ∷ []
unfolding run
pico_reserved = refl

parse-format_pin_ranges_example : parse_pin_ranges (format_pin_ranges 0x2380_0000) ≡ ok 0x2380_0000
parse-format_pin_ranges_example = parse-format_pin_ranges 0x2380_0000 (omega arith)

abbrev pico_file : TomlBoardProfile
pico_file = record {
  available = b'0' ∷ b'-' ∷ b'2' ∷ b'8' ∷ [];
  reserved = b'2' ∷ b'3' ∷ b'-' ∷ b'2' ∷ b'5' ∷ b',' ∷ b'2' ∷ b'9' ∷ [];
}
