-- ===== src/Toml/Board.antt =====
-- probe-config-toml/src/board_toml.rs: board files.
use mathlib.Core.Path.{subst}
use rustprobe.Common.{
  ℕ, ◌+◌, ◌-◌, ◌^◌, ◌<◌, ◌≡◌, sym, ◌∙◌, inl, inr, not, none, some, List, [], ◌∷◌, arith, ltb,
  Result, ok, ◌>>=◌, Bool-cases, bind-eq-ok, ok-injective, guard, ◌>>◌, Option-cases, ltb-false,
  if◌then◌else◌,
}
use rustprobe.Config.{BoardProfile}
use rustprobe.Config.Claims.{IsProfile}
use rustprobe.Toml.Text.{Text, trim, is_empty, split, split_once, parse_u8}
use rustprobe.Toml.Ranges.{
  RangeError, descending, parse_pin, parse_range, set_bits, add_part, add_parts, parse_pin_ranges,
  format_pin_ranges,
}
use rustprobe.Toml.Ranges.Masks.{set_bits-lt}
use rustprobe.Toml.Ranges.RoundTrip.{parse-format_pin_ranges}

pub record TomlBoardProfile : Type 0 where
  pub available : Text
  pub reserved : Text

unfoldable pub into_profile : TomlBoardProfile → Result RangeError BoardProfile
into_profile file = do
  available ← parse_pin_ranges file.available
  reserved ← parse_pin_ranges file.reserved
  ok (record { available = available; reserved = reserved })

unfoldable pub from_profile : BoardProfile → TomlBoardProfile
from_profile profile = record {
  available = format_pin_ranges profile.available;
  reserved = format_pin_ranges profile.reserved;
}

-- Every profile of 64-bit masks is read back from its board file.
pub into-from_profile : (b : BoardProfile) → IsProfile b → into_profile (from_profile b) ≡ ok b
unfolding into_profile from_profile
into-from_profile b h = rw (
  parse-format_pin_ranges b.available h.available_word,
  parse-format_pin_ranges b.reserved h.reserved_word,
)

parse_pin-lt : (text : Text) (n : ℕ) → parse_pin text ≡ ok n → n < 64
unfolding parse_pin
parse_pin-lt text n h = elim (Option-cases (parse_u8 (trim text))) [
  | inl e ↦ cc (rw e at h)
  | inr (p, e) ↦ ground (arith, h)
]

parse_both : Text → Text → Result RangeError (ℕ × ℕ)
parse_both lo hi = do a ← parse_pin lo; b ← parse_pin hi; ok (a, b)

parse_one : Text → Result RangeError (ℕ × ℕ)
parse_one part = do pin ← parse_pin part; ok (pin, pin)

parse_range-some :
    (part lo hi : Text) → split_once b'-' part ≡ some (lo, hi) → parse_range part ≡ parse_both lo hi
unfolding parse_range parse_both
parse_range-some part lo hi e = rw (e, parse_range)

parse_range-none : (part : Text) → split_once b'-' part ≡ none → parse_range part ≡ parse_one part
unfolding parse_range parse_one
parse_range-none part e = rw (e, parse_range)

parse_both-lt : (a b : Text) (r : ℕ × ℕ) → parse_both a b ≡ ok r → r.1 < 64
unfolding parse_both
parse_both-lt a b r h =
    let (lo, _, h') = bind-eq-ok (parse_pin a) _ h in
    let (hi, e, h'') = bind-eq-ok (parse_pin b) _ h' in
    subst (λ (t : ℕ × ℕ). t.1 < 64) (ok-injective h'') (parse_pin-lt b hi e)

parse_one-lt : (a : Text) (r : ℕ × ℕ) → parse_one a ≡ ok r → r.1 < 64
unfolding parse_one
parse_one-lt a r h =
    let (pin, e, h') = bind-eq-ok (parse_pin a) _ h in
    subst (λ (t : ℕ × ℕ). t.1 < 64) (ok-injective h') (parse_pin-lt a pin e)

parse_range-lt : (part : Text) (r : ℕ × ℕ) → parse_range part ≡ ok r → r.1 < 64
parse_range-lt part r h = elim (Option-cases (split_once b'-' part)) [
  | inl e ↦ parse_one-lt part r (sym (parse_range-none part e) ∙ h)
  | inr ((a, b), e) ↦ parse_both-lt a b r (sym (parse_range-some part a b e) ∙ h)
]

-- The mask of a range that is not descending stays a word.
range_mask-lt :
    (mask : ℕ) (part : Text) (r : ℕ × ℕ) (m : ℕ)
    → mask < 2 ^ 64
    → r.1 < 64
    → (guard (not (ltb r.1 r.0)) (descending part) >> ok (set_bits (r.1 + 1 - r.0) r.0 mask)) ≡ ok m
    → m < 2 ^ 64
range_mask-lt mask part (lo, hi) m w h e = elim (Bool-cases (ltb hi lo)) [
  | inl down ↦ cc (rw down at e)
  | inr up ↦
      subst (λ t. t < 2 ^ 64) (ok-injective (rw up at e))
        (set_bits-lt (hi + 1 - lo) lo mask w (omega (arith, h, ltb-false _ _ up)))
]

add_part-lt :
    (mask : ℕ) (part : Text) (m : ℕ) → mask < 2 ^ 64 → add_part mask part ≡ ok m → m < 2 ^ 64
unfolding add_part
add_part-lt mask part m w h =
    let (r, e, h') = bind-eq-ok (parse_range part) _ h in
    range_mask-lt mask part r m w (parse_range-lt part r e) h'

add_parts-lt :
    (mask : ℕ) (parts : List Text) (m : ℕ)
    → mask < 2 ^ 64
    → add_parts mask parts ≡ ok m
    → m < 2 ^ 64
unfolding add_parts
add_parts-lt mask [] m w h = subst (λ t. t < 2 ^ 64) (ok-injective h) w
add_parts-lt mask (raw ∷ parts) m w h =
    let (m', e, h') =
      bind-eq-ok (if is_empty (trim raw) then ok mask else add_part mask (trim raw)) _ h in
    add_parts-lt m' parts m
      (elim (Bool-cases (is_empty (trim raw))) [
        | inl skip ↦ subst (λ t. t < 2 ^ 64) (ok-injective (rw skip at e)) w
        | inr part ↦ add_part-lt mask (trim raw) m' w (rw part at e)
      ])
      h'

-- A mask that is read from a text of ranges, whatever the text, is a 64-bit word.
parse_pin_ranges-lt : (text : Text) (m : ℕ) → parse_pin_ranges text ≡ ok m → m < 2 ^ 64
unfolding parse_pin_ranges
parse_pin_ranges-lt text m h = add_parts-lt 0 (split b',' text) m (omega arith) h

-- A profile that is read from a board file, whatever its texts, has masks of 64 bits.
pub into_profile-IsProfile :
    (file : TomlBoardProfile) (b : BoardProfile) → into_profile file ≡ ok b → IsProfile b
unfolding into_profile
into_profile-IsProfile file b h =
    let (available, e, h') = bind-eq-ok (parse_pin_ranges file.available) _ h in
    let (reserved, e', h'') = bind-eq-ok (parse_pin_ranges file.reserved) _ h' in
    subst IsProfile (ok-injective h'') (record {
      available_word = parse_pin_ranges-lt file.available available e;
      reserved_word = parse_pin_ranges-lt file.reserved reserved e';
    })
