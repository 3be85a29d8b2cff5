-- ===== src/Toml/Ranges/Named.antt =====
-- probe-config-toml/src/board_toml.rs: which pins a text of ranges names.
use mathlib.Core.Path.{subst}
use rustprobe.Common.{
  ℕ, ◌+◌, ◌-◌, ◌≡◌, sym, ◌∙◌, ap, inl, inr, Bool, false, not, ◌&&◌, ◌||◌, List, [], ◌∷◌, arith, ltb,
  leb, Result, ok, err, ◌>>◌, guard, Bool-cases, bind-eq-ok, ok-injective, if◌then◌else◌,
}
use rustprobe.Common.Bits.{has_bit, has_bit-zero}
use rustprobe.Toml.Text.{Text, trim, is_empty, split}
use rustprobe.Toml.Ranges.{
  RangeError, descending, parse_range, set_bits, add_part, add_parts, parse_pin_ranges,
}
use rustprobe.Toml.Ranges.Masks.{has_bit-set_bits}

-- The pins from the first to the last one of a part; an empty part has none.
abbrev in_range : Result RangeError (ℕ × ℕ) → ℕ → Bool
in_range (ok (lo, hi)) pin = leb lo pin && leb pin hi
in_range (err e) pin = false

abbrev in_part : Text → ℕ → Bool
in_part raw pin = if is_empty (trim raw) then false else in_range (parse_range (trim raw)) pin

abbrev in_some : List Text → ℕ → Bool
in_some [] pin = false
in_some (raw ∷ parts) pin = in_part raw pin || in_some parts pin

-- Some part between the commas names the pin.
abbrev pub is_named : Text → ℕ → Bool
is_named text pin = in_some (split b',' text) pin

range-bit :
    (mask : ℕ) (part : Text) (r : ℕ × ℕ) (m pin : ℕ)
    → (guard (not (ltb r.1 r.0)) (descending part) >> ok (set_bits (r.1 + 1 - r.0) r.0 mask)) ≡ ok m
    → has_bit m pin ≡ (has_bit mask pin || in_range (ok r) pin)
range-bit mask part (lo, hi) m pin e = elim (Bool-cases (ltb hi lo)) [
  | inl down ↦ cc (rw down at e)
  | inr up ↦
      let set : set_bits (hi + 1 - lo) lo mask ≡ m = ok-injective (rw up at e) in
      subst (λ t. has_bit t pin ≡ (has_bit mask pin || (leb lo pin && leb pin hi))) set
        (ground (arith, up, has_bit-set_bits (hi + 1 - lo) lo mask pin))
]

add_part-bit :
    (mask : ℕ) (part : Text) (m pin : ℕ)
    → add_part mask part ≡ ok m
    → has_bit m pin ≡ (has_bit mask pin || in_range (parse_range part) pin)
unfolding add_part
add_part-bit mask part m pin h =
    let (r, e, h') = bind-eq-ok (parse_range part) _ h in
    range-bit mask part r m pin h' ∙ ap (λ t. has_bit mask pin || in_range t pin) (sym e)

part-bit :
    (mask : ℕ) (raw : Text) (m pin : ℕ)
    → (if is_empty (trim raw) then ok mask else add_part mask (trim raw)) ≡ ok m
    → has_bit m pin ≡ (has_bit mask pin || in_part raw pin)
part-bit mask raw m pin h = elim (Bool-cases (is_empty (trim raw))) [
  | inl skip ↦
      let same : mask ≡ m = ok-injective (rw skip at h) in
      rw skip (subst (λ t. has_bit t pin ≡ (has_bit mask pin || false)) same (ground arith))
  | inr part ↦ rw part (add_part-bit mask (trim raw) m pin (rw part at h))
]

add_parts-bit :
    (parts : List Text) (mask m pin : ℕ)
    → add_parts mask parts ≡ ok m
    → has_bit m pin ≡ (has_bit mask pin || in_some parts pin)
unfolding add_parts
add_parts-bit [] mask m pin h =
    subst (λ t. has_bit t pin ≡ (has_bit mask pin || false)) (ok-injective h) (ground arith)
add_parts-bit (raw ∷ parts) mask m pin h =
    let (m', e, h') =
      bind-eq-ok (if is_empty (trim raw) then ok mask else add_part mask (trim raw)) _ h in
    let first = part-bit mask raw m' pin e in
    let others = add_parts-bit parts m' m pin h' in ground (arith, first, others)

-- A mask that is read from a text has the bit of a pin exactly when some part of the text names it.
pub parse_pin_ranges-bit :
    (text : Text) (m pin : ℕ) → parse_pin_ranges text ≡ ok m → has_bit m pin ≡ is_named text pin
unfolding parse_pin_ranges
parse_pin_ranges-bit text m pin h =
    let read = add_parts-bit (split b',' text) 0 m pin h in ground (arith, read, has_bit-zero pin)
