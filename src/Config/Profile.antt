-- ===== src/Config/Profile.antt =====
-- probe-config/src/lib.rs: `BoardProfile::validate` and the legality of boards.
use rustprobe.Common.{
  ℕ, ◌-◌, ◌%◌, ◌^◌, ◌<◌, ◌≡◌, ap, ◌∙◌, ◌↔◌, inl, inr, true, false, not, ◌&&◌, arith, bit_and, is_ok,
  ◌==◌, Bool-cases, ltb,
}
use rustprobe.Common.Bits.{
  has_bit, has_bit-bit_and, has_bit-complement, some_bit, bit_and-le, has_bit-ones, has_bit_beyond,
  has_bit-zero, pow_mono,
}
use rustprobe.Config.{BoardProfile, ChipLimits, assignable_mask, is_assignable, validate_profile}
use rustprobe.Config.Claims.{IsProfile}

-- A legal board: it wires out no pin that the chip lacks, and leaves a pin to assign.
pub record IsBoard (chip : ChipLimits) (b : BoardProfile) : Type 0 where
  pub on_chip : (p : ℕ) → has_bit b.available p ≡ true → p < chip.gpio_count
  pub pin : ℕ
  pub usable : is_assignable b pin ≡ true

module _ (chip : ChipLimits) (b : BoardProfile) (word : IsProfile b)
    (fits : chip.gpio_count < 64) where
  missing : ℕ
  missing = 2 ^ 64 - 1 - (2 ^ (chip.gpio_count % 64) - 1)

  has_bit-missing : (p : ℕ) → p < 64 → has_bit missing p ≡ not (ltb p chip.gpio_count)
  unfolding missing
  has_bit-missing p h =
      let e : chip.gpio_count % 64 ≡ chip.gpio_count = omega arith in
      rw e (
        has_bit-complement 64 (2 ^ chip.gpio_count - 1) p
          (omega (arith, pow_mono chip.gpio_count 63 (omega arith))) h
        ∙ ap not (has_bit-ones chip.gpio_count p))

  is_available→lt_64 : (p : ℕ) → has_bit b.available p ≡ true → p < 64
  is_available→lt_64 p h = elim (Bool-cases (ltb p 64)) [
    | inl lt ↦ ground arith
    | inr ge ↦ cc (has_bit_beyond 64 b.available p word.available_word (ground arith))
  ]

  in_range→on_chip :
      (p : ℕ)
      → (bit_and b.available missing == 0) ≡ true
      → has_bit b.available p ≡ true
      → p < chip.gpio_count
  in_range→on_chip p h on =
      let lt = is_available→lt_64 p on in
      let zero_word : bit_and b.available missing ≡ 0 = ground arith in
      let off : has_bit (bit_and b.available missing) p ≡ false = rw zero_word (has_bit-zero p) in
      let split : (has_bit b.available p && not (ltb p chip.gpio_count)) ≡ false =
        rw (← has_bit-missing p lt, ← has_bit-bit_and b.available missing p) off in
      ground arith

  on_chip→in_range :
      ((p : ℕ) → has_bit b.available p ≡ true → p < chip.gpio_count)
      → (bit_and b.available missing == 0) ≡ true
  on_chip→in_range on = elim (Bool-cases (bit_and b.available missing == 0)) [
    | inl e ↦ e
    | inr e ↦
        let below : bit_and b.available missing < 2 ^ 64 =
          omega (
            arith,
            bit_and-le b.available b.available missing (omega arith),
            word.available_word,
          ) in
        let (p, lt, h) = some_bit 64 (bit_and b.available missing) below (ground arith) in
        let both : (has_bit b.available p && not (ltb p chip.gpio_count)) ≡ true =
          rw (← has_bit-missing p lt, ← has_bit-bit_and b.available missing p) h in
        ground (arith, on p)
  ]

  mask-lt : assignable_mask b < 2 ^ 64
  unfolding assignable_mask
  mask-lt = omega (
    arith,
    bit_and-le b.available b.available (2 ^ 64 - 1 - b.reserved) (omega arith),
    word.available_word,
  )

  not_empty→pin : (assignable_mask b == 0) ≡ false → (p : ℕ) × (is_assignable b p ≡ true)
  unfolding is_assignable
  not_empty→pin h =
      let (p, lt, on) = some_bit 64 (assignable_mask b) mask-lt (ground arith) in
      (p, unfold assignable_mask in ground arith)

  pin→not_empty : (p : ℕ) → is_assignable b p ≡ true → (assignable_mask b == 0) ≡ false
  unfolding is_assignable
  pin→not_empty p h = elim (Bool-cases (assignable_mask b == 0)) [
    | inr e ↦ e
    | inl e ↦
        let zero_mask : assignable_mask b ≡ 0 = ground arith in
        let off : has_bit (assignable_mask b) p ≡ false = rw zero_mask (has_bit-zero p) in
        unfold assignable_mask in ground arith
  ]

  guards_pass :
      (bit_and b.available missing == 0) ≡ true
      → (assignable_mask b == 0) ≡ false
      → is_ok (validate_profile b chip) ≡ true
  unfolding validate_profile missing
  guards_pass h h' = rw (h, h')

  guards_passed :
      is_ok (validate_profile b chip) ≡ true
      → ((bit_and b.available missing == 0) ≡ true) × ((assignable_mask b == 0) ≡ false)
  unfolding validate_profile missing
  guards_passed h = ground arith

  -- For a chip with fewer than 64 pins and a profile of 64-bit masks, the profile is accepted exactly
  -- when it wires out no pin beyond the chip's and leaves at least one pin assignable.
  pub validate_profile_iff : (is_ok (validate_profile b chip) ≡ true) ↔ IsBoard chip b
  validate_profile_iff = (
    (λ h.
        let (in_range, not_empty) = guards_passed h in
        let (p, free) = not_empty→pin not_empty in
        record { on_chip = λ q. in_range→on_chip q in_range; pin = p; usable = free }),
    (λ board. guards_pass (on_chip→in_range board.on_chip) (pin→not_empty board.pin board.usable)),
  )
