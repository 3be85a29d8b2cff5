-- ===== src/Firmware/Serial.antt =====
-- firmware/src/main.rs: the serial number of a probe instance.
use rustprobe.Common.{
  ℕ, zero, suc, ◌+◌, ◌*◌, ◌/◌, ◌%◌, ◌^◌, ◌<◌, ◌≡◌, ap, List, [], ◌∷◌, ◌++◌, arith, ltb, leb,
  if◌then◌else◌, get_or, length, drop,
}

-- A byte of `HEX`.
abbrev pub hex_digit : ℕ → ℕ
hex_digit d = if ltb d 10 then 48 + d else 55 + d

-- The last `n` hexadecimal digits.
abbrev pub hex_digits : ℕ → ℕ → List ℕ
hex_digits zero uid = []
hex_digits (suc n) uid = hex_digit (uid / 2 ^ (4 * n) % 16) ∷ hex_digits n uid

abbrev pub instance_digits : ℕ → List ℕ
instance_digits i = if leb 10 i then (48 + i / 10 % 256) ∷ (48 + i % 10) ∷ [] else (48 + i) ∷ []

unfoldable pub format_serial : ℕ → ℕ → List ℕ
format_serial uid i = hex_digits 16 uid ++ (58 ∷ instance_digits i)

-- What a text says behind the colon.
abbrev number : List ℕ → ℕ
number bs = if leb 2 (length bs) then (get_or bs 0 0) * 10 + get_or bs 1 0 else get_or bs 0 0 + 480

number-instance_digits : (i : ℕ) → i < 100 → number (instance_digits i) ≡ i + 528
number-instance_digits i h = ground arith

-- For fewer than 100 instances of one device, two instances with the same serial number are the
-- same instance.
pub format_serial-injective :
    (uid i j : ℕ) → i < 100 → j < 100 → format_serial uid i ≡ format_serial uid j → i ≡ j
unfolding format_serial
format_serial-injective uid i j hi hj h =
    let behind : (58 ∷ instance_digits i) ≡ (58 ∷ instance_digits j) = ap (drop 16) h in
    let same : number (instance_digits i) ≡ number (instance_digits j) =
      ap (λ bs. number (drop 1 bs)) behind in
    omega (arith, same, number-instance_digits i hi, number-instance_digits j hj)
