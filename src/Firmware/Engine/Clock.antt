-- ===== src/Firmware/Engine/Clock.antt =====
-- firmware/src/swd.rs: the frequency of SWCLK, of which one period takes four cycles of the state
-- machine. `clk_sys_freq` is the system clock in Hz.
use native.Mathlib.Nat.{
  div-le_of_le-mul, lt-mul-div-succ, div-add-mod, lt_of_mul-lt-mul_left, mul-le-mul_left,
}
use rustprobe.Common.{
  ℕ, ◌+◌, ◌-◌, ◌*◌, ◌/◌, ◌%◌, ◌≤◌, ◌<◌, ◌≡◌, ◌⊎◌, refl, ap, ◌∙◌, ◌||◌, List, [], ◌∷◌, ltb, ◌==◌,
  if◌then◌else◌, arith, inl, inr, Bool-cases,
}

-- `u32::div_ceil`
unfoldable pub div_ceil : ℕ → ℕ → ℕ
div_ceil a b = if a % b == 0 then a / b else a / b + 1

-- `clamp(1, 65535)`
unfoldable pub clamp_divider : ℕ → ℕ
clamp_divider d = if ltb d 1 then 1 else if ltb 65535 d then 65535 else d

unfoldable pub divider_for : ℕ → ℕ → ℕ
unfolding div_ceil clamp_divider
divider_for clk_sys_khz freq_khz = clamp_divider ((div_ceil clk_sys_khz freq_khz + 3) / 4)

-- Of `SwdEngine`, the frequency last requested, and of its state machine, the divider.
pub record Clock : Type 0 where
  pub cached_freq_khz : ℕ
  pub divider : ℕ

-- `SwdEngine::set_swclk_freq_khz`
unfoldable pub set_swclk_freq_khz : ℕ → ℕ → Clock → Clock
unfolding divider_for
set_swclk_freq_khz clk_sys_freq freq_khz c =
    if freq_khz == c.cached_freq_khz || freq_khz == 0
    then c
    else record { cached_freq_khz = freq_khz; divider = divider_for (clk_sys_freq / 1000) freq_khz }

-- `SwdEngine::new`, whose configuration comes with the divider `initial`.
unfoldable pub new_clock : ℕ → ℕ → Clock
unfolding set_swclk_freq_khz
new_clock clk_sys_freq initial =
    set_swclk_freq_khz clk_sys_freq 1000 (record { cached_freq_khz = 0; divider = initial })

-- The clock after requests, and the last of them that is not zero.
unfoldable pub requested : ℕ → List ℕ → Clock → Clock
requested clk_sys_freq [] c = c
requested clk_sys_freq (f ∷ fs) c = requested clk_sys_freq fs (set_swclk_freq_khz clk_sys_freq f c)

unfoldable pub last_request : ℕ → List ℕ → ℕ
last_request khz [] = khz
last_request khz (f ∷ fs) = last_request (if f == 0 then khz else f) fs

le-div_ceil : (a b : ℕ) → 0 < b → a ≤ b * div_ceil a b
unfolding div_ceil
le-div_ceil a b h = elim (Bool-cases (a % b == 0)) [
  | inl e ↦
      let whole = div-add-mod a b in let exact : a % b ≡ 0 = ground (arith, e) in rw e (omega arith)
  | inr e ↦ let above = lt-mul-div-succ a h in rw e (omega arith)
]

div_ceil-le : (a b k : ℕ) → 0 < b → a ≤ b * k → div_ceil a b ≤ k
unfolding div_ceil
div_ceil-le a b k h l = elim (Bool-cases (a % b == 0)) [
  | inl e ↦ rw e (div-le_of_le-mul b l)
  | inr e ↦
      let whole = div-add-mod a b in
      let rest : 0 < a % b = ground (arith, e) in
      let below : b * (a / b) < b * k = omega arith in
      let less = lt_of_mul-lt-mul_left b below in rw e (omega arith)
]

-- What `divider_for` promises, in kHz: SWCLK, which is the system clock over four times the divider, is
-- at or below the frequency unless the divider is the largest one, and a whole divider less would be
-- too fast unless it is the smallest one.
abbrev IsSlowest : ℕ → ℕ → ℕ → Type 0
IsSlowest clk khz d =
    (1 ≤ d)
    × (d ≤ 65535)
    × ((d ≡ 65535) ⊎ (clk ≤ khz * (4 * d)))
    × ((d ≡ 1) ⊎ (khz * (4 * (d - 1)) < clk))

rounded_down : (clk khz d : ℕ) → 0 < khz → 4 * d < div_ceil clk khz → khz * (4 * d) < clk
rounded_down clk khz d pos less = elim (Bool-cases (ltb (khz * (4 * d)) clk)) [
  | inl e ↦ ground (arith, e)
  | inr e ↦
      let enough : clk ≤ khz * (4 * d) = ground (arith, e) in
      absurd (omega (arith, div_ceil-le clk khz (4 * d) pos enough))
]

divider_for-IsSlowest : (clk khz : ℕ) → 0 < khz → IsSlowest clk khz (divider_for clk khz)
unfolding divider_for clamp_divider
divider_for-IsSlowest clk khz pos =
    let q = div_ceil clk khz in
    let above : clk ≤ khz * q = le-div_ceil clk khz pos in
    let d = clamp_divider ((q + 3) / 4) in
    let bounds : (1 ≤ d) × (d ≤ 65535) = (ground arith, ground arith) in
    (
      bounds.0,
      bounds.1,
      elim (Bool-cases (d == 65535)) [
        | inl e ↦ inl (ground (arith, e))
        | inr e ↦
            let within : q ≤ 4 * d = ground (arith, e) in
            inr (omega (arith, mul-le-mul_left khz within))
      ],
      elim (Bool-cases (d == 1)) [
        | inl e ↦ inl (ground (arith, e))
        | inr e ↦
            let less : 4 * (d - 1) < q = ground (arith, e) in
            inr (rounded_down clk khz (d - 1) pos less)
      ],
    )

-- The clock right after a request of a new frequency.
abbrev clock_at : ℕ → ℕ → Clock
clock_at clk_sys_freq khz = record {
  cached_freq_khz = khz;
  divider = divider_for (clk_sys_freq / 1000) khz;
}

set_swclk-clock_at :
    (clk khz f : ℕ)
    → set_swclk_freq_khz clk f (clock_at clk khz) ≡ clock_at clk (if f == 0 then khz else f)
unfolding set_swclk_freq_khz
set_swclk-clock_at clk khz f = elim (Bool-cases (f == khz)) [
  | inl same ↦
      let kept : khz ≡ (if f == 0 then khz else f) = ground (arith, same) in
      rw same (ap (clock_at clk) kept)
  | inr new ↦ elim (Bool-cases (f == 0)) [ inl e ↦ rw (new, e) refl | inr e ↦ rw (new, e) refl ]
]

requested-clock_at :
    (clk : ℕ) (fs : List ℕ) (khz : ℕ)
    → requested clk fs (clock_at clk khz) ≡ clock_at clk (last_request khz fs)
unfolding requested last_request
requested-clock_at clk [] khz = refl
requested-clock_at clk (f ∷ fs) khz =
    ap (requested clk fs) (set_swclk-clock_at clk khz f) ∙ requested-clock_at clk fs _

last_request-pos : (fs : List ℕ) (khz : ℕ) → 0 < khz → 0 < last_request khz fs
unfolding last_request
last_request-pos [] khz h = h
last_request-pos (f ∷ fs) khz h = last_request-pos fs _ (ground arith)

-- With `d` for the divider, SWCLK in Hz is `clk_sys_freq` over `4 * d`. A value of the clock below a
-- whole kHz does not count.
abbrev pub IsDividerFor : ℕ → ℕ → ℕ → Type 0
IsDividerFor clk_sys_freq khz d =
    (1 ≤ d)
    × (d ≤ 65535)
    × ((d ≡ 65535) ⊎ (clk_sys_freq < (khz * (4 * d) + 1) * 1000))
    × ((d ≡ 1) ⊎ (khz * (4 * (d - 1)) * 1000 < clk_sys_freq))

in_hz : (clk khz d : ℕ) → IsSlowest (clk / 1000) khz d → IsDividerFor clk khz d
in_hz clk khz d (low, high, slow, least) = (
  low,
  high,
  elim slow [ inl e ↦ inl e | inr h ↦ inr (omega (arith, h)) ],
  elim least [ inl e ↦ inl e | inr h ↦ inr (omega (arith, h)) ],
)

-- Whatever frequencies are requested of a new engine, with repetitions and zeros, its divider is a
-- whole number from 1 to 65535. Take the last frequency that is not zero, or else 1000 kHz: unless the
-- divider is 65535, four times the divider times this frequency is more than the system clock less 1
-- kHz; and unless the divider is 1, SWCLK would exceed this frequency with the whole divider before it.
pub requested-divider :
    (clk_sys_freq initial : ℕ) (requests : List ℕ)
    → IsDividerFor clk_sys_freq
        (last_request 1000 requests)
        (requested clk_sys_freq requests (new_clock clk_sys_freq initial)).divider
unfolding new_clock set_swclk_freq_khz
requested-divider clk_sys_freq initial requests =
    rw (requested-clock_at clk_sys_freq requests 1000) (
      in_hz clk_sys_freq (last_request 1000 requests) _ (
        divider_for-IsSlowest (clk_sys_freq / 1000) (last_request 1000 requests)
          (last_request-pos requests 1000 (omega arith))))
