-- ===== src/Config/Claims.antt =====
-- probe-config/src/lib.rs: the loops of `Topology::validate` over the pins.
use rustprobe.Common.{
  ℕ, ◌^◌, ◌<◌, ◌≡◌, refl, sym, ap, ◌∙◌, ◌≢◌, inl, inr, true, false, Option, none, some, List, [],
  ◌∷◌, ◌++◌, arith, All, bit_or, Result, ok, ◌>>=◌, is_ok, Result-cases, ◌==◌, ◌&&◌, ◌||◌, not,
}
use rustprobe.Common.Bits.{has_bit, has_bit-bit_and, has_bit-complement, has_bit-bit_or_pow}
use rustprobe.Config.{
  ProbeConfig, UartConfig, BoardProfile, ChipLimits, ValidationError, is_assignable,
  assignable_mask, claim, claim_reset, claim_probes, claim_uarts,
}
use rustprobe.Config.Spec.{IsFree, Distinct, reset_pins, probe_pins, uart_pins}

-- The profile's masks are 64-bit words.
pub record IsProfile (b : BoardProfile) : Type 0 where
  pub available_word : b.available < 2 ^ 64
  pub reserved_word : b.reserved < 2 ^ 64

-- No pin of the list is marked in `used`.
abbrev pub Fresh : ℕ → List ℕ → Type 0
Fresh used = All (λ q. has_bit used q ≡ false)

module _ (chip : ChipLimits) (b : BoardProfile) where
  -- The loops claim the pins one after the other.
  unfoldable pub claim_all : ℕ → List ℕ → Result ValidationError ℕ
  claim_all used [] = ok used
  claim_all used (p ∷ ps) = claim chip b used p >>= λ u. claim_all u ps

  pub claim_all-append :
      (used : ℕ) (ps qs : List ℕ)
      → claim_all used (ps ++ qs) ≡ (claim_all used ps >>= λ u. claim_all u qs)
  unfolding claim_all
  claim_all-append used [] qs = refl
  claim_all-append used (p ∷ ps) qs = elim (Result-cases (claim chip b used p)) [
    | inl (u, e) ↦ rw e (claim_all-append u ps qs)
    | inr (x, e) ↦ rw e
  ]

  pub claim_uarts-pins :
      (used : ℕ) (us : List UartConfig) → claim_uarts chip b used us ≡ claim_all used (uart_pins us)
  unfolding claim_uarts claim_all
  claim_uarts-pins used [] = refl
  claim_uarts-pins used (u ∷ us) = elim (Result-cases (claim chip b used u.tx)) [
    | inr (x, e) ↦ rw e
    | inl (v, e) ↦ rw e (elim (Result-cases (claim chip b v u.rx)) [
      | inr (x, e') ↦ rw e'
      | inl (w, e') ↦ rw e' (claim_uarts-pins w us)
    ])
  ]

  claim_reset-pins :
      (used : ℕ) (r : Option ℕ) → claim_reset chip b used r ≡ claim_all used (reset_pins r)
  unfolding claim_reset claim_all
  claim_reset-pins used none = refl
  claim_reset-pins used (some r) = elim (Result-cases (claim chip b used r)) [
    | inr (x, e) ↦ rw e
    | inl (v, e) ↦ rw e
  ]

  pub claim_probes-pins :
      (used : ℕ) (ps : List ProbeConfig)
      → claim_probes chip b used ps ≡ claim_all used (probe_pins ps)
  unfolding claim_probes claim_all
  claim_probes-pins used [] = refl
  claim_probes-pins used (p ∷ ps) = elim (Result-cases (claim chip b used p.swclk)) [
    | inr (x, e) ↦ rw e
    | inl (u, e) ↦ rw e (elim (Result-cases (claim chip b u p.swdio)) [
      | inr (x, e') ↦ rw e'
      | inl (v, e') ↦
          rw
            (
              e',
              claim_all-append v (reset_pins p.reset) (probe_pins ps),
              claim_reset-pins v p.reset,
            )
            (elim (Result-cases (claim_all v (reset_pins p.reset))) [
              | inr (x, d) ↦ rw d
              | inl (w, d) ↦ rw d (claim_probes-pins w ps)
            ])
    ])
  ]

  module _ (word : IsProfile b) where
    is_assignable_lem :
        (pin : ℕ)
        → pin < 64
        → has_bit (assignable_mask b) pin
          ≡ (has_bit b.available pin && not (has_bit b.reserved pin))
    unfolding assignable_mask
    is_assignable_lem pin h =
        has_bit-bit_and _ _ pin
        ∙ ap (λ t. has_bit b.available pin && t)
            (has_bit-complement 64 b.reserved pin word.reserved_word h)

    pub claim_free :
        (used pin : ℕ)
        → IsFree chip b pin
        → has_bit used pin ≡ false
        → claim chip b used pin ≡ ok (bit_or used (2 ^ pin))
    unfolding claim is_assignable
    claim_free used pin f h = ground (arith, is_assignable_lem pin f.is_word_bit)

    pub claim_ok :
        (used pin : ℕ) {u : ℕ}
        → claim chip b used pin ≡ ok u
        → IsFree chip b pin × (has_bit used pin ≡ false) × (u ≡ bit_or used (2 ^ pin))
    unfolding claim is_assignable
    claim_ok used pin h = ground (arith, is_assignable_lem pin)

    Fresh-cons :
        (used p : ℕ) (ps : List ℕ)
        → Fresh used ps
        → All (λ q. p ≢ q) ps
        → Fresh (bit_or used (2 ^ p)) ps
    Fresh-cons used p [] h d = tt
    Fresh-cons used p (q ∷ ps) (hq, h) (dq, d) =
        (has_bit-bit_or_pow used p q ∙ rw hq (ground (arith, dq)), Fresh-cons used p ps h d)

    Fresh-uncons :
        (used p : ℕ) (ps : List ℕ)
        → Fresh (bit_or used (2 ^ p)) ps
        → Fresh used ps × All (λ q. p ≢ q) ps
    Fresh-uncons used p [] h = (tt, tt)
    Fresh-uncons used p (q ∷ ps) (hq, h) =
        let (rest, apart) = Fresh-uncons used p ps h in
        let e : (has_bit used q || p == q) ≡ false = (sym (has_bit-bit_or_pow used p q)) ∙ hq in
        ((ground arith, rest), ((λ same. ground arith), apart))

    pub claim_all-accepts :
        (used : ℕ) (ps : List ℕ)
        → All (IsFree chip b) ps
        → Distinct ps
        → Fresh used ps
        → is_ok (claim_all used ps) ≡ true
    unfolding claim_all
    claim_all-accepts used [] f d h = refl
    claim_all-accepts used (p ∷ ps) (fp, f) (dp, d) (hp, h) =
        rw (claim_free used p fp hp)
          (claim_all-accepts (bit_or used (2 ^ p)) ps f d (Fresh-cons used p ps h dp))

    pub claim_all-accepted :
        (used : ℕ) (ps : List ℕ)
        → is_ok (claim_all used ps) ≡ true
        → All (IsFree chip b) ps × Distinct ps × Fresh used ps
    unfolding claim_all
    claim_all-accepted used [] e = (tt, tt, tt)
    claim_all-accepted used (p ∷ ps) e = elim (Result-cases (claim chip b used p)) [
      | inr (x, r) ↦ cc (rw r at e)
      | inl (u, r) ↦
          let (fp, hp, eu) = claim_ok used p r in
          let (f, d, h) = claim_all-accepted u ps (rw r at e) in
          let (h', dp) = Fresh-uncons used p ps (rw eu at h) in ((fp, f), (dp, d), (hp, h'))
    ]
