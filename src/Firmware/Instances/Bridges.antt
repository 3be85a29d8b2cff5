-- ===== src/Firmware/Instances/Bridges.antt =====
-- firmware/src/main.rs: the loop that builds a bridge for each UART.
use mathlib.Core.Path.{subst}
use rustprobe.Common.{
  ℕ, ◌≡◌, refl, ap, ◌≢◌, ◌⊎◌, inl, inr, Bool, true, false, Option, none, some, List, [], ◌∷◌, arith,
  All, map, ok, Option-cases,
}
use rustprobe.Config.{UartConfig, instance_of}
use rustprobe.Config.Spec.{Distinct, uart_pins, instances}
use rustprobe.Firmware.Instances.{
  PinTable, Bridge, Uarts, pairs, is_pair, claim_uart, claim_instance, build_bridges,
}
use rustprobe.Firmware.Instances.Pins.{Ready, claim_pin-Ready}

-- The pins of a UART of an instance are a pair that the instance's arms name.
is_pair-instance :
    (u : UartConfig) (i : ℕ)
    → instance_of u ≡ some i
    → ((i ≡ 0) ⊎ (i ≡ 1)) × (is_pair (pairs i) u.tx u.rx ≡ true)
unfolding instance_of is_pair
is_pair-instance u i h = ground arith

-- The hardware UART `i` is there for the instances that select it.
abbrev pub Spare : ℕ → Bool → List (Option ℕ) → Type 0
Spare i is_there = All (λ j. some i ≡ j → is_there ≡ true)

Spare-apart :
    (i : ℕ) (is_there : Bool) (is : List (Option ℕ))
    → All (λ j. some i ≢ j) is
    → Spare i is_there is
Spare-apart i is_there [] d = tt
Spare-apart i is_there (j ∷ is) (dj, d) = ((λ e. absurd (dj e)), Spare-apart i is_there is d)

-- What the loop needs for the UARTs that are left.
pub record CanBuild (s : Uarts) (us : List UartConfig) : Type 0 where
  pub ready : Ready s.pins (uart_pins us)
  pub muxed : All (λ i. i ≢ none) (instances us)
  pub own : Distinct (instances us)
  pub spare0 : Spare 0 s.uart0 (instances us)
  pub spare1 : Spare 1 s.uart1 (instances us)

claim_uart-Ready :
    (i : ℕ) (u : UartConfig) (table : PinTable) (ps : List ℕ)
    → is_pair (pairs i) u.tx u.rx ≡ true
    → Ready table (u.tx ∷ u.rx ∷ ps)
    → (table' : PinTable) × (claim_uart i u.tx u.rx table ≡ ok table') × Ready table' ps
unfolding claim_uart
claim_uart-Ready i u table ps legal h =
    let (e1, h1) = claim_pin-Ready table u.tx _ h in
    let (e2, h2) = claim_pin-Ready _ u.rx _ h1 in (_, rw (legal, e1, e2), h2)

module _ (i : ℕ) (u : UartConfig) (s : Uarts) (table : PinTable) where
  claim_instance-zero :
      i ≡ 0
      → s.uart0 ≡ true
      → claim_uart i u.tx u.rx s.pins ≡ ok table
      → claim_instance i u s ≡ ok (record { pins = table; uart0 = false; uart1 = s.uart1 })
  unfolding claim_instance
  claim_instance-zero e there claimed =
      let claimed' : claim_uart 0 u.tx u.rx s.pins ≡ ok table =
        subst (λ k. claim_uart k u.tx u.rx s.pins ≡ ok table) e claimed in
      rw (e, there, claimed')

  claim_instance-one :
      i ≡ 1
      → s.uart1 ≡ true
      → claim_uart i u.tx u.rx s.pins ≡ ok table
      → claim_instance i u s ≡ ok (record { pins = table; uart0 = s.uart0; uart1 = false })
  unfolding claim_instance
  claim_instance-one e there claimed =
      let claimed' : claim_uart 1 u.tx u.rx s.pins ≡ ok table =
        subst (λ k. claim_uart k u.tx u.rx s.pins ≡ ok table) e claimed in
      rw (e, there, claimed')

claim_instance-CanBuild :
    (i : ℕ) (u : UartConfig) (us : List UartConfig) (s : Uarts)
    → instance_of u ≡ some i
    → CanBuild s (u ∷ us)
    → (s' : Uarts) × (claim_instance i u s ≡ ok s') × CanBuild s' us
claim_instance-CanBuild i u us s e c =
    let (which, legal) = is_pair-instance u i e in
    let (table, claimed, r) = claim_uart-Ready i u s.pins (uart_pins us) legal c.ready in
    elim which [
      | inl zeroth ↦ (
        record { pins = table; uart0 = false; uart1 = s.uart1 },
        claim_instance-zero i u s table zeroth (c.spare0.0 (cc)) claimed,
        record {
          ready = r;
          muxed = c.muxed.1;
          own = c.own.1;
          spare0 = Spare-apart 0 false _ (rw (e, zeroth) at c.own.0);
          spare1 = c.spare1.1;
        },
      )
      | inr first ↦ (
        record { pins = table; uart0 = s.uart0; uart1 = false },
        claim_instance-one i u s table first (c.spare1.0 (cc)) claimed,
        record {
          ready = r;
          muxed = c.muxed.1;
          own = c.own.1;
          spare0 = c.spare0.1;
          spare1 = Spare-apart 1 false _ (rw (e, first) at c.own.0);
        },
      )
    ]

-- Every UART gets the hardware instance that its pins select.
pub build_bridges-instances :
    (us : List UartConfig) (s : Uarts)
    → CanBuild s us
    → (bridges : List Bridge) × (build_bridges us s ≡ ok bridges)
      × (map (λ b. b.uart) bridges ≡ us)
      × (map (λ b. some b.instance_no) bridges ≡ instances us)
unfolding build_bridges
build_bridges-instances [] s c = ([], refl, refl, refl)
build_bridges-instances (u ∷ us) s c = elim (Option-cases (instance_of u)) [
  | inl e ↦ absurd (c.muxed.0 e)
  | inr (i, e) ↦
      let (s', claimed, c') = claim_instance-CanBuild i u us s e c in
      let (bridges, built, same, own) = build_bridges-instances us s' c' in
      (
        record { instance_no = i; uart = u } ∷ bridges,
        rw (e, claimed, built),
        ap (λ t. u ∷ t) same,
        rw (e, own),
      )
]
