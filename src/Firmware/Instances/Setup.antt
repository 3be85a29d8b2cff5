-- ===== src/Firmware/Instances/Setup.antt =====
-- firmware/src/instances.rs, firmware/src/main.rs: the set-up of a legal topology.
use mathlib.Core.Path.{subst}
use rustprobe.Common.{
  ℕ, ◌+◌, ◌*◌, ◌≤◌, ◌<◌, ◌≡◌, refl, sym, ap, ◌∙◌, Bool, true, false, none, some, Option, List, [],
  ◌∷◌, ◌++◌, append_assoc, arith, length, length-drop, take-append-drop, take_ge, map, take, drop,
  if◌then◌else◌, Result, ok,
}
use rustprobe.Config.{ProbeConfig, UartConfig, Topology, BoardProfile}
use rustprobe.Config.Spec.{IsLegal, probe_pins, uart_pins, pins, instances, state_machines}
use rustprobe.Firmware.Instances.{
  PinTable, Panic, Slot, Engine, Building, Bridge, all_pins, is_ab_block, build_engines, has_uarts,
  set_up, limits,
}
use rustprobe.Firmware.Instances.Pins.{Ready, all_pins-Ready}
use rustprobe.Firmware.Instances.Blocks.{
  engines_of, autobaud_of, engines_of-append, ab_after, next, CanPlace, build_block-CanPlace,
  drop-drop, nil_of_length,
}
use rustprobe.Firmware.Instances.Bridges.{Spare, build_bridges-instances}

autobaud_two :
    (n : ℕ) (us : List UartConfig)
    → n ≤ 8
    → (has_uarts us ≡ true → n < 8)
    → ab_after
        (is_ab_block (has_uarts us) n 1)
        1
        n
        (ab_after (is_ab_block (has_uarts us) n 0) 0 n none)
      ≡ autobaud_of n us
unfolding is_ab_block
autobaud_two n [] h h' = refl
autobaud_two n (u ∷ us) h h' = ground (arith, h' refl)

autobaud_three :
    (n : ℕ) (us : List UartConfig)
    → n ≤ 12
    → (has_uarts us ≡ true → n < 12)
    → ab_after (is_ab_block (has_uarts us) n 2) 2 n (
        ab_after
          (is_ab_block (has_uarts us) n 1)
          1
          n
          (ab_after (is_ab_block (has_uarts us) n 0) 0 n none))
      ≡ autobaud_of n us
unfolding is_ab_block
autobaud_three n [] h h' = refl
autobaud_three n (u ∷ us) h h' = ground (arith, h' refl)

-- Behind four probes the number is four more; else there are none behind.
engines_behind :
    (i : ℕ) (ps : List ProbeConfig)
    → engines_of i (take 4 ps) ++ engines_of (i + length (take 4 ps)) (drop 4 ps)
      ≡ engines_of i (take 4 ps) ++ engines_of (i + 4) (drop 4 ps)
engines_behind i [] = refl
engines_behind i (p0 ∷ []) = refl
engines_behind i (p0 ∷ p1 ∷ []) = refl
engines_behind i (p0 ∷ p1 ∷ p2 ∷ []) = refl
engines_behind i (p0 ∷ p1 ∷ p2 ∷ p3 ∷ ps) = refl

-- The first four probes, and those behind them.
engines_four :
    (i : ℕ) (ps : List ProbeConfig)
    → engines_of i ps ≡ engines_of i (take 4 ps) ++ engines_of (i + 4) (drop 4 ps)
engines_four i ps =
    ap (engines_of i) (sym (take-append-drop 4 ps))
    ∙ engines_of-append i (take 4 ps) (drop 4 ps)
    ∙ engines_behind i ps

engines_two :
    (i : ℕ) (ps : List ProbeConfig)
    → length ps ≤ 8
    → engines_of i ps ≡ engines_of i (take 4 ps) ++ engines_of (i + 4) (take 4 (drop 4 ps))
engines_two i ps h =
    engines_four i ps
    ∙ ap (λ qs. engines_of i (take 4 ps) ++ engines_of (i + 4) qs)
        (sym (take_ge 4 (drop 4 ps) (omega (arith, length-drop 4 ps))))

engines_three :
    (ps : List ProbeConfig)
    → length ps ≤ 12
    → engines_of 0 ps
      ≡ (engines_of 0 (take 4 ps) ++ engines_of 4 (take 4 (drop 4 ps)))
        ++ engines_of 8 (take 4 (drop 8 ps))
engines_three ps h =
    engines_four 0 ps
    ∙ ap (λ es. engines_of 0 (take 4 ps) ++ es)
        (engines_two 4 (drop 4 ps) (omega (arith, length-drop 4 ps)))
    ∙ ap
        (λ qs.
          engines_of 0 (take 4 ps)
          ++ (engines_of 4 (take 4 (drop 4 ps)) ++ engines_of 8 (take 4 qs)))
        (drop-drop 4 4 ps)
    ∙ sym (append_assoc (engines_of 0 (take 4 ps)) (engines_of 4 (take 4 (drop 4 ps))) _)

abbrev start : PinTable → Building
start table = record { built = record { table = table; engines = [] }; autobaud = none }

-- The outcome for the whole topology.
abbrev finished : Topology → PinTable → Building
finished t table = record {
  built = record { table = table; engines = engines_of 0 t.probes };
  autobaud = autobaud_of (length t.probes) t.uarts;
}

finish :
    (t : Topology) (table : PinTable) {es : List Engine} {a : Option Slot}
    → es ≡ engines_of 0 t.probes
    → a ≡ autobaud_of (length t.probes) t.uarts
    → ◌≡◌ {A = Result Panic Building}
        (ok (record { built = record { table = table; engines = es }; autobaud = a }))
        (ok (finished t table))
finish t table e e' = cc

-- No pins of probes are left.
leftover :
    (ps : List ProbeConfig) (n : ℕ) (us : List ℕ) (table : PinTable)
    → length ps ≤ n
    → Ready table (probe_pins (drop n ps) ++ us)
    → Ready table us
leftover ps n us table h r =
    let empty : drop n ps ≡ [] = nil_of_length _ (omega (arith, length-drop n ps)) in
    subst (λ l. Ready table (probe_pins l ++ us)) empty r

module _ (t : Topology) (us : List ℕ) (table : PinTable) where
  abbrev ps : List ProbeConfig
  ps = t.probes

  abbrev hu : Bool
  hu = has_uarts t.uarts

  -- Two blocks.
  build_engines_two :
      CanPlace ps us 0 (start table)
      → length ps ≤ 8
      → (hu ≡ true → length ps < 8)
      → (table' : PinTable) × (build_engines false t table ≡ ok (finished t table'))
        × Ready table' us
  unfolding build_engines
  build_engines_two c n n' =
      let (t0, e0, c0) = build_block-CanPlace ps hu 0 us (start table) c in
      let b0 = next ps hu 0 t0 (start table) in
      let (t1, e1, c1) = build_block-CanPlace ps hu 1 us b0 c0 in
      (
        t1,
        rw (e0, e1)
            (finish t t1 (sym (engines_two 0 ps n)) (autobaud_two (length ps) t.uarts n n')),
        leftover ps 8 us t1 n c1.claims,
      )

  -- Three blocks.
  build_engines_three :
      CanPlace ps us 0 (start table)
      → length ps ≤ 12
      → (hu ≡ true → length ps < 12)
      → (table' : PinTable) × (build_engines true t table ≡ ok (finished t table'))
        × Ready table' us
  unfolding build_engines
  build_engines_three c n n' =
      let (t0, e0, c0) = build_block-CanPlace ps hu 0 us (start table) c in
      let b0 = next ps hu 0 t0 (start table) in
      let (t1, e1, c1) = build_block-CanPlace ps hu 1 us b0 c0 in
      let b1 = next ps hu 1 t1 b0 in
      let (t2, e2, c2) = build_block-CanPlace ps hu 2 us b1 c1 in
      (
        t2,
        rw (e0, e1, e2)
            (finish t t2 (sym (engines_three ps n)) (autobaud_three (length ps) t.uarts n n')),
        leftover ps 12 us t2 n c2.claims,
      )

abbrev bound : Bool → ℕ
bound rp2350 = if rp2350 then 12 else 8

build_engines-Ready :
    (rp2350 : Bool) (t : Topology) (us : List ℕ) (table : PinTable)
    → Ready table (probe_pins t.probes ++ us)
    → length t.probes ≤ bound rp2350
    → (has_uarts t.uarts ≡ true → length t.probes < bound rp2350)
    → (table' : PinTable) × (build_engines rp2350 t table ≡ ok (finished t table'))
      × Ready table' us
build_engines-Ready false t us table h n n' =
    build_engines_two t us table (record { claims = h; room = omega arith }) n n'
build_engines-Ready true t us table h n n' =
    build_engines_three t us table (record { claims = h; room = omega arith }) n n'

limits_gpio : (rp2350 : Bool) → (limits rp2350).gpio_count ≤ 30
limits_gpio true = omega arith
limits_gpio false = omega arith

Spare-true : (i : ℕ) (is : List (Option ℕ)) → Spare i true is
Spare-true i [] = tt
Spare-true i (j ∷ is) = ((λ e. refl), Spare-true i is)

sm_bound :
    (rp2350 : Bool) (n : ℕ) (us : List UartConfig)
    → state_machines n (length us) ≤ (limits rp2350).pio_blocks * (limits rp2350).sms_per_block
    → (n ≤ bound rp2350) × (has_uarts us ≡ true → n < bound rp2350)
sm_bound true n [] h = (omega arith, λ e. cc)
sm_bound true n (u ∷ us) h = (omega arith, λ e. omega arith)
sm_bound false n [] h = (omega arith, λ e. cc)
sm_bound false n (u ∷ us) h = (omega arith, λ e. omega arith)

-- A topology that is legal for the chip is set up without a panic: probe i gets its pins and the
-- state machine i % 4 of block i / 4, autobaud gets the state machine behind the last probe's block
-- if there is a UART (number 3 of a block that probes share, or else number 0 of the next block), and
-- every UART gets its pins and the hardware instance that they select.
pub set_up-IsLegal :
    (rp2350 : Bool) (b : BoardProfile) (t : Topology)
    → IsLegal (limits rp2350) b t
    → (bridges : List Bridge) × (set_up rp2350 t
        ≡ ok (record {
          engines = engines_of 0 t.probes;
          autobaud = autobaud_of (length t.probes) t.uarts;
          bridges = bridges;
        }))
      × (map (λ r. r.uart) bridges ≡ t.uarts)
      × (map (λ r. some r.instance_no) bridges ≡ instances t.uarts)
unfolding set_up
set_up-IsLegal rp2350 b t legal =
    let start : Ready all_pins (probe_pins t.probes ++ uart_pins t.uarts) =
      all_pins-Ready (limits rp2350) b (pins t) (limits_gpio rp2350) legal.free legal.distinct in
    let fits = sm_bound rp2350 (length t.probes) t.uarts legal.budgets.sm_budget in
    let (table, built, r) =
      build_engines-Ready rp2350 t (uart_pins t.uarts) all_pins start fits.0 fits.1 in
    let (bridges, bridged, same, own) =
      build_bridges-instances t.uarts (record { pins = table; uart0 = true; uart1 = true })
        (record {
          ready = r;
          muxed = legal.muxed;
          own = legal.own_instance;
          spare0 = Spare-true 0 (instances t.uarts);
          spare1 = Spare-true 1 (instances t.uarts);
        }) in
    (bridges, rw (built, bridged) refl, same, own)
