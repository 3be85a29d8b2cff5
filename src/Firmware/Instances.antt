-- ===== src/Firmware/Instances.antt =====
-- firmware/src/instances.rs, and the loop over the UARTs in firmware/src/main.rs: pins claimed by
-- number, the engines of a topology, the state machine of autobaud and the hardware UARTs.
-- A panic is an error. A pin is true in the table until it is claimed. The embassy drivers that are
-- built from the claimed pins and state machines are named by these.
pub mod Pins
pub mod Slots
pub mod Blocks
pub mod Bridges
pub mod Setup
mod Tests
use rustprobe.Common.{
  ℕ, ◌+◌, ◌*◌, ◌/◌, ◌%◌, Bool, true, false, not, ◌&&◌, ◌||◌, Option, none, some, List, [], ◌∷◌,
  ◌++◌, ltb, ◌==◌, if◌then◌else◌, length, get_elem?, set, take, drop, replicate, min, Result, ok,
  err, ◌>>=◌, ◌>>◌, guard, ok_or,
}
use rustprobe.Config.{
  ProbeConfig, UartConfig, Topology, ChipLimits, rp2040, rp2350a, max_probes, instance_of,
}

pub data Panic : Type 0 where
  already_claimed no_such_pin too_many_engines illegal_pair : Panic
  not_muxed uart_taken no_such_uart : Panic

abbrev pub PinTable : Type 0
PinTable = List Bool

-- `PinTable::new`
abbrev pub all_pins : PinTable
all_pins = replicate 30 true

-- `claim_pio` and `claim_gpio`
unfoldable pub claim_pin : ℕ → PinTable → Result Panic PinTable
claim_pin n table = elim (get_elem? table n) [
  | none ↦ err no_such_pin
  | some is_free ↦ if is_free then ok (set table n false) else err already_claimed
]

unfoldable pub claim_reset : Option ℕ → PinTable → Result Panic PinTable
claim_reset none table = ok table
claim_reset (some n) table = claim_pin n table

-- The arms of `claim_uart0` and `claim_uart1`.
abbrev pub pairs : ℕ → List (ℕ × ℕ)
pairs instance_no =
    if instance_no == 0
    then (0, 1)
      ∷ (0, 13)
      ∷ (0, 17)
      ∷ (0, 29)
      ∷ (12, 1)
      ∷ (12, 13)
      ∷ (12, 17)
      ∷ (12, 29)
      ∷ (16, 1)
      ∷ (16, 13)
      ∷ (16, 17)
      ∷ (16, 29)
      ∷ (28, 1)
      ∷ (28, 13)
      ∷ (28, 17)
      ∷ (28, 29)
      ∷ []
    else (4, 5)
      ∷ (4, 9)
      ∷ (4, 21)
      ∷ (4, 25)
      ∷ (8, 5)
      ∷ (8, 9)
      ∷ (8, 21)
      ∷ (8, 25)
      ∷ (20, 5)
      ∷ (20, 9)
      ∷ (20, 21)
      ∷ (20, 25)
      ∷ (24, 5)
      ∷ (24, 9)
      ∷ (24, 21)
      ∷ (24, 25)
      ∷ []

unfoldable pub is_pair : List (ℕ × ℕ) → ℕ → ℕ → Bool
is_pair [] tx rx = false
is_pair ((a, b) ∷ rest) tx rx = (a == tx && b == rx) || is_pair rest tx rx

unfoldable pub claim_uart : ℕ → ℕ → ℕ → PinTable → Result Panic PinTable
claim_uart instance_no tx rx table = do
  guard (is_pair (pairs instance_no) tx rx) illegal_pair
  table' ← claim_pin tx table
  claim_pin rx table'

-- A state machine of a PIO block.
pub record Slot : Type 0 where
  pub block : ℕ
  pub sm : ℕ

-- `SwdEngine`: its slot and its pins.
pub record Engine : Type 0 where
  pub slot : Slot
  pub swclk : ℕ
  pub swdio : ℕ
  pub nreset : Option ℕ

abbrev pub engine_at : ℕ → ℕ → ProbeConfig → Engine
engine_at block sm cfg = record {
  slot = record { block = block; sm = sm };
  swclk = cfg.swclk;
  swdio = cfg.swdio;
  nreset = cfg.reset;
}

-- The two arguments that `block_engines` changes.
pub record Built : Type 0 where
  pub table : PinTable
  pub engines : List Engine

-- The body of the macro `slot!`, for a probe.
unfoldable pub place : ℕ → ℕ → ProbeConfig → Built → Result Panic Built
place block k cfg b = do
  t1 ← claim_pin cfg.swclk b.table
  t2 ← claim_pin cfg.swdio t1
  t3 ← claim_reset cfg.reset t2
  guard (ltb (length b.engines) max_probes) too_many_engines
  ok (record { table = t3; engines = b.engines ++ engine_at block k cfg ∷ [] })

-- `slot!`
unfoldable pub slot : ℕ → ℕ → List ProbeConfig → Built → Result Panic Built
slot block k probes b = elim (get_elem? probes k) [ none ↦ ok b | some cfg ↦ place block k cfg b ]

-- The result tells whether autobaud has the state machine 3 of the block.
unfoldable pub block_engines : ℕ → List ProbeConfig → Bool → Built → Result Panic (Built × Bool)
block_engines block probes reserve_sm3 b = do
  b0 ← slot block 0 probes b
  b1 ← slot block 1 probes b0
  b2 ← slot block 2 probes b1
  if reserve_sm3 then ok (b2, true) else (slot block 3 probes b2 >>= λ b3. ok (b3, false))

-- What `build_engines` works on: its variables `engines` and `autobaud`, and the pins. The variant
-- `PbSs` of `AutobaudSm` is the slot of block b and state machine s.
pub record Building : Type 0 where
  pub built : Built
  pub autobaud : Option Slot

-- `ab_block == Some(block)`
unfoldable pub is_ab_block : Bool → ℕ → ℕ → Bool
is_ab_block has_uart n block = has_uart && n / 4 == block

-- Block `block` of `build_engines`, for the topology's `n` probes.
unfoldable pub build_block : List ProbeConfig → Bool → ℕ → Building → Result Panic Building
build_block probes has_uart block b =
    let n = length probes in
    let here = is_ab_block has_uart n block in
    let shares = here && not (n % 4 == 0) in
    let fresh = here && n % 4 == 0 in
    if ltb (4 * block) n
    then (block_engines block (drop (4 * block) (take (min n (4 * block + 4)) probes)) shares
          b.built
        >>= λ (r : Built × Bool). ok (record {
          built = r.0;
          autobaud = (if r.1 then some (record { block = block; sm = 3 }) else b.autobaud);
        }))
    else ok (if fresh then record b { autobaud = some (record { block = block; sm = 0 }) } else b)

-- `!topo.uarts.is_empty()`
abbrev pub has_uarts : List UartConfig → Bool
has_uarts [] = false
has_uarts (u ∷ us) = true

-- `rp2350` is the build's feature.
unfoldable pub build_engines : Bool → Topology → PinTable → Result Panic Building
build_engines rp2350 t table = do
  let has_uart = has_uarts t.uarts
  b0 ←
      build_block t.probes has_uart 0
        (record { built = record { table = table; engines = [] }; autobaud = none })
  b1 ← build_block t.probes has_uart 1 b0
  if rp2350 then build_block t.probes has_uart 2 b1 else ok b1

-- `BufferedUart`, with the hardware UART that it is built on.
pub record Bridge : Type 0 where
  pub instance_no : ℕ
  pub uart : UartConfig

-- The pins and the two UARTs that are left.
pub record Uarts : Type 0 where
  pub pins : PinTable
  pub uart0 : Bool
  pub uart1 : Bool

-- `match ucfg.instance().expect(..)`
unfoldable pub claim_instance : ℕ → UartConfig → Uarts → Result Panic Uarts
claim_instance instance_no u s =
    if instance_no == 0
    then (do
      guard s.uart0 uart_taken
      pins ← claim_uart 0 u.tx u.rx s.pins
      ok (record { pins = pins; uart0 = false; uart1 = s.uart1 }))
    else if instance_no == 1
    then (do
      guard s.uart1 uart_taken
      pins ← claim_uart 1 u.tx u.rx s.pins
      ok (record { pins = pins; uart0 = s.uart0; uart1 = false }))
    else err no_such_uart

unfoldable pub build_bridges : List UartConfig → Uarts → Result Panic (List Bridge)
build_bridges [] s = ok []
build_bridges (u ∷ us) s = do
  instance_no ← ok_or (instance_of u) not_muxed
  s' ← claim_instance instance_no u s
  bridges ← build_bridges us s'
  ok (record { instance_no = instance_no; uart = u } ∷ bridges)

pub record Hardware : Type 0 where
  pub engines : List Engine
  pub autobaud : Option Slot
  pub bridges : List Bridge

-- `main`, as far as it claims pins, state machines and UARTs.
unfoldable pub set_up : Bool → Topology → Result Panic Hardware
set_up rp2350 t = do
  b ← build_engines rp2350 t all_pins
  bridges ← build_bridges t.uarts (record { pins = b.built.table; uart0 = true; uart1 = true })
  ok (record { engines = b.built.engines; autobaud = b.autobaud; bridges = bridges })

-- `LIMITS`, by the build's feature.
abbrev pub limits : Bool → ChipLimits
limits true = rp2350a
limits false = rp2040
