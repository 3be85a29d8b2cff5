-- ===== src/Cli/Tests/Codec.antt =====
-- A codec of topologies and board profiles, and a flash, that stand for postcard and
-- sequential-storage in the tests: a list is written element by element behind a one and ends with
-- a zero.
use rustprobe.Common.{
  ℕ, zero, suc, ◌≡◌, refl, Bool, true, false, Option, none, some, List, [], ◌∷◌, arith, ◌==◌,
  if◌then◌else◌,
}
use rustprobe.Config.{ProbeConfig, UartConfig, Topology, BoardProfile}
use rustprobe.Config.Protocol.{FirmwareInfo, Chip, rp2040_chip, rp2350_chip}
use rustprobe.Firmware.Platform.{Postcard, Platform, RoundTrips, IsStorage}

abbrev encode_reset : Option ℕ → ℕ
encode_reset none = 0
encode_reset (some r) = suc r

abbrev decode_reset : ℕ → Option ℕ
decode_reset zero = none
decode_reset (suc r) = some r

abbrev encode_probes : List ProbeConfig → List ℕ → List ℕ
encode_probes [] tail = 0 ∷ tail
encode_probes (p ∷ ps) tail = 1 ∷ p.swclk ∷ p.swdio ∷ encode_reset p.reset ∷ encode_probes ps tail

abbrev cons_probe :
    ProbeConfig → Option (List ProbeConfig × List ℕ) → Option (List ProbeConfig × List ℕ)
cons_probe p none = none
cons_probe p (some (ps, rest)) = some (p ∷ ps, rest)

abbrev decode_probes : List ℕ → Option (List ProbeConfig × List ℕ)
decode_probes (zero ∷ rest) = some ([], rest)
decode_probes (suc k ∷ c ∷ d ∷ r ∷ rest) =
    cons_probe (record { swclk = c; swdio = d; reset = decode_reset r }) (decode_probes rest)
decode_probes _ = none

abbrev encode_uarts : List UartConfig → List ℕ
encode_uarts [] = 0 ∷ []
encode_uarts (u ∷ us) = 1 ∷ u.tx ∷ u.rx ∷ u.baud ∷ encode_uarts us

abbrev cons_uart : UartConfig → Option (List UartConfig) → Option (List UartConfig)
cons_uart u none = none
cons_uart u (some us) = some (u ∷ us)

abbrev decode_uarts : List ℕ → Option (List UartConfig)
decode_uarts (zero ∷ rest) = some []
decode_uarts (suc k ∷ t ∷ r ∷ b ∷ rest) =
    cons_uart (record { tx = t; rx = r; baud = b }) (decode_uarts rest)
decode_uarts _ = none

abbrev with_uarts : List ProbeConfig → Option (List UartConfig) → Option Topology
with_uarts ps none = none
with_uarts ps (some us) = some (record { probes = ps; uarts = us })

abbrev decode_rest : Option (List ProbeConfig × List ℕ) → Option Topology
decode_rest none = none
decode_rest (some (ps, rest)) = with_uarts ps (decode_uarts rest)

abbrev pub topologies : Postcard Topology
topologies = record {
  encode = λ t. encode_probes t.probes (encode_uarts t.uarts);
  decode = λ bs. decode_rest (decode_probes bs);
}

decode_reset-encode : (r : Option ℕ) → decode_reset (encode_reset r) ≡ r
decode_reset-encode none = refl
decode_reset-encode (some r) = refl

decode_probes-encode :
    (ps : List ProbeConfig) (tail : List ℕ)
    → decode_probes (encode_probes ps tail) ≡ some (ps, tail)
decode_probes-encode [] tail = refl
decode_probes-encode (p ∷ ps) tail = rw (decode_reset-encode p.reset, decode_probes-encode ps tail)

decode_uarts-encode : (us : List UartConfig) → decode_uarts (encode_uarts us) ≡ some us
decode_uarts-encode [] = refl
decode_uarts-encode (u ∷ us) = rw (decode_uarts-encode us)

pub topologies-RoundTrips : RoundTrips topologies
topologies-RoundTrips t =
    rw (decode_probes-encode t.probes (encode_uarts t.uarts), decode_uarts-encode t.uarts)

abbrev decode_profile : List ℕ → Option BoardProfile
decode_profile (a ∷ r ∷ rest) = some (record { available = a; reserved = r })
decode_profile _ = none

abbrev pub profiles : Postcard BoardProfile
profiles = record { encode = λ b. b.available ∷ b.reserved ∷ []; decode = decode_profile }

pub profiles-RoundTrips : RoundTrips profiles
profiles-RoundTrips b = refl

abbrev encode_chip : Chip → ℕ
encode_chip rp2040_chip = 0
encode_chip rp2350_chip = 1

abbrev decode_chip : ℕ → Chip
decode_chip zero = rp2040_chip
decode_chip (suc n) = rp2350_chip

abbrev encode_fault : Bool → ℕ
encode_fault false = 0
encode_fault true = 1

abbrev decode_fault : ℕ → Bool
decode_fault zero = false
decode_fault (suc n) = true

abbrev encode_info : FirmwareInfo → List ℕ
encode_info i =
    i.protocol_version
    ∷ i.firmware_version.0
    ∷ i.firmware_version.1
    ∷ i.firmware_version.2
    ∷ encode_chip i.chip
    ∷ i.limits.gpio_count
    ∷ i.limits.pio_blocks
    ∷ i.limits.sms_per_block
    ∷ i.limits.ep_numbers_per_dir
    ∷ i.limits.pio_pin_window
    ∷ i.active_probes
    ∷ i.active_uarts
    ∷ encode_fault i.config_fault
    ∷ []

abbrev decode_info : List ℕ → Option FirmwareInfo
decode_info (v ∷ a ∷ b ∷ c ∷ chip ∷ g ∷ pb ∷ sm ∷ ep ∷ w ∷ probes ∷ uarts ∷ fault ∷ rest) =
    some (record {
      protocol_version = v;
      firmware_version = (a, b, c);
      chip = decode_chip chip;
      limits = record {
        gpio_count = g;
        pio_blocks = pb;
        sms_per_block = sm;
        ep_numbers_per_dir = ep;
        pio_pin_window = w;
      };
      active_probes = probes;
      active_uarts = uarts;
      config_fault = decode_fault fault;
    })
decode_info _ = none

decode_chip-encode : (c : Chip) → decode_chip (encode_chip c) ≡ c
decode_chip-encode rp2040_chip = refl
decode_chip-encode rp2350_chip = refl

decode_fault-encode : (b : Bool) → decode_fault (encode_fault b) ≡ b
decode_fault-encode false = refl
decode_fault-encode true = refl

abbrev pub infos : Postcard FirmwareInfo
infos = record { encode = encode_info; decode = decode_info }

pub infos-RoundTrips : RoundTrips infos
infos-RoundTrips i = rw (decode_chip-encode i.chip, decode_fault-encode i.config_fault)

-- A flash is a map from keys to items, and every store succeeds.
abbrev pub platform : Platform (ℕ → Option (List ℕ))
platform = record {
  topologies = topologies;
  profiles = profiles;
  infos = infos;
  fetch_item = λ k s. s k;
  store_item = λ k bs s. (true, λ j. if j == k then some bs else s j);
}

pub platform-IsStorage : IsStorage platform
platform-IsStorage = record {
  fetch_stored = λ k bs s h. (let same : (k == k) ≡ true = ground arith in rw same);
  fetch_other = λ k j bs s ne h. (let other : (j == k) ≡ false = ground arith in rw other);
}
