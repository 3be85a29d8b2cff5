-- ===== src/Browser/Tests.antt =====
-- The browser's schema over concrete formats: a topology is written as its wire form, and the
-- limits and the profile are read from any text to the RP2040's and the Pico's.
use rustprobe.Common.{◌≡◌, refl, ap, ◌∙◌, some_inj, ◌↔◌, none, some, List, [], ◌∷◌, map, ok}
use mathlib.Core.Option
use mathlib.Core.Path.{subst}
use rustprobe.Config.{Topology, ProbeConfig, UartConfig, BoardProfile, ChipLimits, rp2040}
use rustprobe.Config.Spec.{IsLegal}
use rustprobe.Cli.Tests.Codec.{topologies, profiles, topologies-RoundTrips, platform}
use rustprobe.Toml.Text.{Text}
use rustprobe.Toml.Format.{Format, IsFormat}
use rustprobe.Toml.Board.{TomlBoardProfile}
use rustprobe.Toml.Topologies.{
  TomlTopology, TomlProbe, TomlUart, into_topology, from_topology, push_probes, push_uarts,
}
use rustprobe.Browser.{
  Formats, null, topology_from_json, decode_topology, encode_topology, topology_to_toml,
  topology_from_toml, validate_topology,
}
use rustprobe.Browser.Verdicts.{AreRead, validate_topology_iff}
use rustprobe.Browser.Journeys.{AreFormats, encode_topology-journey}

abbrev wire_probe : TomlProbe → ProbeConfig
wire_probe p = record { swclk = p.swclk; swdio = p.swdio; reset = p.reset }

abbrev wire_uart : TomlUart → UartConfig
wire_uart u = record { tx = u.tx; rx = u.rx; baud = u.baud }

abbrev wire : TomlTopology → Topology
wire f = record { probes = map wire_probe f.probes; uarts = map wire_uart f.uarts }

abbrev files : Format TomlTopology
files = record {
  to_string = λ f. some (topologies.encode (wire f));
  from_str = λ s. Option.map from_topology (topologies.decode s);
}

probes_back :
    (ps : List TomlProbe)
    → map
        (λ (p : ProbeConfig). record { swclk = p.swclk; swdio = p.swdio; reset = p.reset })
        (map wire_probe ps)
      ≡ ps
probes_back [] = refl
probes_back (p ∷ ps) = rw (probes_back ps)

uarts_back :
    (us : List TomlUart)
    → map (λ (u : UartConfig). record { tx = u.tx; rx = u.rx; baud = u.baud }) (map wire_uart us)
      ≡ us
uarts_back [] = refl
uarts_back (u ∷ us) = rw (uarts_back us)

topology_back : (f : TomlTopology) → from_topology (wire f) ≡ f
unfolding from_topology
topology_back f = rw (probes_back f.probes, uarts_back f.uarts)

files_back : (f : TomlTopology) → files.from_str (topologies.encode (wire f)) ≡ some f
files_back f =
    ap (Option.map from_topology) (topologies-RoundTrips (wire f))
    ∙ ap (λ t. some t) (topology_back f)

files-IsFormat : IsFormat files
files-IsFormat = record {
  writes = λ f. (topologies.encode (wire f), refl);
  reads = λ f s h. subst (λ t. files.from_str t ≡ some f) (some_inj h) (files_back f);
}

abbrev constant : {A : Type 0} → A → Format A
constant a = record { to_string = λ _. some []; from_str = λ _. some a }

abbrev pico_file : TomlBoardProfile
pico_file = record {
  available = b'0' ∷ b'-' ∷ b'2' ∷ b'8' ∷ [];
  reserved = b'2' ∷ b'3' ∷ b'-' ∷ b'2' ∷ b'5' ∷ b',' ∷ b'2' ∷ b'9' ∷ [];
}

abbrev formats : Formats
formats = record {
  json_topologies = files;
  json_profiles = constant pico_file;
  json_limits = constant rp2040;
  json_infos = record { to_string = λ _. none; from_str = λ _. none };
  json_pins = constant [];
  toml_topologies = files;
  toml_profiles = constant pico_file;
  topologies = topologies;
  profiles = profiles;
  infos = platform.infos;
}

formats-AreFormats : AreFormats formats
formats-AreFormats = record {
  json = files-IsFormat;
  toml = files-IsFormat;
  wire = topologies-RoundTrips;
}

abbrev stock : Topology
stock = record {
  probes = record { swclk = 2; swdio = 3; reset = some 1 } ∷ [];
  uarts = record { tx = 4; rx = 5; baud = 115200 } ∷ [];
}

abbrev stock_text : Text
stock_text = topologies.encode stock

stock_encoded : encode_topology formats stock_text ≡ ok stock_text
unfolding encode_topology topology_from_json into_topology from_topology push_probes push_uarts
stock_encoded = refl

encode_topology-journey_example :
    (json' : Text) × (toml : Text) × (decode_topology formats stock_text ≡ ok json')
    × (encode_topology formats json' ≡ ok stock_text)
    × (topology_to_toml formats stock_text ≡ ok toml)
    × (topology_from_toml formats toml ≡ ok json')
encode_topology-journey_example =
    encode_topology-journey formats stock_text stock_text formats-AreFormats stock_encoded

validate_topology_iff_example : (validate_topology formats stock_text [] [] ≡ ok null) ↔ (
    (t : Topology) × (chip : ChipLimits) × (b : BoardProfile) × AreRead formats stock_text [] [] t
      chip b
    × IsLegal chip b t)
validate_topology_iff_example = validate_topology_iff formats stock_text [] []
