-- ===== src/Cli/Tests/Commands.antt =====
-- The commands at a concrete file and device.
use rustprobe.Common.{
  ℕ, ◌≡◌, refl, true, Option, none, some, List, [], ◌∷◌, arith, Result, ok, length,
}
use rustprobe.Config.{Topology, rp2040, validate}
use rustprobe.Config.Protocol.{rp2040_chip, topology_buf_len}
use rustprobe.Firmware.Vendor.{Service, new}
use rustprobe.Firmware.FlashConfig.{load_topology, load_profile}
use rustprobe.Firmware.Boot.{Build, boot, boot_profile, boot_topology}
use rustprobe.Toml.Format.{Format}
use rustprobe.Toml.Board.{TomlBoardProfile}
use rustprobe.Toml.Topologies.{TomlTopology, into_topology, push_probes, push_uarts}
use rustprobe.Cli.Loopback.{loopback}
use rustprobe.Cli.Commands.{CommandError, Report, cmd_set}
use rustprobe.Cli.Commands.Setting.{IsDevice, formats, commanding, cmd_set_lem}
use rustprobe.Cli.Tests.Codec.{
  platform, topologies-RoundTrips, profiles-RoundTrips, infos-RoundTrips,
}

abbrev Flash : Type 0
Flash = ℕ → Option (List ℕ)

abbrev build : Build
build = record { chip = rp2040_chip; limits = rp2040; version = (0, 1, 0) }

unfoldable device : Service Flash
unfolding boot boot_profile boot_topology new load_topology load_profile
device = boot platform build (λ k. none)

abbrev file : TomlTopology
file = record {
  probes = record { swclk = 6; swdio = 7; reset = none } ∷ [];
  uarts = record { tx = 0; rx = 1; baud = 9600 } ∷ [];
}

abbrev topo : Topology
topo = record {
  probes = record { swclk = 6; swdio = 7; reset = none } ∷ [];
  uarts = record { tx = 0; rx = 1; baud = 9600 } ∷ [];
}

abbrev files : Format TomlTopology
files = record { to_string = λ _. none; from_str = λ _. some file }

abbrev boards : Format TomlBoardProfile
boards = record { to_string = λ _. none; from_str = λ _. none }

device_buffer : length device.buf ≡ topology_buf_len
unfolding device
device_buffer = refl

device-IsDevice : IsDevice platform device
unfolding device
device-IsDevice = record {
  topologies_read = topologies-RoundTrips;
  profiles_read = profiles-RoundTrips;
  infos_read = infos-RoundTrips;
  info_fits = omega arith;
  profile_fits = omega arith;
  has_profiles = omega arith;
  same_limits = refl;
  buffer = device_buffer;
}

file_read : into_topology file ≡ ok topo
unfolding into_topology push_probes push_uarts
file_read = refl

cmd_set_lem_example :
    let after : Result CommandError Report × Service Flash =
      cmd_set (loopback platform) (formats platform files boards) (some []) true device in
    (after.0, after.1.flash)
    ≡ commanding platform (validate topo device.limits device.profile) topo true device
cmd_set_lem_example =
    cmd_set_lem platform files boards [] file topo true device device-IsDevice refl file_read
