-- ===== src/Cli/Tests.antt =====
-- The session's theorems at concrete configurations and links.
pub mod Codec
mod Commands
use rustprobe.Common.{
  ℕ, ◌%◌, ◌+◌, ◌-◌, ◌≤◌, ◌<◌, ◌≡◌, ◌≢◌, refl, Bool, true, false, Option, none, some, List, [], ◌∷◌,
  ◌++◌, arith, length, get_or, All, IsByte, Result, ok, err, is_ok, ◌⊎◌,
}
use rustprobe.Config.{
  Topology, BoardProfile, pico, rp2040, validate, validate_profile, claim, claim_reset,
  claim_probes, claim_uarts, claim_instances, check_budgets, instance_of, is_assignable,
}
use rustprobe.Config.Protocol.{rp2040_chip, topology_buf_len, cmd_get_topology}
use rustprobe.Firmware.Platform.{Platform}
use rustprobe.Firmware.Vendor
use rustprobe.Firmware.Vendor.{Service, AfterResponse, new, handle}
use rustprobe.Firmware.FlashConfig
use rustprobe.Firmware.FlashConfig.{load_topology, load_profile}
use rustprobe.Firmware.Boot.{Build, boot, default_topology, boot_profile, boot_topology}
use rustprobe.Firmware.Boot.Legal.{boot-legal}
use rustprobe.Firmware.Lane.{serve_request, usb_mps, dap_packet_size, is_vendor}
use rustprobe.Cli.Session.{
  SessionError, stuck, Link, set_topology, get_topology, get_profile, set_profile, send_chunks,
  read_topology, request, check, extend,
}
use rustprobe.Cli.Session.Transfers.{IsLink, get_topology-ends, set_topology-ends}
use rustprobe.Cli.Loopback.{loopback, packet_size}
use rustprobe.Cli.Loopback.Commit.{storing, set_topology_lem}
use rustprobe.Cli.Loopback.Fetch.{get_topology_lem}
use rustprobe.Cli.Loopback.Profile.{setting, set_profile_lem, get_profile_lem}
use rustprobe.Cli.Loopback.Reboot.{set_topology-boot}
use rustprobe.Cli.Loopback.Serve.{loopback-serve}
use rustprobe.Cli.Tests.Codec.{
  platform, topologies, topologies-RoundTrips, profiles, profiles-RoundTrips, platform-IsStorage,
}

abbrev Flash : Type 0
Flash = ℕ → Option (List ℕ)

abbrev erased : Flash
erased k = none

abbrev build : Build
build = record { chip = rp2040_chip; limits = rp2040; version = (0, 1, 0) }

abbrev wanted : Topology
wanted = record {
  probes =
      record { swclk = 6; swdio = 7; reset = none }
      ∷ record { swclk = 8; swdio = 9; reset = some 10 }
      ∷ [];
  uarts = record { tx = 0; rx = 1; baud = 9600 } ∷ [];
}

-- A service as after a reset with an erased flash.
unfoldable started : Service Flash
unfolding boot boot_profile boot_topology new load_topology load_profile
started = boot platform build erased

started_buffer : length started.buf ≡ topology_buf_len
unfolding started
started_buffer = refl

-- A link that answers every request with a status and one byte of a topology of two bytes.
abbrev slow : Link ℕ
slow = record { transceive = λ req n. (ok ((get_or req 0 0 % 256) ∷ 0 ∷ 2 ∷ 0 ∷ []), n + 1) }

answers_bytes :
    (c : ℕ) (bs : List ℕ)
    → c < 256
    → ◌≡◌ {A = Result SessionError (List ℕ)} (ok (c ∷ 0 ∷ 2 ∷ 0 ∷ [])) (ok bs)
    → All IsByte bs
answers_bytes c bs lt h =
    let e : (c ∷ 0 ∷ 2 ∷ 0 ∷ []) ≡ bs = cc in
    rw (← e) (lt, (omega arith, (omega arith, (omega arith, tt))))

slow-IsLink : IsLink slow
slow-IsLink = record {
  replies_bytes = λ req bs p h. answers_bytes (get_or req 0 0 % 256) bs (omega arith) h;
  fails_by_itself = λ req p h. cc;
}

get_topology-ends_example : (get_topology slow topologies 0).0 ≢ err stuck
get_topology-ends_example = get_topology-ends slow slow-IsLink topologies 0

set_topology-ends_example : (set_topology slow topologies wanted 0).0 ≢ err stuck
set_topology-ends_example = set_topology-ends slow slow-IsLink topologies wanted 0

-- Two rounds read the two bytes, which hold no probe and no UART.
slow_read : get_topology slow topologies 0 ≡ (ok (record { probes = []; uarts = [] }), 2)
unfolding get_topology read_topology request check extend
slow_read = refl

set_topology_lem_example :
    let after : Result SessionError (Unit {0}) × Service Flash =
      set_topology (loopback platform) topologies wanted started in
    (after.0, after.1.flash) ≡ storing platform wanted started.limits started.profile started.flash
set_topology_lem_example =
    set_topology_lem platform wanted started topologies-RoundTrips started_buffer

get_topology_lem_example :
    get_topology (loopback platform) topologies started ≡ (ok started.active, started)
get_topology_lem_example =
    get_topology_lem platform started (unfold started in omega arith) topologies-RoundTrips

set_profile_lem_example :
    let after : Result SessionError (Unit {0}) × Service Flash =
      set_profile (loopback platform) profiles pico started in
    (after.0, after.1.profile, after.1.flash) ≡ setting platform pico started
set_profile_lem_example = set_profile_lem platform pico started profiles-RoundTrips

get_profile_lem_example :
    get_profile (loopback platform) profiles started ≡ (ok started.profile, started)
get_profile_lem_example =
    get_profile_lem platform started profiles-RoundTrips (unfold started in omega arith)

-- The client's `set_topology`, run on the firmware's service.
stores : Unit {0}
unfolding set_topology send_chunks request check loopback boot boot_profile boot_topology new
    load_topology load_profile handle Vendor.set_topology Vendor.stage Vendor.commit
    Vendor.commit_decoded validate FlashConfig.commit FlashConfig.store claim claim_reset
    claim_probes claim_uarts claim_instances check_budgets instance_of is_assignable
stores = tt

wanted_stored :
    let after : Result SessionError (Unit {0}) × Service Flash =
      set_topology (loopback platform) topologies wanted (boot platform build erased) in
    after.0 ≡ ok tt
unfolding stores
wanted_stored = refl

set_topology-boot_example :
    let after : Result SessionError (Unit {0}) × Service Flash =
      set_topology (loopback platform) platform.topologies wanted (boot platform build erased) in
    let s = boot platform build after.1.flash in
    ((get_topology (loopback platform) platform.topologies s).0 ≡ ok wanted)
    × (s.info.config_fault ≡ false)
    × (s.profile ≡ (boot platform build erased).profile)
set_topology-boot_example =
    set_topology-boot platform topologies-RoundTrips platform-IsStorage wanted build erased
      wanted_stored

-- A worker that counts the commands and answers none.
abbrev counting : List ℕ → ℕ → ℕ × List ℕ
counting request w = (w + 1, [])

abbrev serial_text : List ℕ
serial_text = 48 ∷ 58 ∷ 48 ∷ []

loopback-serve_example :
    let reply = (handle platform dap_packet_size (cmd_get_topology ∷ 0 ∷ []) started).1 in
    let sent : Result SessionError (List ℕ) × Service Flash =
      (loopback platform).transceive (cmd_get_topology ∷ 0 ∷ []) started in
    (first : List ℕ) × (more : List (List ℕ)) × (after : AfterResponse) × (sent.0 ≡ ok first)
    × (serve_request platform counting serial_text ((cmd_get_topology ∷ 0 ∷ []) ∷ []) started 0
        ≡ ((sent.1, 0, ok (first ∷ more, after)), []))
    × (length reply ≤ usb_mps → more ≡ [])
loopback-serve_example =
    loopback-serve platform counting serial_text cmd_get_topology (0 ∷ []) [] started 0 refl
      (omega arith)
