-- ===== src/Cli/Commands/Setting.antt =====
-- cli/src/main.rs: `cmd_set` over the firmware.
use rustprobe.Common.{
  ◌-◌, ◌≤◌, ◌≡◌, refl, ap, ◌∙◌, Bool, true, false, some, arith, leb, length, Result, ok, err,
  Result-cases, inl, inr,
}
use rustprobe.Config.{Topology, ValidationError, validate}
use rustprobe.Config.Protocol.{topology_buf_len}
use rustprobe.Firmware.Platform.{Platform, RoundTrips}
use rustprobe.Firmware.Vendor.{Service}
use rustprobe.Toml.Text.{Text}
use rustprobe.Toml.Format.{Format}
use rustprobe.Toml.Board.{TomlBoardProfile}
use rustprobe.Toml.Topologies.{TomlTopology, into_topology}
use rustprobe.Cli.Session.{SessionError, set_topology}
use rustprobe.Cli.Loopback.{loopback, packet_size}
use rustprobe.Cli.Loopback.Commit.{storing, set_topology_lem}
use rustprobe.Cli.Loopback.Profile.{get_profile_lem}
use rustprobe.Cli.Commands.{
  CommandError, session, rejected, Report, topology_written, Formats, and_then, in_command,
  device_profile, finish_set, send_topology, set_from, cmd_set,
}
use rustprobe.Cli.Commands.Device.{info_lem, reboot_lem}

-- The client and the firmware share postcard.
abbrev pub formats :
    {S : Type 0} → Platform S → Format TomlTopology → Format TomlBoardProfile → Formats
formats pf topologies profiles = record {
  toml_topologies = topologies;
  toml_profiles = profiles;
  topologies = pf.topologies;
  profiles = pf.profiles;
  infos = pf.infos;
}

-- A device of this protocol's version, whose identity and profile fit a packet.
pub record IsDevice {S : Type 0} (pf : Platform S) (s : Service S) : Type 0 where
  pub topologies_read : RoundTrips pf.topologies
  pub profiles_read : RoundTrips pf.profiles
  pub infos_read : RoundTrips pf.infos
  pub info_fits : length (pf.infos.encode s.info) ≤ packet_size - 2
  pub profile_fits : length (pf.profiles.encode s.profile) ≤ packet_size - 2
  pub has_profiles : 2 ≤ s.info.protocol_version
  pub same_limits : s.info.limits ≡ s.limits
  pub buffer : length s.buf ≡ topology_buf_len

-- What the session's result comes to as the command's.
abbrev pub reported : Topology → Bool → Result SessionError (Unit {0}) → Result CommandError Report
reported t reboot (ok _) = ok (topology_written (length t.probes) (length t.uarts) reboot)
reported t reboot (err e) = err (session e)

module _ {S : Type 0} (pf : Platform S) where
  -- What setting a topology comes to: the command's result and the flash afterwards. A defect that
  -- validation finds is reported before anything is sent, and else the topology is stored.
  abbrev pub commanding :
      Result ValidationError (Unit {0})
      → Topology
      → Bool
      → Service S
      → Result CommandError Report × S
  commanding (err e) t reboot s = (err (rejected e), s.flash)
  commanding (ok _) t reboot s =
      let stored = storing pf t s.limits s.profile s.flash in (reported t reboot stored.0, stored.1)

  module _ (topologies : Format TomlTopology) (profiles : Format TomlBoardProfile) where
    abbrev fs : Formats
    fs = formats pf topologies profiles

    finish_set_lem :
        (t : Topology) (reboot : Bool) (q : Service S)
        → finish_set (loopback pf) fs t reboot q
          ≡ (ok (topology_written (length t.probes) (length t.uarts) reboot), q)
    unfolding finish_set
    finish_set_lem t true q = rw (reboot_lem pf q)
    finish_set_lem t false q = refl

    after_store :
        (t : Topology) (reboot : Bool) (r : Result SessionError (Unit {0}) × Service S)
        → let after : Result CommandError Report × Service S =
            and_then (in_command session r) (λ _. finish_set (loopback pf) fs t reboot) in
          ◌≡◌ {A = Result CommandError Report × S}
            (after.0, after.1.flash)
            (reported t reboot r.0, r.1.flash)
    after_store t reboot (err e, q) = refl
    after_store t reboot (ok _, q) = rw (finish_set_lem t reboot q)

    send_topology_lem :
        (t : Topology) (reboot : Bool) (s : Service S)
        → IsDevice pf s
        → let after : Result CommandError Report × Service S =
            send_topology (loopback pf) fs t reboot s.info s.profile s in
          (after.0, after.1.flash) ≡ commanding (validate t s.limits s.profile) t reboot s
    unfolding send_topology
    send_topology_lem t reboot s d =
        let same : validate t s.info.limits s.profile ≡ validate t s.limits s.profile =
          ap (λ l. validate t l s.profile) d.same_limits in
        elim (Result-cases (validate t s.limits s.profile)) [
          | inr (x, e) ↦ rw (same, e)
          | inl (u, e) ↦
              rw (same, e)
                (after_store t reboot (set_topology (loopback pf) pf.topologies t s)
                  ∙ ap (λ (r : Result SessionError (Unit {0}) × S). (reported t reboot r.0, r.1))
                      (set_topology_lem pf t s d.topologies_read d.buffer))
        ]

    device_profile_lem :
        (s : Service S)
        → IsDevice pf s
        → device_profile (loopback pf) fs s.info s ≡ (ok s.profile, s)
    unfolding device_profile
    device_profile_lem s d =
        let recent : leb 2 s.info.protocol_version ≡ true = ground (arith, d.has_profiles) in
        rw (recent, get_profile_lem pf s d.profiles_read d.profile_fits)

    set_from_lem :
        (t : Topology) (reboot : Bool) (s : Service S)
        → IsDevice pf s
        → set_from (loopback pf) fs t reboot s
          ≡ send_topology (loopback pf) fs t reboot s.info s.profile s
    unfolding set_from
    set_from_lem t reboot s d = rw (info_lem pf s d.infos_read d.info_fits, device_profile_lem s d)

    -- For a device of the protocol with board profiles, whose identity and profile fit a packet, and a
    -- file that reads to a topology, `cmd_set` returns and leaves the flash as `commanding` says: what
    -- the device's own validation would find is reported by the client before anything is stored, and
    -- any other topology is stored as `set_topology` does it.
    pub cmd_set_lem :
        (text : Text) (file : TomlTopology) (t : Topology) (reboot : Bool) (s : Service S)
        → IsDevice pf s
        → topologies.from_str text ≡ some file
        → into_topology file ≡ ok t
        → let after : Result CommandError Report × Service S =
            cmd_set (loopback pf) (formats pf topologies profiles) (some text) reboot s in
          (after.0, after.1.flash) ≡ commanding (validate t s.limits s.profile) t reboot s
    unfolding cmd_set
    cmd_set_lem text file t reboot s d e e' =
        rw (e, e', set_from_lem t reboot s d) (send_topology_lem t reboot s d)
