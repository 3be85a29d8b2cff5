-- ===== src/Cli/Commands/Device.antt =====
-- cli/src/session.rs over firmware/src/vendor.rs: the identity of the device, and a reboot.
use rustprobe.Common.{◌-◌, ◌≤◌, ◌≡◌, refl, true, [], ◌∷◌, arith, leb, length, take, take_ge, ok}
use rustprobe.Config.Protocol.{cmd_info, status_ok}
use rustprobe.Firmware.Platform.{Platform, RoundTrips}
use rustprobe.Firmware.Vendor.{Service, handle, reply}
use rustprobe.Firmware.Vendor
use rustprobe.Cli.Session.{check, request, info, reboot}
use rustprobe.Cli.Loopback.{loopback, packet_size, reply_room}
use rustprobe.Cli.Loopback.Replies.{check-reply}

module _ {S : Type 0} (pf : Platform S) (s : Service S) where
  info_fetched :
      length (pf.infos.encode s.info) ≤ packet_size - 2
      → (loopback pf).transceive (cmd_info ∷ []) s
        ≡ (ok (reply cmd_info status_ok (pf.infos.encode s.info)), s)
  unfolding loopback Vendor.get_info
  info_fetched short =
      let room : leb (length (pf.infos.encode s.info)) (reply_room - 2) ≡ true = ground arith in
      let packet : take (packet_size - 2) (pf.infos.encode s.info) ≡ pf.infos.encode s.info =
        take_ge _ _ short in
      rw (room, packet, Vendor.get_info)

  pub info_lem :
      RoundTrips pf.infos
      → length (pf.infos.encode s.info) ≤ packet_size - 2
      → info (loopback pf) pf.infos s ≡ (ok s.info, s)
  unfolding info request
  info_lem round short =
      rw (info_fetched short, check-reply cmd_info (pf.infos.encode s.info), round s.info)

  pub reboot_lem : reboot (loopback pf) s ≡ (ok tt, s)
  unfolding reboot request loopback check
  reboot_lem = refl
