-- ===== src/Cli/Loopback.antt =====
-- cli/src/transport.rs and the firmware behind it: a request is one packet, and the client reads one
-- packet of the reply. A request of more than the 64 bytes of the real endpoint's packet is taken as
-- one packet too.
pub mod Replies
pub mod Store
pub mod Commit
pub mod Fetch
pub mod Profile
pub mod Reboot
pub mod Serve
use rustprobe.Common.{ℕ, List, ok, take}
use rustprobe.Firmware.Platform.{Platform}
use rustprobe.Firmware.Vendor.{Service, handle}
use rustprobe.Cli.Session.{Link}

-- `DAP_PACKET_SIZE` of the firmware, which is the room for a reply, and `PACKET_SIZE` of the client.
abbrev pub reply_room : ℕ
reply_room = 512

abbrev pub packet_size : ℕ
packet_size = 64

unfoldable pub loopback : {S : Type 0} → Platform S → Link (Service S)
unfolding handle
loopback pf = record {
  transceive =
      λ req s. let (s', reply, _) = handle pf reply_room req s in (ok (take packet_size reply), s');
}
