-- ===== src/Cli/Loopback/Replies.antt =====
-- cli/src/session.rs, `check`, on the successful replies of the firmware.
use rustprobe.Common.{ℕ, ◌≡◌, false, not, List, arith, ltb, ◌==◌, length, ok}
use rustprobe.Config.Protocol.{status_ok}
use rustprobe.Firmware.Vendor.{reply}
use rustprobe.Cli.Session.{check}

pub check-reply : (cmd : ℕ) (payload : List ℕ) → check (reply cmd status_ok payload) cmd ≡ ok tt
unfolding check
check-reply cmd payload =
    let enough : ltb (length (reply cmd status_ok payload)) 2 ≡ false = ground arith in
    let echo : not (cmd == cmd) ≡ false = ground arith in rw (enough, echo)
