-- ===== src/Dap/Framing/Unknown.antt =====
-- dap-async/src/framing.rs: the commands that are not framed.
use rustprobe.Common.{ℕ, ◌+◌, ◌≤◌, ◌≡◌, List, ◌∷◌, arith}
use rustprobe.Dap.Command
use rustprobe.Dap.Framing.{unknown, dispatch, request_len}

-- A command above the last of CMSIS-DAP is unknown, however many bytes follow it.
pub request_len-unknown :
    (c : ℕ) (args : List ℕ) → Command.swo_extended_status + 1 ≤ c → request_len (c ∷ args) ≡ unknown
unfolding request_len dispatch
request_len-unknown c args h = ground arith
