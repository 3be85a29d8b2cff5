-- ===== src/Dap/Framing.antt =====
-- dap-async/src/framing.rs: the length of a request, from the bytes received so far.
-- The arms of the match are functions of their own. An arm that computes a length returns it as an
-- option, where `none` stands for `return NeedMore`, and `settle` is the closure `fixed` behind it.
pub mod Settles
pub mod Prefix
pub mod Unknown
mod Tests
use rustprobe.Common.{
  ℕ, zero, suc, ◌+◌, ◌*◌, Bool, true, false, not, ◌&&◌, ◌||◌, Option, none, some, List, [], ◌∷◌,
  ltb, leb, ◌==◌, if◌then◌else◌, length, get_elem?, get_or, bit_and, u16_from_le, div_ceil_8,
}
use rustprobe.Dap.Command

pub data Framing : Type 0 where
  complete : ℕ → Framing
  need_more unknown : Framing

abbrev pub is_one_of : ℕ → List ℕ → Bool
is_one_of c [] = false
is_one_of c (d ∷ ds) = c == d || is_one_of c ds

-- The closure `fixed`.
unfoldable pub fixed : ℕ → List ℕ → Framing
fixed n buf = if leb n (length buf) then complete n else need_more

unfoldable pub settle : Option ℕ → List ℕ → Framing
settle none buf = need_more
settle (some n) buf = fixed n buf

-- `DAP_SWJ_Sequence`
unfoldable pub swj_sequence_end : List ℕ → Option ℕ
swj_sequence_end buf = elim (get_elem? buf 1) [
  | none ↦ none
  | some n ↦ let bits = (if n == 0 then 256 else n) in some (2 + div_ceil_8 bits)
]

-- `DAP_JTAG_Configure`
unfoldable pub jtag_configure_end : List ℕ → Option ℕ
jtag_configure_end buf = elim (get_elem? buf 1) [ none ↦ none | some n ↦ some (2 + n) ]

-- `DAP_TransferBlock`
unfoldable pub transfer_block_end : List ℕ → Option ℕ
transfer_block_end buf =
    if ltb (length buf) 5
    then none
    else (let count = u16_from_le (get_or buf 2 0) (get_or buf 3 0) in
        let write = bit_and (get_or buf 4 0) 0x02 == 0 in
        some (5 + (if write then count * 4 else 0)))

-- A request byte, and the word behind it for a write and for a read with value match.
unfoldable pub transfer_size : ℕ → ℕ
transfer_size rv =
    let read = not (bit_and rv 0x02 == 0) in
    let match_value = not (bit_and rv 0x10 == 0) in if read && not match_value then 1 else 5

-- `for _ in 0..count`: the entry at `at` starts with a byte that gives its size.
unfoldable pub entries_end : (ℕ → ℕ) → ℕ → ℕ → List ℕ → Option ℕ
entries_end size zero at buf = some at
entries_end size (suc count) at buf = elim (get_elem? buf at) [
  | none ↦ none
  | some v ↦ entries_end size count (at + size v) buf
]

-- `DAP_Transfer`
unfoldable pub transfer_end : List ℕ → Option ℕ
transfer_end buf =
    if ltb (length buf) 3 then none else entries_end transfer_size (get_or buf 2 0) 3 buf

-- An info byte, and the data bytes of an output sequence.
unfoldable pub sequence_size : Bool → ℕ → ℕ
sequence_size jtag info =
    let low = bit_and info 0x3f in
    let bits = (if low == 0 then 64 else low) in
    let carries_data = jtag || bit_and info 0x80 == 0 in
    1 + (if carries_data then div_ceil_8 bits else 0)

-- `DAP_SWD_Sequence` and `DAP_JTAG_Sequence`
unfoldable pub sequence_end : Bool → List ℕ → Option ℕ
sequence_end jtag buf = elim (get_elem? buf 1) [
  | none ↦ none
  | some count ↦ entries_end (sequence_size jtag) count 2 buf
]

-- The `match` on the command.
unfoldable pub dispatch : ℕ → List ℕ → Framing
dispatch c buf =
    if is_one_of c
      (Command.disconnect ∷ Command.transfer_abort ∷ Command.reset_target ∷ Command.swo_status ∷ [])
    then fixed 1 buf
    else if is_one_of c (
        Command.info ∷ Command.connect ∷ Command.swd_configure ∷ Command.jtag_idcode
        ∷ Command.swo_transport ∷ Command.swo_mode ∷ Command.swo_control
        ∷ Command.swo_extended_status ∷ [])
    then fixed 2 buf
    else if is_one_of c (Command.host_status ∷ Command.delay ∷ Command.swo_data ∷ [])
    then fixed 3 buf
    else if is_one_of c (Command.swj_clock ∷ Command.swo_baudrate ∷ [])
    then fixed 5 buf
    else if is_one_of c (Command.transfer_configure ∷ Command.write_abort ∷ [])
    then fixed 6 buf
    else if c == Command.swj_pins
    then fixed 7 buf
    else if c == Command.swj_sequence
    then settle (swj_sequence_end buf) buf
    else if c == Command.jtag_configure
    then settle (jtag_configure_end buf) buf
    else if c == Command.transfer_block
    then settle (transfer_block_end buf) buf
    else if c == Command.transfer
    then settle (transfer_end buf) buf
    else if is_one_of c (Command.swd_sequence ∷ Command.jtag_sequence ∷ [])
    then settle (sequence_end (c == Command.jtag_sequence) buf) buf
    else unknown

unfoldable pub request_len : List ℕ → Framing
request_len [] = need_more
request_len (command ∷ rest) = dispatch command (command ∷ rest)
