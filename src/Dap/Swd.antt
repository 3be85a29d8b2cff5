-- ===== src/Dap/Swd.antt =====
-- dap-async/src/swd.rs: the driver interface and its default transfer loops.
-- `D` is the state of the probe hardware and its target. A block read returns the bytes that it
-- stores at the front of the caller's buffer.
pub mod Posted
pub mod Blocks
pub mod Writes
mod Tests
use rustprobe.Common.{
  ℕ, zero, suc, ◌+◌, ◌*◌, ◌/◌, ◌%◌, ◌^◌, Bool, true, false, not, ◌&&◌, List, [], ◌∷◌, ◌++◌, ◌==◌,
  if◌then◌else◌, length, take, drop, bit_and, bit_or, u32_to_le, u32_from_le,
}

-- `req`
abbrev pub apndp : ℕ
apndp = 0x01

abbrev pub rnw : ℕ
rnw = 0x02

abbrev pub a2 : ℕ
a2 = 0x04

abbrev pub a3 : ℕ
a3 = 0x08

abbrev pub match_value : ℕ
match_value = 0x10

abbrev pub match_mask : ℕ
match_mask = 0x20

abbrev pub timestamp : ℕ
timestamp = 0x80

abbrev pub rdbuff_read : ℕ
rdbuff_read = 0x0e

abbrev pub abort_write : ℕ
abort_write = 0x00

-- `ack`
abbrev pub ack_ok : ℕ
ack_ok = 0x01

abbrev pub ack_wait : ℕ
ack_wait = 0x02

abbrev pub ack_fault : ℕ
ack_fault = 0x04

abbrev pub no_ack : ℕ
no_ack = 0x07

abbrev pub ack_error : ℕ
ack_error = 0x08

abbrev pub ack_mismatch : ℕ
ack_mismatch = 0x10

-- `u8::count_ones`, for a number below `2 ^ n`.
abbrev pub count_ones : ℕ → ℕ → ℕ
count_ones zero m = 0
count_ones (suc n) m = m % 2 + count_ones n (m / 2)

unfoldable pub packet : ℕ → ℕ
packet request =
    let nibble = bit_and request 0x0f in
    let parity = bit_and (count_ones 8 nibble) 1 in
    bit_or (bit_or (bit_or 1 (nibble * 2)) (parity * 2 ^ 5)) (2 ^ 7)

pub record TransferParams : Type 0 where
  pub turnaround : ℕ
  pub data_phase : Bool
  pub idle_cycles : ℕ

-- `TransferParams::default`
abbrev pub default_params : TransferParams
default_params = record { turnaround = 1; data_phase = false; idle_cycles = 0 }

pub record Transfer : Type 0 where
  pub ack : ℕ
  pub word : ℕ

-- The methods of `Driver` that have no default and take part in transfers.
pub record Driver (D : Type 0) : Type 0 where
  pub transfer : ℕ → ℕ → TransferParams → D → Transfer × D

module _ {D : Type 0} (driver : Driver D) (params : TransferParams) where
  unfoldable pub transfer_retry : ℕ → ℕ → ℕ → D → Transfer × D
  transfer_retry zero request word d = driver.transfer (bit_and request 0x0f) word params d
  transfer_retry (suc retry) request word d =
      let r = driver.transfer (bit_and request 0x0f) word params d in
      elim (r.0.ack == ack_wait) [ false ↦ r | true ↦ transfer_retry retry request word r.1 ]

  module _ (wait_retries : ℕ) (request : ℕ) where
    -- The loop of `read_block` with `left` words to read: the bytes stored, the number of words and
    -- the last status.
    unfoldable pub read_words : Bool → ℕ → D → (List ℕ × ℕ × ℕ) × D
    read_words ap zero d = (([], 0, ack_ok), d)
    read_words ap (suc left) d =
        let r = (if ap && left == 0 then rdbuff_read else request) in
        let (t, d') = transfer_retry wait_retries r 0 d in
        let ((stored, n, ack), d'') = read_words ap left d' in
        if not (t.ack == ack_ok)
        then (([], 0, t.ack), d')
        else ((u32_to_le t.word ++ stored, suc n, ack), d'')

    -- `read_block`, for a buffer of `room` bytes.
    unfoldable pub read_block : ℕ → D → (List ℕ × ℕ × ℕ) × D
    unfolding read_words
    read_block room d =
        let count = room / 4 % 2 ^ 16 in
        let ap = not (bit_and request apndp == 0) in
        let (t, d') = transfer_retry wait_retries request 0 d in
        if count == 0
        then (([], 0, 0), d)
        else if ap
        then (if not (t.ack == ack_ok) then (([], 0, t.ack), d') else read_words true count d')
        else read_words false count d

    -- The loop of `write_block` with `left` words to write, and the read behind it: the number of
    -- words written and the status. The data have the bytes for all words.
    unfoldable pub write_words : ℕ → List ℕ → D → (ℕ × ℕ) × D
    write_words (suc left) (a ∷ b ∷ c ∷ e ∷ rest) d =
        let (t, d') = transfer_retry wait_retries request (u32_from_le a b c e) d in
        let ((n, ack), d'') = write_words left rest d' in
        if not (t.ack == ack_ok) then ((0, t.ack), d') else ((suc n, ack), d'')
    write_words _ bs d =
        let (t, d') = transfer_retry wait_retries rdbuff_read 0 d in ((0, t.ack), d')

    -- `write_block`
    unfoldable pub write_block : List ℕ → D → (ℕ × ℕ) × D
    unfolding write_words
    write_block bs d =
        let count = length bs / 4 % 2 ^ 16 in
        if count == 0 then ((0, 0), d) else write_words count bs d

-- `Pins`
abbrev pub pin_swclk : ℕ
pin_swclk = 0x01

abbrev pub pin_swdio : ℕ
pin_swdio = 0x02

abbrev pub pin_nreset : ℕ
pin_nreset = 0x80

unfoldable pub contains : ℕ → ℕ → Bool
contains pins other = bit_and pins other == other

pub data HostStatus : Type 0 where
  connected running : Bool → HostStatus
