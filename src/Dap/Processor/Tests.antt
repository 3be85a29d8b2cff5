-- ===== src/Dap/Processor/Tests.antt =====
-- Exchanges of the command processor with a target that posts its AP reads.
use rustprobe.Common.{
  ℕ, ◌+◌, ◌≡◌, ◌≢◌, refl, arith, false, List, [], ◌∷◌, ◌==◌, if◌then◌else◌, bit_and, take, ltb,
  replicate, All,
}
use rustprobe.Dap.Command
use rustprobe.Dap.Io
use rustprobe.Dap.Swd.{Driver, Transfer, apndp, rnw, rdbuff_read, ack_ok, default_params}
use rustprobe.Dap.Machine.{Probe, Dap, new, take_req, gets, respond, ◌>>=◌, ◌>>◌}
use rustprobe.Dap.Handlers.{swj_clock, info}
use rustprobe.Dap.Io.{u8, u32, set_u8, put_u8, put_slice}
use rustprobe.Dap.Transfers.{is_set}
use rustprobe.Dap.Transfers.Pipeline.{
  Op, read, write, IsPlain, IsPlainRead, IsPlainWrite, words_le, Registers, IsPipelined,
}
use rustprobe.Dap.Transfers.Sequence.{encode_all}
use rustprobe.Dap.Processor.{process_command, handler, reply}
use rustprobe.Dap.Processor.Reply.{IsAnswer, process_command-IsAnswer}
use rustprobe.Dap.Processor.Exchange.{process_command-pipelined}

-- The address of the next AP read, which fetches the address plus seven, and the posted word.
abbrev Target : Type 0
Target = ℕ × ℕ

abbrev done : ℕ → Transfer
done w = record { ack = ack_ok; word = w }

abbrev access : ℕ → ℕ → Target → Transfer × Target
access rv word d =
    if is_set rv rnw
    then (if is_set rv apndp
        then (done d.1, (d.0 + 1, d.0 + 7))
        else if bit_and rv 0x0f == rdbuff_read
        then (done d.1, d)
        else (done 42, d))
    else (done 0, (word, d.1))

abbrev port : Driver Target
port = record { transfer = λ rv word params d. access rv word d }

abbrev bench : Probe Target
bench = record {
  base = port;
  set_clock = λ hz d. (ltb 0 hz, d);
  connect = λ d. d;
  disconnect = λ d. d;
  write_sequence = λ bits bs d. d;
  read_sequence = λ bits d. ([], d);
  swj_pins = λ output mask wait d. (128, d);
  retry = λ params wait rv word d. access rv word d;
  read_block = λ params wait rv room d. (([], 0, 0), d);
  write_block = λ params wait rv bs d. ((0, 0), d);
  timestamp = λ d. 9;
  host_status = λ status d. d;
  sequence_fits = λ bits d. omega arith;
  block_fits = λ params wait rv room d. omega arith;
}

abbrev cells : Registers ℕ
cells = record {
  ap_read = λ rv a. (a + 7, a + 1);
  dp_read = λ rv a. (42, a);
  store = λ rv word a. word;
}

other_read : (rv : ℕ) → bit_and rv 0x0f ≢ rdbuff_read → (bit_and rv 0x0f == rdbuff_read) ≡ false
other_read rv h = ground arith

abbrev bench_target : IsPipelined bench cells default_params 100
bench_target = record {
  view = λ d. d.0;
  posted = λ d. d.1;
  reads_ap = λ rv d ap rd. rw (rd, ap) (refl, refl, refl, refl);
  reads_dp = λ rv d dp rd h. (let other = other_read rv h in rw (rd, dp, other) (refl, refl, refl));
  reads_rdbuff = λ d. (refl, refl, refl);
  writes = λ rv word d wr. rw wr (refl, refl);
}

abbrev idle : Dap Target ℕ
unfolding new
idle = new (16, 0) 0 (50 ∷ 46 ∷ 49 ∷ []) 64

abbrev wait_us : ℕ → ℕ → ℕ
wait_us us t = t + us

-- Two AP reads, a DP read of CTRL/STAT, a write and an AP read.
abbrev mixed : List Op
mixed = read 3 ∷ read 3 ∷ read 6 ∷ write 5 100 ∷ read 3 ∷ []

plain_ap_read : IsPlainRead 3
plain_ap_read = record {
  reads = refl;
  no_match = refl;
  no_stamp = refl;
  no_rdbuff = λ e. omega arith;
}

plain_dp_read : IsPlainRead 6
plain_dp_read = record {
  reads = refl;
  no_match = refl;
  no_stamp = refl;
  no_rdbuff = λ e. omega arith;
}

plain_write : IsPlainWrite 5 100
plain_write = record { writes = refl; no_mask = refl; no_stamp = refl; fits = omega arith }

mixed-IsPlain : All IsPlain mixed
mixed-IsPlain =
    (plain_ap_read, (plain_ap_read, (plain_dp_read, (plain_write, (plain_ap_read, tt)))))

process_command-pipelined_example :
    let (dap', buf, len) =
      process_command bench wait_us idle
        (Command.transfer ∷ 0 ∷ 5 ∷ encode_all mixed)
        (replicate 32 0) in
    (take len buf ≡ Command.transfer ∷ 5 ∷ ack_ok ∷ words_le (23 ∷ 24 ∷ 42 ∷ 107 ∷ []))
    × (dap'.driver.0 ≡ 101)
unfolding idle
process_command-pipelined_example =
    process_command-pipelined bench wait_us idle cells bench_target 0 mixed (replicate 32 0)
      mixed-IsPlain (λ e. ground arith) (omega arith)

process_command-IsAnswer_example :
    IsAnswer Target ℕ
      (Command.swj_pins ∷ 0 ∷ [])
      (1 ∷ 2 ∷ 3 ∷ [])
      (process_command bench wait_us idle (Command.swj_pins ∷ 0 ∷ []) (1 ∷ 2 ∷ 3 ∷ []))
process_command-IsAnswer_example =
    process_command-IsAnswer bench wait_us idle (Command.swj_pins ∷ 0 ∷ []) (1 ∷ 2 ∷ 3 ∷ [])

-- Requests that are too short, or of an unknown command, and two that are answered.
too_short :
    let (dap', buf, len) =
      process_command bench wait_us idle (Command.swj_clock ∷ 1 ∷ 2 ∷ []) (replicate 8 0) in
    take len buf ≡ Command.swj_clock ∷ Command.dap_error ∷ []
unfolding process_command handler reply new Io.new idle take_req u32 set_u8 swj_clock ◌>>=◌
too_short = refl

unknown_command :
    let (dap', buf, len) = process_command bench wait_us idle (0x7e ∷ 1 ∷ []) (replicate 8 0) in
    take len buf ≡ Command.invalid ∷ []
unfolding process_command handler reply new Io.new idle set_u8
unknown_command = refl

fw_version :
    let (dap', buf, len) =
      process_command bench wait_us idle
        (Command.info ∷ Command.info_fw_version ∷ [])
        (replicate 8 0) in
    take len buf ≡ Command.info ∷ 3 ∷ 50 ∷ 46 ∷ 49 ∷ []
unfolding process_command handler reply new Io.new idle take_req u8 set_u8 info ◌>>=◌ ◌>>◌ gets
    respond put_u8 put_slice
fw_version = refl
