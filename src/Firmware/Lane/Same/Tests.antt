-- ===== src/Firmware/Lane/Same/Tests.antt =====
-- `DAP_Info` on both cores, for a probe without hardware.
use rustprobe.Common.{ℕ, ◌+◌, ◌≡◌, refl, arith, true, [], ◌∷◌, replicate, take}
use rustprobe.Dap.Command
use rustprobe.Dap.Swd.{ack_ok, default_params}
use rustprobe.Dap.Machine.{Probe, Dap}
use rustprobe.Dap.Processor.{process_command}
use rustprobe.Firmware.Lane.{dap_fw_version, dap_packet_size, dap_info_response}
use rustprobe.Firmware.Lane.Same.{process_command-dap_info_response}

abbrev silent : Probe ℕ
silent = record {
  base = record { transfer = λ request word params d. (record { ack = ack_ok; word = 0 }, d) };
  set_clock = λ hz d. (true, d);
  connect = λ d. d;
  disconnect = λ d. d;
  write_sequence = λ bits bs d. d;
  read_sequence = λ bits d. ([], d);
  swj_pins = λ output mask wait d. (0, d);
  retry = λ params wait request word d. (record { ack = ack_ok; word = 0 }, d);
  read_block = λ params wait request room d. (([], 0, 0), d);
  write_block = λ params wait request bs d. ((0, 0), d);
  timestamp = λ d. 0;
  host_status = λ status d. d;
  sequence_fits = λ bits d. omega arith;
  block_fits = λ params wait request room d. omega arith;
}

abbrev firmware_dap : Dap ℕ ℕ
firmware_dap = record {
  driver = 0;
  delay = 0;
  version = dap_fw_version;
  packet_size = dap_packet_size;
  params = default_params;
  wait_retries = 100;
  match_retries = 0;
  match_mask = 0;
}

process_command-dap_info_response_example :
    let (dap', buf, len) =
      process_command silent
        (λ us t. t + us)
        firmware_dap
        (Command.info ∷ Command.info_max_packet_size ∷ [])
        (replicate 16 0) in
    let (dap'', short_buf, short_len) =
      process_command silent (λ us t. t + us) firmware_dap (Command.info ∷ []) (replicate 16 0) in
    (take len buf
      ≡ dap_info_response (Command.info ∷ Command.info_max_packet_size ∷ []) (65 ∷ 66 ∷ []))
    × (take short_len short_buf ≡ Command.info ∷ Command.dap_error ∷ [])
    × (dap_info_response (Command.info ∷ []) (65 ∷ 66 ∷ []) ≡ Command.info ∷ 0 ∷ [])
process_command-dap_info_response_example =
    process_command-dap_info_response silent (λ us t. t + us) firmware_dap
      Command.info_max_packet_size [] (65 ∷ 66 ∷ []) (replicate 16 0) refl refl (λ e. omega arith)
      (omega arith)
