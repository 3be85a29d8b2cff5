-- ===== src/Firmware/Engine/Tests.antt =====
-- The engine's driver on hardware that answers at once, while another lane is active.
use rustprobe.Common.{
  ℕ, ◌+◌, ◌*◌, ◌≡◌, ◌<◌, ◌⊎◌, ◌%◌, ◌==◌, ◌++◌, if◌then◌else◌, refl, arith, inl, inr, Bool-cases,
  some_inj, none, false, Bool, true, some, List, [], ◌∷◌,
}
use rustprobe.Dap.Swd.{
  TransferParams, ack_ok, default_params, read_block, write_block, transfer_retry,
}
use rustprobe.Firmware.Engine.{
  Bus, CmdAddrs, PioSwd, TransferState, at_start, new_state, plan_request, plan_data, Plan, Cursor,
  step, step_from, try_pulls, try_pushes,
}
use rustprobe.Firmware.Engine.Futures.{Reading, read_poll, retry_poll, write_poll, start_reading}
use rustprobe.Firmware.Engine.Futures.Laws.{Finishes}
use rustprobe.Firmware.Engine.Futures.Retry.{others_run, retry_poll-transfer_retry}
use rustprobe.Firmware.Engine.Futures.Blocks.{read_poll-read_block}
use rustprobe.Firmware.Engine.Futures.Writes.{write_poll-write_block}
use rustprobe.Firmware.Engine.Transcript.{Word, sent, received, IsFifo, Performs, step-Performs}
use rustprobe.Firmware.Engine.Bounds.{Fits, plans-Fits}
use rustprobe.Firmware.Engine.Clock.{
  IsDividerFor, requested, last_request, new_clock, set_swclk_freq_khz, requested-divider,
}
use rustprobe.Firmware.Engine.Prompt.{IsPrompt, prompt_driver, prompt-IsTransfer}

-- Each pull gets a word with OK in the place of the status and even parity.
abbrev answering : Bus ℕ
answering = record {
  try_push = λ v h. (true, h);
  try_pull = λ h. (some 0x20000001, h + 1);
  active_lanes = λ h. 2;
  others = λ h. h + 1000;
  set_khz = λ khz h. h;
  khz = λ h. 1000;
}

answering-IsPrompt : IsPrompt answering
answering-IsPrompt = record { accepts = λ v h. refl; delivers = λ h. (0x20000001, refl) }

abbrev routines : CmdAddrs
routines = record { write_addr = 0; skip_addr = 3; turnaround_addr = 0; read_addr = 8 }

-- Eight transfers without a wait, so that the next one waits.
abbrev engine : PioSwd ℕ
engine = record { bus = 0; addrs = routines; spin = 2; run = 8 }

retry_poll-transfer_retry_example :
    let (t, d') =
      transfer_retry (prompt_driver answering answering-IsPrompt) default_params 100 2 0 engine in
    (x' : TransferState) × (x'.stage ≡ at_start)
    × Finishes
        (others_run answering)
        (retry_poll answering default_params 100 2 0)
        (100, new_state)
        engine
        t
        (100, x')
        d'
retry_poll-transfer_retry_example =
    retry_poll-transfer_retry answering default_params (prompt_driver answering answering-IsPrompt)
      (prompt-IsTransfer answering answering-IsPrompt default_params) 100 2 0 new_state engine refl

read_poll-read_block_example :
    let ((stored, n, ack), d') =
      read_block (prompt_driver answering answering-IsPrompt) default_params 100 3 (4 * 2) engine in
    (o' : Reading) × (x' : TransferState) × (o'.out ≡ stored)
    × Finishes
        (others_run answering)
        (read_poll answering default_params 100 3 2)
        (start_reading 3, (100, new_state))
        engine
        (n, ack)
        (o', (100, x'))
        d'
read_poll-read_block_example =
    read_poll-read_block answering default_params (prompt_driver answering answering-IsPrompt)
      (prompt-IsTransfer answering answering-IsPrompt default_params) 100 3 2 engine (omega arith)
      (omega arith)

abbrev eight : List ℕ
eight = 1 ∷ 2 ∷ 3 ∷ 4 ∷ 5 ∷ 6 ∷ 7 ∷ 8 ∷ []

write_poll-write_block_example :
    let ((n, ack), d') =
      write_block (prompt_driver answering answering-IsPrompt) default_params 100 1 eight engine in
    (o' : ℕ) × (x' : TransferState) × Finishes
      (others_run answering)
      (write_poll answering default_params 100 1 eight 2)
      (0, (100, new_state))
      engine
      (n, ack)
      (o', (100, x'))
      d'
write_poll-write_block_example =
    write_poll-write_block answering default_params (prompt_driver answering answering-IsPrompt)
      (prompt-IsTransfer answering answering-IsPrompt default_params) 100 1 2 eight engine
      (omega arith) (omega arith) refl

abbrev long_params : TransferParams
long_params = record { turnaround = 4; data_phase = true; idle_cycles = 7 }

plans-Fits_example :
    Fits (plan_request routines 1 4) × Fits (plan_data routines ack_ok Bool.false 99 long_params)
plans-Fits_example = plans-Fits routines 1 ack_ok 99 Bool.false long_params

-- 20 MHz requested twice at a system clock of 125 MHz, with a zero before.
abbrev requests : List ℕ
requests = 0 ∷ 20000 ∷ 20000 ∷ []

requests_run :
    requested 125_000_000 requests (new_clock 125_000_000 1)
    ≡ record { cached_freq_khz = 20000; divider = 2 }
unfolding requested new_clock set_swclk_freq_khz
requests_run = refl

requested-divider_example :
    IsDividerFor 125_000_000 20000
      (requested 125_000_000 requests (new_clock 125_000_000 1)).divider
unfolding last_request
requested-divider_example = requested-divider 125_000_000 1 requests

-- FIFOs that refuse every second access, with the time and what has gone through them.
abbrev shy : Bus (ℕ × List Word)
shy = record {
  try_push = λ v h.
      (if h.0 % 2 == 0 then (true, (h.0 + 1, h.1 ++ (sent v ∷ []))) else (false, (h.0 + 1, h.1)));
  try_pull = λ h.
      (if h.0 % 2 == 0
        then (some 7, (h.0 + 1, h.1 ++ (received 7 ∷ [])))
        else (none, (h.0 + 1, h.1)));
  active_lanes = λ h. 2;
  others = λ h. h;
  set_khz = λ khz h. h;
  khz = λ h. 1000;
}

shy-IsFifo : IsFifo shy (λ h. h.1)
shy-IsFifo = record {
  pushed = λ v h k. elim (Bool-cases (h.0 % 2 == 0)) [ inl e ↦ rw e refl | inr e ↦ cc (rw e at k) ];
  full = λ v h k. elim (Bool-cases (h.0 % 2 == 0)) [ inl e ↦ cc (rw e at k) | inr e ↦ rw e refl ];
  pulled = λ v h k. elim (Bool-cases (h.0 % 2 == 0)) [
    | inl e ↦ let same : 7 ≡ v = some_inj (rw e at k) in rw (e, same) refl
    | inr e ↦ cc (rw e at k)
  ];
  empty = λ h k. elim (Bool-cases (h.0 % 2 == 0)) [ inl e ↦ cc (rw e at k) | inr e ↦ rw e refl ];
}

-- Two words of a request have gone through, and the driver does not wait.
abbrev halfway : Cursor
halfway = record { idx = 2; n_out = 0; out = 0 ∷ 0 ∷ [] }

abbrev impatient : PioSwd (ℕ × List Word)
impatient = record { bus = (0, []); addrs = routines; spin = 0; run = 0 }

abbrev request_plan : Plan
request_plan = plan_request routines 1 1

step-Performs_example :
    let (complete, cur', drv') = step shy request_plan halfway impatient in
    (words : List Word) × Performs request_plan halfway cur' words
    × (drv'.bus.1 ≡ [] ++ words)
    × (((complete ≡ true) × (cur'.idx ≡ request_plan.len))
        ⊎ ((complete ≡ false) × (cur'.idx < request_plan.len)))
unfolding plan_request
step-Performs_example =
    step-Performs shy (λ h. h.1) request_plan halfway impatient shy-IsFifo (omega arith)

-- The command is sent, and the pull behind it is refused.
halfway_run : (step shy request_plan halfway impatient).1.idx ≡ 3
unfolding plan_request step step_from try_pulls try_pushes
halfway_run = refl
