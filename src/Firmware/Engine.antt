-- ===== src/Firmware/Engine.antt =====
-- firmware/src/dap.rs, firmware/src/swd.rs: the driver over the FIFOs of a PIO state machine.
-- `H` is the hardware with everything outside this lane: the FIFOs, the other lanes and the time. A
-- future's poll is a function on its own state and the driver; `others` is what happens to the
-- hardware between a poll that is pending and the next one.
pub mod Futures
pub mod Prompt
pub mod Bounds
pub mod Clock
pub mod Transcript
mod Tests
use rustprobe.Common.{
  ℕ, zero, suc, ◌+◌, ◌-◌, ◌*◌, ◌/◌, ◌%◌, ◌^◌, Bool, true, false, not, ◌&&◌, ◌||◌, Option, none,
  some, List, [], ◌∷◌, ltb, leb, ◌==◌, if◌then◌else◌, set, get_or, replicate, bit_and, bit_or,
  bit_xor, min,
}
use rustprobe.Common.Bits.{has_bit}
use rustprobe.Dap.Swd.{
  packet, count_ones, TransferParams, Transfer, rnw, ack_ok, ack_wait, ack_fault, ack_error,
}

-- `FifoRegs`, `SwdBus`, `ACTIVE_LANES` and the timer.
pub record Bus (H : Type 0) : Type 0 where
  pub try_push : ℕ → H → Bool × H
  pub try_pull : H → Option ℕ × H
  pub active_lanes : H → ℕ
  pub others : H → H
  pub set_khz : ℕ → H → H
  pub khz : H → ℕ

pub record CmdAddrs : Type 0 where
  pub write_addr : ℕ
  pub skip_addr : ℕ
  pub turnaround_addr : ℕ
  pub read_addr : ℕ

-- `CmdAddrs::cmd`
unfoldable pub cmd : ℕ → Bool → ℕ → ℕ
cmd bits out_en addr =
    bit_or (bit_or (bit_and (bits - 1) 0xff) ((if out_en then 1 else 0) * 2 ^ 8)) (addr * 2 ^ 9)

abbrev pub fast_khz : ℕ
fast_khz = 6000

abbrev pub spin_fast : ℕ
spin_fast = 160

abbrev pub spin_slow : ℕ
spin_slow = 2

abbrev pub yield_every : ℕ
yield_every = 8

-- `Plan`: the array `ops` has ten words.
pub record Plan : Type 0 where
  pub ops : List ℕ
  pub pulls : ℕ
  pub len : ℕ

abbrev pub new_plan : Plan
new_plan = record { ops = replicate 10 0; pulls = 0; len = 0 }

-- `Plan::push`, `Plan::pull`, `Plan::is_pull`
abbrev pub push : ℕ → Plan → Plan
push v plan = record plan { ops = set plan.ops plan.len v; len = plan.len + 1 }

abbrev pub pull : Plan → Plan
pull plan = record plan { pulls = bit_or plan.pulls (2 ^ plan.len); len = plan.len + 1 }

abbrev pub is_pull : Plan → ℕ → Bool
is_pull plan i = has_bit plan.pulls i

pub record Cursor : Type 0 where
  pub idx : ℕ
  pub n_out : ℕ
  pub out : List ℕ

abbrev pub new_cursor : Cursor
new_cursor = record { idx = 0; n_out = 0; out = replicate 2 0 }

-- `PioSwd`: `bus` and `fifo` are the hardware.
pub record PioSwd (H : Type 0) : Type 0 where
  pub bus : H
  pub addrs : CmdAddrs
  pub spin : ℕ
  pub run : ℕ

pub data Poll (R : Type 0) : Type 0 where
  ready : R → Poll R
  pending : Poll R

pub data Stage : Type 0 where
  at_start at_request at_data : Stage

pub record TransferState : Type 0 where
  pub stage : Stage
  pub ack : ℕ
  pub plan : Plan
  pub cur : Cursor

abbrev pub new_state : TransferState
new_state = record { stage = at_start; ack = 0; plan = new_plan; cur = new_cursor }

-- The closures and methods that build a plan.
module _ (addrs : CmdAddrs) where
  abbrev pub write_cmd : ℕ → ℕ
  write_cmd bits = cmd bits true addrs.write_addr

  abbrev pub read_cmd : ℕ → ℕ
  read_cmd bits = cmd bits false addrs.read_addr

  abbrev pub hiz_cmd : ℕ → ℕ
  hiz_cmd bits = cmd bits false addrs.turnaround_addr

  abbrev pub dir_cmd : Bool → ℕ
  dir_cmd out = cmd 1 out addrs.skip_addr

  unfoldable pub plan_request : ℕ → ℕ → Plan
  plan_request request trn =
      pull (push (read_cmd (trn + 3)) (push (packet request) (push (write_cmd 8) new_plan)))

  -- The closure `hiz`.
  abbrev pub hiz : ℕ → Plan → Plan
  hiz trn plan = if ltb 0 trn then push 0 (push (hiz_cmd trn) plan) else plan

  abbrev pub idle : ℕ → Plan → Plan
  idle cycles plan = if ltb 0 cycles then push 0 (push (write_cmd cycles) plan) else plan

  unfoldable pub plan_data : ℕ → Bool → ℕ → TransferParams → Plan
  plan_data ack is_read word p =
      let trn = p.turnaround in
      if ack == ack_ok
      then (if is_read
          then pull (
              pull (idle p.idle_cycles (hiz trn (push (read_cmd 1) (push (read_cmd 32) new_plan)))))
          else idle p.idle_cycles (
              push (bit_and (count_ones 32 word) 1)
                (push (write_cmd 1) (push word (push (write_cmd 32) (hiz trn new_plan))))))
      else if ack == ack_wait || ack == ack_fault
      then (let reads =
            (if p.data_phase && is_read then pull (push (read_cmd 33) new_plan) else new_plan) in
          let back = hiz trn reads in
          if p.data_phase && not is_read
          then push 0 (push (write_cmd 1) (push 0 (push (write_cmd 32) back)))
          else back)
      else pull (push (read_cmd (trn + 32 + 1)) new_plan)

module _ {H : Type 0} (hw : Bus H) where
  -- `PioSwd::update_spin`
  unfoldable pub update_spin : PioSwd H → PioSwd H
  update_spin drv = record drv {
    spin = (if leb fast_khz (hw.khz drv.bus) then spin_fast else spin_slow);
  }

  -- `PioSwd::new`, for an engine with the addresses of its program.
  unfoldable pub new : H → CmdAddrs → PioSwd H
  new bus addrs = update_spin (record { bus = bus; addrs = addrs; spin = 0; run = 0 })

  -- The inner loops of `step`, with `n` attempts behind the first one.
  unfoldable pub try_pulls : ℕ → H → Option ℕ × H
  try_pulls zero h = hw.try_pull h
  try_pulls (suc n) h =
      let (got, h') = hw.try_pull h in elim got [ some v ↦ (some v, h') | none ↦ try_pulls n h' ]

  unfoldable pub try_pushes : ℕ → ℕ → H → Bool × H
  try_pushes zero v h = hw.try_push v h
  try_pushes (suc n) v h =
      let (ok, h') = hw.try_push v h in elim ok [ true ↦ (true, h') | false ↦ try_pushes n v h' ]

  -- `while cur.idx < plan.len`, with `left` ops left.
  unfoldable pub step_from : ℕ → ℕ → Plan → Cursor → H → Bool × Cursor × H
  step_from zero spin plan cur h = (true, cur, h)
  step_from (suc left) spin plan cur h = elim (is_pull plan cur.idx) [
    | true ↦
        let (got, h') = try_pulls spin h in
        elim got [
          | none ↦ (false, cur, h')
          | some v ↦
              step_from left spin plan
                (record { idx = cur.idx + 1; n_out = cur.n_out + 1; out = set cur.out cur.n_out v })
                h'
        ]
    | false ↦
        let (ok, h') = try_pushes spin (get_or plan.ops cur.idx 0) h in
        elim ok [
          | false ↦ (false, cur, h')
          | true ↦ step_from left spin plan (record cur { idx = cur.idx + 1 }) h'
        ]
  ]

  -- `PioSwd::step`
  unfoldable pub step : Plan → Cursor → PioSwd H → Bool × Cursor × PioSwd H
  step plan cur drv =
      let spin = (if leb (hw.active_lanes drv.bus) 1 then spin_fast else drv.spin) in
      let (complete, cur', h) = step_from (plan.len - cur.idx) spin plan cur drv.bus in
      (complete, cur', record drv { bus = h })

  -- `Driver::set_clock` of `PioSwd`
  unfoldable pub set_clock : ℕ → PioSwd H → Bool × PioSwd H
  set_clock hz drv =
      if hz == 0
      then (false, drv)
      else (let khz = hz / 1000 in
          (
            true,
            update_spin (record drv { bus = hw.set_khz (if khz == 0 then 1 else khz) drv.bus }),
          ))

  -- `TransferState::poll`, an arm of its loop per definition.
  -- `is_read` is its local variable `rnw`.
  module _ (is_read : Bool) (word : ℕ) (p : TransferParams) where
    unfoldable pub result : ℕ → Cursor → Transfer
    result ack cur =
        if ack == ack_ok && is_read
        then (let value = get_or cur.out 0 0 in
            let parity = get_or cur.out 1 0 / 2 ^ 31 in
            let bad = not (bit_and (bit_xor (count_ones 32 value) parity) 1 == 0) in
            record { ack = (if bad then ack_error else ack_ok); word = value })
        else record { ack = ack; word = 0 }

    unfoldable pub poll_data : TransferState → PioSwd H → Poll Transfer × TransferState × PioSwd H
    poll_data st drv =
        let (complete, cur, drv') = step st.plan st.cur drv in
        if complete
        then (
          ready (result st.ack cur),
          record st { cur = cur; stage = at_start },
          record drv' { run = drv'.run + 1 },
        )
        else (pending, record st { cur = cur }, drv')

    unfoldable pub poll_request :
        TransferState → PioSwd H → Poll Transfer × TransferState × PioSwd H
    poll_request st drv =
        let (complete, cur, drv') = step st.plan st.cur drv in
        let trn = p.turnaround in
        let ack = bit_and (get_or cur.out 0 0 / 2 ^ (32 - (trn + 3)) / 2 ^ trn) 7 in
        if complete
        then poll_data
            (record {
              stage = at_data;
              ack = ack;
              plan = plan_data drv'.addrs ack is_read word p;
              cur = new_cursor;
            })
            drv'
        else (pending, record st { cur = cur }, drv')

  module _ (request word : ℕ) (p : TransferParams) where
    abbrev pub reads : Bool
    reads = not (bit_and request rnw == 0)

    unfoldable pub poll_start : TransferState → PioSwd H → Poll Transfer × TransferState × PioSwd H
    poll_start st drv =
        let due = leb yield_every drv.run in
        let drv' = (if due then record drv { run = 0 } else drv) in
        if due && ltb 1 (hw.active_lanes drv.bus)
        then (pending, st, drv')
        else poll_request reads word p
            (record st {
              stage = at_request;
              plan = plan_request drv.addrs request p.turnaround;
              cur = new_cursor;
            })
            drv'

    unfoldable pub transfer_poll :
        TransferState → PioSwd H → Poll Transfer × TransferState × PioSwd H
    transfer_poll st drv = elim st.stage [
      | at_start ↦ poll_start st drv
      | at_request ↦ poll_request reads word p st drv
      | at_data ↦ poll_data reads word p st drv
    ]
