-- ===== src/Firmware/Engine/Prompt.antt =====
-- firmware/src/dap.rs: the transfer future on hardware whose FIFOs take and deliver words at once. No real
-- FIFO does that in every state; the examples run on such hardware because it is simple.
use mathlib.Core.Path.{subst}
use rustprobe.Common.{
  ℕ, zero, suc, ◌+◌, ◌-◌, ◌*◌, ◌/◌, ◌%◌, ◌^◌, ◌≡◌, refl, sym, inl, inr, Bool, true, false, ◌&&◌,
  some, arith, ltb, leb, if◌then◌else◌, bit_and, get_or, Bool-cases,
}
use rustprobe.Common.Bits.{bit_and_halves, bit_and-pow, digit}
use rustprobe.Dap.Swd.{Driver, Transfer, TransferParams, packet, rnw}
use rustprobe.Firmware.Engine.{
  Bus, PioSwd, ready, pending, TransferState, at_start, at_request, Plan, Cursor, new_cursor,
  is_pull, try_pulls, try_pushes, step_from, step, result, plan_data, plan_request, poll_data,
  poll_request, poll_start, transfer_poll, reads, yield_every, CmdAddrs,
}
use rustprobe.Firmware.Engine.Futures.Laws.{
  Finishes, Resumes, finishes_lem, ready-Resumes, pending-Resumes,
}
use rustprobe.Firmware.Engine.Futures.Retry.{others_run, IsTransfer}

-- A push finds room, and a pull finds a word.
pub record IsPrompt {H : Type 0} (hw : Bus H) : Type 0 where
  pub accepts : (v : ℕ) (h : H) → (hw.try_push v h).0 ≡ true
  pub delivers : (h : H) → (v : ℕ) × ((hw.try_pull h).0 ≡ some v)

nibble : (r : ℕ) → bit_and r 15 ≡ r % 16
unfolding digit
nibble r = omega (
  arith,
  bit_and_halves r 15,
  bit_and_halves (r / 2) 7,
  bit_and_halves (r / 2 / 2) 3,
  bit_and-pow (r / 2 / 2 / 2) 0,
)

nibble_nibble : (r : ℕ) → bit_and (bit_and r 15) 15 ≡ bit_and r 15
nibble_nibble r = omega (arith, nibble r, nibble (bit_and r 15))

read_bit : (r : ℕ) → bit_and r 2 ≡ r / 2 % 2 * 2
unfolding digit
read_bit r = omega (arith, bit_and-pow r 1)

-- Only the low nibble of a request matters.
reads_nibble : (r : ℕ) → bit_and (bit_and r 15) rnw ≡ bit_and r rnw
reads_nibble r = omega (arith, nibble r, read_bit r, read_bit (bit_and r 15))

packet_nibble : (r : ℕ) → packet (bit_and r 0x0f) ≡ packet r
unfolding packet
packet_nibble r = rw (nibble_nibble r)

plan_nibble :
    (addrs : CmdAddrs) (r trn : ℕ)
    → plan_request addrs (bit_and r 0x0f) trn ≡ plan_request addrs r trn
unfolding plan_request
plan_nibble addrs r trn = rw (packet_nibble r)

module _ {H : Type 0} (hw : Bus H) (prompt : IsPrompt hw) where
  pulls_prompt : (n : ℕ) (h : H) → (v : ℕ) × ((try_pulls hw n h).0 ≡ some v)
  unfolding try_pulls
  pulls_prompt zero h = prompt.delivers h
  pulls_prompt (suc n) h = let (v, e) = prompt.delivers h in (v, rw (try_pulls, e))

  pushes_prompt : (n v : ℕ) (h : H) → (try_pushes hw n v h).0 ≡ true
  unfolding try_pushes
  pushes_prompt zero v h = prompt.accepts v h
  pushes_prompt (suc n) v h = rw (try_pushes, prompt.accepts v h)

  step_from_prompt :
      (left spin : ℕ) (plan : Plan) (cur : Cursor) (h : H)
      → (step_from hw left spin plan cur h).0 ≡ true
  unfolding step_from
  step_from_prompt zero spin plan cur h = refl
  step_from_prompt (suc left) spin plan cur h = elim (Bool-cases (is_pull plan cur.idx)) [
    | inl p ↦
        let (v, e) = pulls_prompt spin h in
        rw (step_from, p, e) (step_from_prompt left spin plan _ _)
    | inr p ↦ rw (step_from, p, pushes_prompt spin _ h) (step_from_prompt left spin plan _ _)
  ]

  step_prompt : (plan : Plan) (cur : Cursor) (d : PioSwd H) → (step hw plan cur d).0 ≡ true
  unfolding step
  step_prompt plan cur d = step_from_prompt _ _ plan cur d.bus

  -- The exchange of a transfer, both stages in one go.
  abbrev exchange :
      Bool → ℕ → TransferParams → Plan → PioSwd H → Transfer × TransferState × PioSwd H
  exchange rd word p plan d =
      let (c, cur, d1) = step hw plan new_cursor d in
      let trn = p.turnaround in
      let ack = bit_and (get_or cur.out 0 0 / 2 ^ (32 - (trn + 3)) / 2 ^ trn) 7 in
      let data_plan = plan_data d1.addrs ack rd word p in
      let (c', cur', d2) = step hw data_plan new_cursor d1 in
      (
        result hw rd word p ack cur',
        record { stage = at_start; ack = ack; plan = data_plan; cur = cur' },
        record d2 { run = d2.run + 1 },
      )

  exchange_lem :
      (rd : Bool) (word : ℕ) (p : TransferParams) (plan : Plan) (x : TransferState) (d : PioSwd H)
      → poll_request hw rd word p (record x { stage = at_request; plan = plan; cur = new_cursor }) d
        ≡ (let (t, st, d') = exchange rd word p plan d in (ready t, st, d'))
  unfolding poll_request poll_data
  exchange_lem rd word p plan x d = rw (step_prompt plan new_cursor d, step_prompt _ new_cursor _)

  -- The driver after the wait that is due after some transfers while other lanes are active.
  abbrev rested : PioSwd H → PioSwd H
  rested d =
      if leb yield_every d.run && ltb 1 (hw.active_lanes d.bus)
      then others_run hw (record d { run = 0 })
      else if leb yield_every d.run
      then record d { run = 0 }
      else d

  abbrev exchange_of : ℕ → ℕ → TransferParams → PioSwd H → Transfer × TransferState × PioSwd H
  exchange_of request word p d =
      exchange (reads hw request word p) word p (plan_request d.addrs request p.turnaround) d

  -- The transfers of the engine on such hardware.
  abbrev pub prompt_driver : Driver (PioSwd H)
  prompt_driver = record {
    transfer = λ request word p d. (let e = exchange_of request word p (rested d) in (e.0, e.2));
  }

  exchange_nibble :
      (request word : ℕ) (p : TransferParams) (d : PioSwd H)
      → exchange_of (bit_and request 0x0f) word p d ≡ exchange_of request word p d
  exchange_nibble request word p d =
      rw (plan_nibble d.addrs request p.turnaround, reads_nibble request)

  fresh_poll :
      (request word : ℕ) (p : TransferParams) (x : TransferState) (d : PioSwd H)
      → x.stage ≡ at_start
      → (leb yield_every d.run && ltb 1 (hw.active_lanes d.bus)) ≡ false
      → transfer_poll hw request word p x d
        ≡ (let (t, st, d') = exchange_of request word p (rested d) in (ready t, st, d'))
  unfolding transfer_poll poll_start
  fresh_poll request word p x d fresh busy = elim (Bool-cases (leb yield_every d.run)) [
    | inl due ↦ rw (fresh, busy, due) (exchange_lem _ word p _ x _)
    | inr early ↦ rw (fresh, busy, early) (exchange_lem _ word p _ x _)
  ]

  waiting_poll :
      (request word : ℕ) (p : TransferParams) (x : TransferState) (d : PioSwd H)
      → x.stage ≡ at_start
      → (leb yield_every d.run && ltb 1 (hw.active_lanes d.bus)) ≡ true
      → transfer_poll hw request word p x d ≡ (pending, x, record d { run = 0 })
  unfolding transfer_poll poll_start
  waiting_poll request word p x d fresh busy =
      let due : leb yield_every d.run ≡ true = ground arith in rw (fresh, busy, due)

  poll_start-Finishes :
      (request word : ℕ) (p : TransferParams) (x : TransferState) (d : PioSwd H)
      → x.stage ≡ at_start
      → (leb yield_every d.run && ltb 1 (hw.active_lanes d.bus)) ≡ false
      → let (t, st, d') = exchange_of request word p (rested d) in
        Finishes (others_run hw) (transfer_poll hw request word p) x d t st d'
  poll_start-Finishes request word p x d fresh busy =
      let (t, st, d') = exchange_of request word p (rested d) in
      finishes_lem (
        subst (λ now. Resumes (others_run hw) (transfer_poll hw request word p) now t st d')
          (sym (fresh_poll request word p x d fresh busy)) ready-Resumes)

  transfer_poll-Finishes :
      (request word : ℕ) (p : TransferParams) (x : TransferState) (d : PioSwd H)
      → x.stage ≡ at_start
      → let (t, st, d') = exchange_of request word p (rested d) in
        Finishes (others_run hw) (transfer_poll hw request word p) x d t st d'
  transfer_poll-Finishes request word p x d fresh =
      elim (Bool-cases (leb yield_every d.run && ltb 1 (hw.active_lanes d.bus))) [
        | inr busy ↦ poll_start-Finishes request word p x d fresh busy
        | inl busy ↦
            let d1 : PioSwd H = others_run hw (record d { run = 0 }) in
            let there : rested d ≡ d1 = rw busy in
            let (t, st, d') = exchange_of request word p d1 in
            rw there (
              finishes_lem (
                subst (λ now. Resumes (others_run hw) (transfer_poll hw request word p) now t st d')
                  (sym (waiting_poll request word p x d fresh busy))
                  (pending-Resumes (poll_start-Finishes request word p x d1 fresh refl))))
      ]

  -- On hardware whose FIFOs take and deliver words at once, every transfer future gets ready, also
  -- when it first waits for the other lanes; its result is that of one exchange of the low nibble of
  -- the request, and it does not depend on what an earlier transfer left in the future's state.
  pub prompt-IsTransfer : (p : TransferParams) → IsTransfer hw p prompt_driver
  prompt-IsTransfer p = record {
    completes = λ request word x d fresh. (
      (exchange_of request word p (rested d)).1,
      refl,
      subst
          (λ (e : Transfer × TransferState × PioSwd H).
            Finishes (others_run hw) (transfer_poll hw request word p) x d e.0
              (exchange_of request word p (rested d)).1 e.2)
          (sym (exchange_nibble request word p (rested d)))
          (transfer_poll-Finishes request word p x d fresh),
    );
  }
