-- ===== src/Dap/Transfers.antt =====
-- dap-async/src/dap.rs: DAP_Transfer and DAP_TransferBlock.
-- The local variables of the loop are a record; a step returns them with whether the loop goes on
-- or was left by `break`.
pub mod Replies
pub mod Pipeline
pub mod Steps
pub mod Delivery
pub mod Sequence
use rustprobe.Common.{
  ℕ, zero, suc, ◌+◌, ◌*◌, Bool, true, false, not, ◌&&◌, ◌||◌, List, [], ◌∷◌, ◌==◌, ltb,
  if◌then◌else◌, bit_and, bit_or,
}
use rustprobe.Dap.Io.{Response, u8, bytes, u16, u32, put_u32, fill, truncate, set_u8, set_u16}
use rustprobe.Dap.Swd.{
  apndp, rnw, match_value, match_mask, timestamp, rdbuff_read, ack_ok, ack_mismatch, Transfer,
}
use rustprobe.Dap.Machine.{
  Probe, Dap, Action, pure, fail, ◌>>=◌, ◌>>◌, take_req, respond, reserve_req, patch, modify, gets,
  drive,
}

pub record Progress : Type 0 where
  pub count : ℕ
  pub status : ℕ
  pub post_read : Bool
  pub check_write : Bool

pub data Flow : Type 0 where
  go_on stop : Progress → Flow

abbrev pub start : Progress
start = record { count = 0; status = 0; post_read = false; check_write = false }

-- `rv & flag != 0`
abbrev pub is_set : ℕ → ℕ → Bool
is_set rv flag = not (bit_and rv flag == 0)

module _ {D T : Type 0} where
  -- The rest of an iteration, unless the loop was left.
  abbrev pub proceed : Action D T Flow → (Progress → Action D T Flow) → Action D T Flow
  proceed m k = do f ← m; elim f [ stop p ↦ pure (stop p) | go_on p ↦ k p ]

  -- `if status != ack::OK { break; }` with the status stored before.
  abbrev pub check : Progress → ℕ → Action D T Flow
  check p ack = pure (
      if ack == ack_ok then go_on (record p { status = ack }) else stop (record p { status = ack }))

module _ {D T : Type 0} (probe : Probe D) where
  unfoldable pub xfer : ℕ → ℕ → Action D T Transfer
  xfer request word = do
    params ← gets (λ s. s.params)
    wait ← gets (λ s. s.wait_retries)
    drive (probe.retry params wait request word)

  -- `if rv & req::TIMESTAMP != 0 { resp.u32(self.driver.timestamp())?; }`
  unfoldable pub stamp : ℕ → Action D T (Unit {0})
  stamp rv = do
    now ← gets (λ s. probe.timestamp s.driver)
    if is_set rv timestamp then respond (put_u32 now) else pure tt

  -- `if post_read { .. }` of a read.
  unfoldable pub collect : ℕ → Progress → Action D T Flow
  collect rv p =
      if p.post_read
      then (do
        let plain = bit_and rv (bit_or apndp match_value) == apndp
        t ← xfer (if plain then rv else rdbuff_read) 0
        proceed (check (record p { post_read = plain }) t.ack)
            (λ p. do respond (put_u32 t.word); if plain then stamp rv else pure tt; pure (go_on p)))
      else pure (go_on p)

  -- The inner `loop`, with `match_retry` attempts left: the last transfer.
  unfoldable pub match_loop : ℕ → ℕ → ℕ → Action D T Transfer
  match_loop rv target zero = xfer rv 0
  match_loop rv target (suc match_retry) = do
    t ← xfer rv 0
    mask ← gets (λ s. s.match_mask)
    if not (t.ack == ack_ok) || bit_and t.word mask == target
        then pure t
        else match_loop rv target match_retry

  -- A read with value match.
  unfoldable pub read_match : ℕ → Progress → Action D T Flow
  read_match rv p = do
    target ← take_req u32
    match_retry ← gets (λ s. s.match_retries)
    proceed (if is_set rv apndp then (do t ← xfer rv 0; check p t.ack) else pure (go_on p)) (λ p. do
      t ← match_loop rv target match_retry
      mask ← gets (λ s. s.match_mask)
      let mismatch = t.ack == ack_ok && not (bit_and t.word mask == target)
      check p (if mismatch then bit_or t.ack ack_mismatch else t.ack))

  -- A read of an AP register.
  unfoldable pub read_ap : ℕ → Progress → Action D T Flow
  read_ap rv p = if p.post_read then pure (go_on p) else (do
    t ← xfer rv 0
    proceed (check p t.ack) (λ p. do stamp rv; pure (go_on (record p { post_read = true }))))

  -- A read of a DP register.
  unfoldable pub read_dp : ℕ → Progress → Action D T Flow
  read_dp rv p = do
    t ← xfer rv 0
    proceed (check p t.ack) (λ p. do stamp rv; respond (put_u32 t.word); pure (go_on p))

  unfoldable pub read_step : ℕ → Progress → Action D T Flow
  read_step rv p = proceed (collect rv p) (λ p.
      proceed
        (if is_set rv match_value
          then read_match rv p
          else if is_set rv apndp
          then read_ap rv p
          else read_dp rv p)
        (λ p. pure (go_on (record p { check_write = false }))))

  -- `if post_read { .. }` of a write.
  unfoldable pub collect_last : Progress → Action D T Flow
  collect_last p =
      if p.post_read
      then (do
        t ← xfer rdbuff_read 0
        proceed (check p t.ack)
            (λ p. do respond (put_u32 t.word); pure (go_on (record p { post_read = false }))))
      else pure (go_on p)

  unfoldable pub write_step : ℕ → Progress → Action D T Flow
  write_step rv p = proceed (collect_last p) (λ p. do
    word ← take_req u32
    if is_set rv match_mask
        then (do
          modify (λ s. record s { match_mask = word })
          pure (go_on (record p { status = ack_ok })))
        else (do
          t ← xfer rv word
          proceed (check p t.ack)
              (λ p. do stamp rv; pure (go_on (record p { check_write = true })))))

  -- The loop body, but for the count.
  unfoldable pub transfer_one : Progress → Action D T Flow
  transfer_one p = do rv ← take_req u8; if is_set rv rnw then read_step rv p else write_step rv p

  -- `while remaining > 0`
  unfoldable pub transfers : ℕ → Progress → Action D T Progress
  transfers zero p = pure p
  transfers (suc remaining) p = do
    f ← transfer_one p
    elim f [ stop p ↦ pure p | go_on p ↦ transfers remaining (record p { count = p.count + 1 }) ]

  -- The block behind the loop: the final status.
  unfoldable pub finish : Progress → Action D T ℕ
  finish p =
      if p.status == ack_ok
      then (if p.post_read
          then (do
            t ← xfer rdbuff_read 0
            if t.ack == ack_ok then respond (put_u32 t.word) else pure tt
            pure t.ack)
          else if p.check_write
          then (do t ← xfer rdbuff_read 0; pure t.ack)
          else pure p.status)
      else pure p.status

  unfoldable pub transfer : Action D T (Unit {0})
  transfer = do
    index ← take_req u8
    remaining ← take_req u8
    head ← reserve_req 2
    p ← transfers remaining start
    status ← finish p
    patch (set_u8 head p.count)
    patch (set_u8 (head + 1) status)

  -- The data phase of `transfer_block`: the count and the status.
  unfoldable pub block_phase : ℕ → Action D T (ℕ × ℕ)
  block_phase total = do
    rv ← take_req u8
    params ← gets (λ s. s.params)
    wait ← gets (λ s. s.wait_retries)
    if is_set rv rnw
        then (do
          at ← reserve_req (total * 4)
          (stored, count, status) ← drive (probe.read_block params wait rv (total * 4))
          patch (fill at stored)
          patch (truncate (at + count * 4))
          pure (count, status))
        else (do
          data_bytes ← take_req (bytes (total * 4))
          drive (probe.write_block params wait rv data_bytes))

  unfoldable pub transfer_block : Action D T (Unit {0})
  transfer_block = do
    index ← take_req u8
    total ← take_req u16
    head ← reserve_req 3
    (count, status) ← (if ltb 0 total then block_phase total else pure (0, 0))
    patch (set_u16 head count)
    patch (set_u8 (head + 2) status)
