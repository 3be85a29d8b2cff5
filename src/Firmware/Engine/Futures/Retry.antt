-- ===== src/Firmware/Engine/Futures/Retry.antt =====
-- firmware/src/dap.rs, dap-async/src/swd.rs: the future of a transfer with retries against the default
-- method `transfer_retry`.
use rustprobe.Common.{
  ℕ, zero, suc, ◌-◌, ◌≡◌, sym, inl, inr, true, false, arith, ◌==◌, ltb, bit_and, Bool-cases,
}
use mathlib.Core.Path.{subst}
use rustprobe.Dap.Swd.{Driver, Transfer, TransferParams, ack_wait, transfer_retry}
use rustprobe.Firmware.Engine.{Bus, PioSwd, TransferState, at_start, transfer_poll}
use rustprobe.Firmware.Engine.Futures.{again, finish, retry_decide, retry_poll}
use rustprobe.Firmware.Engine.Futures.Laws.{
  Finishes, Leads, finish-Leads, again-Leads, loop_poll-Finishes, more_rounds,
}

-- The other lanes run while a future of this lane waits.
abbrev pub others_run : {H : Type 0} → Bus H → PioSwd H → PioSwd H
others_run hw drv = record drv { bus = hw.others drv.bus }

-- The future of a transfer gets ready after some polls, whatever an earlier transfer left in its
-- state; its result is the driver's transfer of the low nibble, which is all that goes on the wire.
pub record IsTransfer {H : Type 0} (hw : Bus H) (p : TransferParams) (driver : Driver (PioSwd H))
    : Type 0 where
  pub completes :
      (request word : ℕ) (x : TransferState) (d : PioSwd H)
      → x.stage ≡ at_start
      → (x' : TransferState) × (x'.stage ≡ at_start)
        × Finishes
            (others_run hw)
            (transfer_poll hw request word p)
            x
            d
            (driver.transfer (bit_and request 0x0f) word p d).0
            x'
            (driver.transfer (bit_and request 0x0f) word p d).1

module _ {H : Type 0} (hw : Bus H) (p : TransferParams) (driver : Driver (PioSwd H))
    (transfers : IsTransfer hw p driver) (wait_retries request word : ℕ) where
  -- The loop of `retry_poll` comes to `t`, ready for the next transfer.
  abbrev RetryLeads : ℕ → TransferState → PioSwd H → Transfer × PioSwd H → Type 0
  RetryLeads n x d (t, d') =
      (x' : TransferState) × (x'.stage ≡ at_start)
      × Leads (others_run hw) (λ retry. transfer_poll hw request word p) (retry_decide wait_retries)
          suc (suc n) n x d t (wait_retries, x') d'

  abbrev first : PioSwd H → Transfer × PioSwd H
  first d = driver.transfer (bit_and request 0x0f) word p d

  retry_again :
      (n : ℕ) (d : PioSwd H)
      → ((first d).0.ack == ack_wait) ≡ true
      → transfer_retry driver p (suc n) request word d
        ≡ transfer_retry driver p n request word (first d).1
  unfolding transfer_retry
  retry_again n d e = rw (e, transfer_retry)

  retry_over :
      (n : ℕ) (d : PioSwd H)
      → ((first d).0.ack == ack_wait) ≡ false
      → transfer_retry driver p (suc n) request word d ≡ first d
  unfolding transfer_retry
  retry_over n d e = rw (e, transfer_retry)

  decide_zero : (t : Transfer) → retry_decide wait_retries 0 t ≡ finish wait_retries t
  decide_zero t = elim (Bool-cases (t.ack == ack_wait)) [ inl e ↦ rw e | inr e ↦ rw e ]

  decide_over :
      (n : ℕ) (t : Transfer)
      → (t.ack == ack_wait) ≡ false
      → retry_decide wait_retries n t ≡ finish wait_retries t
  decide_over n t e = rw e

  decide_again :
      (n : ℕ) (t : Transfer)
      → (t.ack == ack_wait) ≡ true
      → retry_decide wait_retries (suc n) t ≡ again n
  decide_again n t e =
      let more : ltb 0 (suc n) ≡ true = ground arith in
      let less : suc n - 1 ≡ n = omega arith in rw (e, more, less)

  retry_leads :
      (n : ℕ) (x : TransferState) (d : PioSwd H)
      → x.stage ≡ at_start
      → RetryLeads n x d (transfer_retry driver p n request word d)
  unfolding transfer_retry
  retry_leads zero x d fresh =
      let (x', clean, fin) = transfers.completes request word x d fresh in
      (x', clean, finish-Leads _ _ _ _ fin (decide_zero _) (omega arith))
  retry_leads (suc n) x d fresh =
      let (x', clean, fin) = transfers.completes request word x d fresh in
      elim (Bool-cases ((first d).0.ack == ack_wait)) [
        | inr other ↦ subst (RetryLeads (suc n) x d) (sym (retry_over n d other)) (
          x',
          clean,
          more_rounds _ _ _ _ (finish-Leads _ _ _ _ fin (decide_over (suc n) _ other) (omega arith))
              (omega arith),
        )
        | inl waits ↦
            let (x'', clean', more) = retry_leads n x' (first d).1 clean in
            subst (RetryLeads (suc n) x d) (sym (retry_again n d waits))
              (x'', clean', again-Leads _ _ _ _ fin (decide_again n _ waits) (omega arith) more)
      ]

  -- If every transfer future gets ready, then so does the future of a transfer with retries, with the
  -- result of the default method over the single transfers, and with its attempts restored.
  pub retry_poll-transfer_retry :
      (x : TransferState) (d : PioSwd H)
      → x.stage ≡ at_start
      → let (t, d') = transfer_retry driver p wait_retries request word d in
        (x' : TransferState) × (x'.stage ≡ at_start)
        × Finishes
            (others_run hw)
            (retry_poll hw p wait_retries request word)
            (wait_retries, x)
            d
            t
            (wait_retries, x')
            d'
  unfolding retry_poll
  retry_poll-transfer_retry x d fresh =
      let (x', clean, l) = retry_leads wait_retries x d fresh in
      (x', clean, loop_poll-Finishes _ _ _ _ l (omega arith))
