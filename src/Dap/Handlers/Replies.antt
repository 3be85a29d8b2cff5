-- ===== src/Dap/Handlers/Replies.antt =====
-- dap-async/src/dap.rs: what the handlers leave of the reply.
use rustprobe.Common.{
  ℕ, zero, suc, ◌≤◌, List, length, arith, div_ceil_8, bit_and, ◌==◌, leb, if◌then◌else◌,
}
use rustprobe.Dap.Io.{u8, u16, u32}
use rustprobe.Dap.Machine.{Probe}
use rustprobe.Dap.Machine.Reaches.{
  Reaches, Any, bind, after, pure-Reaches, fail-Reaches, if-Reaches, gets-Reaches, modify-Reaches,
  drive-Reaches, take_req-Reaches, respond-Reaches, reserve_req-Reaches, patch-Reaches,
  put_u8-IsPut, put_slice-IsPut, put_u16-IsPut, put_u32-IsPut, fill-IsReply,
}
use rustprobe.Dap.Handlers.{
  info, host_status, connect, disconnect, transfer_configure, write_abort, delay, swj_pins,
  swj_clock, swj_sequence, swd_configure, sequence_one, sequences, drive_on, swd_sequence,
  swo_transport,
}

abbrev bits : ℕ → ℕ
bits b = if bit_and b 0x3f == 0 then 64 else bit_and b 0x3f

module _ {D T : Type 0} {c size : ℕ} where
  pub info-Reaches : Reaches D T c size Any info
  unfolding info
  info-Reaches = bind (take_req-Reaches u8) (λ id _. bind (gets-Reaches _) (λ v _.
      bind (gets-Reaches _) (λ n _.
        if-Reaches (id == _)
          (after (respond-Reaches (put_u8-IsPut _)) (respond-Reaches (put_slice-IsPut _)))
          (if-Reaches (id == _)
            (after (respond-Reaches (put_u8-IsPut _)) (respond-Reaches (put_u8-IsPut _)))
            (if-Reaches (id == _)
              (after (respond-Reaches (put_u8-IsPut _)) (respond-Reaches (put_u32-IsPut _)))
              (if-Reaches (id == _)
                (after (respond-Reaches (put_u8-IsPut _)) (respond-Reaches (put_u8-IsPut _)))
                (if-Reaches (id == _)
                  (after (respond-Reaches (put_u8-IsPut _)) (respond-Reaches (put_u16-IsPut _)))
                  (respond-Reaches (put_u8-IsPut _)))))))))

  pub transfer_configure-Reaches : Reaches D T c size Any transfer_configure
  unfolding transfer_configure
  transfer_configure-Reaches = bind (take_req-Reaches u8) (λ idle _. after (modify-Reaches _) (
      bind (take_req-Reaches u16) (λ wait _. after (modify-Reaches _) (
        bind (take_req-Reaches u16)
          (λ matches _. after (modify-Reaches _) (respond-Reaches (put_u8-IsPut _)))))))

  pub swd_configure-Reaches : Reaches D T c size Any swd_configure
  unfolding swd_configure
  swd_configure-Reaches = bind (take_req-Reaches u8) (λ config _.
      after (modify-Reaches _) (after (modify-Reaches _) (respond-Reaches (put_u8-IsPut _))))

  pub swo_transport-Reaches : Reaches D T c size Any swo_transport
  unfolding swo_transport
  swo_transport-Reaches =
      bind (take_req-Reaches u8)
        (λ t _. if-Reaches (leb t 2) (respond-Reaches (put_u8-IsPut _)) fail-Reaches)

module _ {D T : Type 0} {c size : ℕ} (delay_us : ℕ → T → T) where
  pub delay-Reaches : Reaches D T c size Any (delay delay_us)
  unfolding delay
  delay-Reaches =
      bind (take_req-Reaches u16)
        (λ us _. after (modify-Reaches _) (respond-Reaches (put_u8-IsPut _)))

module _ {D T : Type 0} {c size : ℕ} (probe : Probe D) where
  drive_on-Reaches : (f : D → D) → Reaches D T c size Any (drive_on probe f)
  drive_on-Reaches f = drive-Reaches _ (λ d. tt)

  pub host_status-Reaches : Reaches D T c size Any (host_status probe)
  unfolding host_status
  host_status-Reaches = bind (take_req-Reaches u8) (λ kind _. bind (take_req-Reaches u8) (λ v _.
      after {Q = Any}
        (if-Reaches (kind == 0) (drive_on-Reaches _)
          (if-Reaches (kind == 1) (drive_on-Reaches _) fail-Reaches))
        (respond-Reaches (put_u8-IsPut _))))

  pub connect-Reaches : Reaches D T c size Any (connect probe)
  unfolding connect
  connect-Reaches = bind (take_req-Reaches u8) (λ port _.
      if-Reaches (leb port 1) (after (drive_on-Reaches _) (respond-Reaches (put_u8-IsPut _)))
        (respond-Reaches (put_u8-IsPut _)))

  pub disconnect-Reaches : Reaches D T c size Any (disconnect probe)
  unfolding disconnect
  disconnect-Reaches = after (drive_on-Reaches _) (respond-Reaches (put_u8-IsPut _))

  pub write_abort-Reaches : Reaches D T c size Any (write_abort probe)
  unfolding write_abort
  write_abort-Reaches = bind (take_req-Reaches u8) (λ index _.
      bind (take_req-Reaches u32) (λ word _. bind (gets-Reaches _) (λ params _.
        after {Q = Any} (drive-Reaches _ (λ d. tt)) (respond-Reaches (put_u8-IsPut _)))))

  pub swj_pins-Reaches : Reaches D T c size Any (swj_pins probe)
  unfolding swj_pins
  swj_pins-Reaches = bind (take_req-Reaches u8) (λ output _. bind (take_req-Reaches u8) (λ mask _.
      bind (take_req-Reaches u32) (λ wait _.
        bind {Q = Any} (drive-Reaches _ (λ d. tt))
          (λ pins _. respond-Reaches (put_u8-IsPut pins)))))

  pub swj_clock-Reaches : Reaches D T c size Any (swj_clock probe)
  unfolding swj_clock
  swj_clock-Reaches = bind (take_req-Reaches u32) (λ hz _.
      bind {Q = Any} (drive-Reaches _ (λ d. tt)) (λ good _. respond-Reaches (put_u8-IsPut _)))

  pub swj_sequence-Reaches : Reaches D T c size Any (swj_sequence probe)
  unfolding swj_sequence
  swj_sequence-Reaches = bind (take_req-Reaches u8) (λ n _.
      bind (take_req-Reaches _)
        (λ data_bytes _. after (drive_on-Reaches _) (respond-Reaches (put_u8-IsPut _))))

  sequence_one-Reaches : Reaches D T c size Any (sequence_one probe)
  unfolding sequence_one
  sequence_one-Reaches = bind (take_req-Reaches u8) (λ b _.
      if-Reaches (bit_and b 0x80 == 0)
        (bind (take_req-Reaches _) (λ data_bytes _. drive_on-Reaches _))
        (bind (reserve_req-Reaches _) (λ at fits.
          bind {Q = λ (bs : List ℕ). length bs ≤ div_ceil_8 (bits b)}
            (drive-Reaches _ (probe.sequence_fits _))
            (λ read short.
              patch-Reaches
                (λ r h. fill-IsReply r h at read fits.0 (omega (arith, fits.1, short)))))))

  sequences-Reaches : (count : ℕ) → Reaches D T c size Any (sequences probe count)
  unfolding sequences
  sequences-Reaches zero = pure-Reaches tt
  sequences-Reaches (suc count) = after sequence_one-Reaches (sequences-Reaches count)

  pub swd_sequence-Reaches : Reaches D T c size Any (swd_sequence probe)
  unfolding swd_sequence
  swd_sequence-Reaches =
      bind (take_req-Reaches u8)
        (λ count _. after (respond-Reaches (put_u8-IsPut _)) (sequences-Reaches count))
