-- ===== src/Dap/Transfers/Replies.antt =====
-- dap-async/src/dap.rs: what the handlers of transfers leave of the reply.
use rustprobe.Common.{
  ℕ, zero, suc, ◌+◌, ◌*◌, ◌≤◌, not, ◌||◌, List, length, arith, bit_and, ◌==◌, ltb,
}
use rustprobe.Dap.Io.{u8, u16, u32}
use rustprobe.Dap.Swd.{ack_ok, rnw, apndp, match_value, match_mask, timestamp}
use rustprobe.Dap.Machine.{Probe, Action, pure}
use rustprobe.Dap.Machine.Reaches.{
  Reaches, Any, bind, after, pure-Reaches, if-Reaches, gets-Reaches, modify-Reaches, drive-Reaches,
  take_req-Reaches, respond-Reaches, reserve_req-Reaches, patch-Reaches, put_u32-IsPut,
  fill-IsReply, set_u8-IsReply, set_u16-IsReply, truncate-IsReply,
}
use rustprobe.Dap.Transfers.{
  Progress, Flow, go_on, stop, is_set, proceed, xfer, stamp, collect, match_loop, read_match,
  read_ap, read_dp, read_step, collect_last, write_step, transfer_one, transfers, finish, transfer,
  block_phase, transfer_block, start,
}

module _ {D T : Type 0} {c size : ℕ} where
  flow-Reaches :
      (f : Flow) (k : Progress → Action D T Flow)
      → ((p : Progress) → Reaches D T c size Any (k p))
      → Reaches D T c size Any (elim f [ stop p ↦ pure (stop p) | go_on p ↦ k p ])
  flow-Reaches (stop p) k h = pure-Reaches tt
  flow-Reaches (go_on p) k h = h p

  proceed-Reaches :
      {m : Action D T Flow} {k : Progress → Action D T Flow}
      → Reaches D T c size Any m
      → ((p : Progress) → Reaches D T c size Any (k p))
      → Reaches D T c size Any (proceed m k)
  proceed-Reaches {k = k} h g = bind h (λ f _. flow-Reaches f k g)

module _ {D T : Type 0} {c size : ℕ} (probe : Probe D) where
  xfer-Reaches : (request word : ℕ) → Reaches D T c size Any (xfer probe request word)
  unfolding xfer
  xfer-Reaches request word =
      bind (gets-Reaches _)
        (λ params _. bind (gets-Reaches _) (λ wait _. drive-Reaches _ (λ d. tt)))

  stamp-Reaches : (rv : ℕ) → Reaches D T c size Any (stamp probe rv)
  unfolding stamp
  stamp-Reaches rv = bind (gets-Reaches _) (λ now _.
      if-Reaches (is_set rv timestamp) (respond-Reaches (put_u32-IsPut _)) (pure-Reaches tt))

  collect-Reaches : (rv : ℕ) (p : Progress) → Reaches D T c size Any (collect probe rv p)
  unfolding collect
  collect-Reaches rv p =
      if-Reaches p.post_read
        (bind (xfer-Reaches _ _) (λ t _. proceed-Reaches (pure-Reaches tt) (λ p.
          after (respond-Reaches (put_u32-IsPut _)) (
            after {Q = Any} (if-Reaches _ (stamp-Reaches rv) (pure-Reaches tt))
              (pure-Reaches tt)))))
        (pure-Reaches tt)

  match_loop-Reaches :
      (rv target tries : ℕ) → Reaches D T c size Any (match_loop probe rv target tries)
  unfolding match_loop
  match_loop-Reaches rv target zero = xfer-Reaches rv 0
  match_loop-Reaches rv target (suc tries) = bind (xfer-Reaches rv 0) (λ t _.
      bind (gets-Reaches _) (λ mask _.
        if-Reaches (not (t.ack == ack_ok) || bit_and t.word mask == target) (pure-Reaches tt)
          (match_loop-Reaches rv target tries)))

  read_match-Reaches : (rv : ℕ) (p : Progress) → Reaches D T c size Any (read_match probe rv p)
  unfolding read_match
  read_match-Reaches rv p = bind (take_req-Reaches u32) (λ target _.
      bind (gets-Reaches _) (λ tries _.
        proceed-Reaches
          (if-Reaches (is_set rv apndp) (bind (xfer-Reaches rv 0) (λ t _. pure-Reaches tt))
            (pure-Reaches tt))
          (λ p.
            bind (match_loop-Reaches rv target tries)
              (λ t _. bind (gets-Reaches _) (λ mask _. pure-Reaches tt)))))

  read_ap-Reaches : (rv : ℕ) (p : Progress) → Reaches D T c size Any (read_ap probe rv p)
  unfolding read_ap
  read_ap-Reaches rv p = if-Reaches p.post_read (pure-Reaches tt) (
      bind (xfer-Reaches rv 0) (λ t _.
        proceed-Reaches (pure-Reaches tt) (λ p. after (stamp-Reaches rv) (pure-Reaches tt))))

  read_dp-Reaches : (rv : ℕ) (p : Progress) → Reaches D T c size Any (read_dp probe rv p)
  unfolding read_dp
  read_dp-Reaches rv p = bind (xfer-Reaches rv 0) (λ t _.
      proceed-Reaches (pure-Reaches tt) (λ p.
        after (stamp-Reaches rv) (after (respond-Reaches (put_u32-IsPut _)) (pure-Reaches tt))))

  read_step-Reaches : (rv : ℕ) (p : Progress) → Reaches D T c size Any (read_step probe rv p)
  unfolding read_step
  read_step-Reaches rv p = proceed-Reaches (collect-Reaches rv p) (λ p.
      proceed-Reaches
        (if-Reaches (is_set rv match_value) (read_match-Reaches rv p)
          (if-Reaches (is_set rv apndp) (read_ap-Reaches rv p) (read_dp-Reaches rv p)))
        (λ p. pure-Reaches tt))

  collect_last-Reaches : (p : Progress) → Reaches D T c size Any (collect_last probe p)
  unfolding collect_last
  collect_last-Reaches p =
      if-Reaches p.post_read
        (bind (xfer-Reaches _ _) (λ t _.
          proceed-Reaches (pure-Reaches tt)
            (λ p. after (respond-Reaches (put_u32-IsPut _)) (pure-Reaches tt))))
        (pure-Reaches tt)

  write_step-Reaches : (rv : ℕ) (p : Progress) → Reaches D T c size Any (write_step probe rv p)
  unfolding write_step
  write_step-Reaches rv p = proceed-Reaches (collect_last-Reaches p) (λ p.
      bind (take_req-Reaches u32) (λ word _.
        if-Reaches (is_set rv match_mask) (after (modify-Reaches _) (pure-Reaches tt)) (
          bind (xfer-Reaches rv word) (λ t _.
            proceed-Reaches (pure-Reaches tt) (λ p. after (stamp-Reaches rv) (pure-Reaches tt))))))

  transfer_one-Reaches : (p : Progress) → Reaches D T c size Any (transfer_one probe p)
  unfolding transfer_one
  transfer_one-Reaches p =
      bind (take_req-Reaches u8)
        (λ rv _. if-Reaches (is_set rv rnw) (read_step-Reaches rv p) (write_step-Reaches rv p))

  transfers-Reaches :
      (remaining : ℕ) (p : Progress) → Reaches D T c size Any (transfers probe remaining p)
  unfolding transfers
  transfers-Reaches zero p = pure-Reaches tt
  transfers-Reaches (suc remaining) p = bind (transfer_one-Reaches p) (λ f _.
      elim f
        as (λ f. Reaches D T c size {A = Progress} Any (elim f [
          | stop p ↦ pure p
          | go_on p ↦ transfers probe remaining (record p { count = p.count + 1 })
        ])) [ stop p ↦ pure-Reaches tt | go_on p ↦ transfers-Reaches remaining _ ])

  finish-Reaches : (p : Progress) → Reaches D T c size Any (finish probe p)
  unfolding finish
  finish-Reaches p =
      if-Reaches (p.status == ack_ok)
        (if-Reaches p.post_read
          (bind (xfer-Reaches _ _) (λ t _.
            after {Q = Any}
              (if-Reaches (t.ack == ack_ok) (respond-Reaches (put_u32-IsPut _)) (pure-Reaches tt))
              (pure-Reaches tt)))
          (if-Reaches p.check_write (bind (xfer-Reaches _ _) (λ t _. pure-Reaches tt))
            (pure-Reaches tt)))
        (pure-Reaches tt)

  pub transfer-Reaches : Reaches D T c size Any (transfer probe)
  unfolding transfer
  transfer-Reaches = bind (take_req-Reaches u8) (λ index _.
      bind (take_req-Reaches u8) (λ remaining _. bind (reserve_req-Reaches 2) (λ head fits.
        bind (transfers-Reaches remaining start) (λ p _. bind (finish-Reaches p) (λ status _.
          after (patch-Reaches (λ r h. set_u8-IsReply r h head p.count fits.0)) (
            patch-Reaches
              (λ r h. set_u8-IsReply r h (head + 1) status (omega (arith, fits.0)))))))))

  block_phase-Reaches : (total : ℕ) → Reaches D T c size Any (block_phase probe total)
  unfolding block_phase
  block_phase-Reaches total = bind (take_req-Reaches u8) (λ rv _. bind (gets-Reaches _) (λ params _.
      bind (gets-Reaches _) (λ wait _.
        if-Reaches (is_set rv rnw)
          (bind (reserve_req-Reaches (total * 4)) (λ at fits.
            bind {Q = λ (p : List ℕ × ℕ × ℕ). length p.0 ≤ total * 4}
              (drive-Reaches _ (probe.block_fits params wait rv (total * 4)))
              (λ p short.
                after
                  (patch-Reaches
                    (λ r h. fill-IsReply r h at p.0 fits.0 (omega (arith, fits.1, short))))
                  (after (patch-Reaches (λ r h. truncate-IsReply r h _ (omega (arith, fits.0))))
                    (pure-Reaches tt)))))
          (bind (take_req-Reaches _) (λ data_bytes _. drive-Reaches _ (λ d. tt))))))

  pub transfer_block-Reaches : Reaches D T c size Any (transfer_block probe)
  unfolding transfer_block
  transfer_block-Reaches = bind (take_req-Reaches u8) (λ index _.
      bind (take_req-Reaches u16) (λ total _. bind (reserve_req-Reaches 3) (λ head fits.
        bind {Q = Any} (if-Reaches (ltb 0 total) (block_phase-Reaches total) (pure-Reaches tt))
          (λ p _.
            after
              (patch-Reaches (λ r h. set_u16-IsReply r h head p.0 fits.0 (omega (arith, fits.1))))
              (patch-Reaches (λ r h. set_u8-IsReply r h (head + 2) p.1 (omega (arith, fits.0))))))))
