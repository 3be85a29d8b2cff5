-- ===== src/Dap/Swd/Posted.antt =====
-- A target whose AP reads are posted, as the debug port of ADIv5 has them: a read returns what the
-- read before it fetched, and a read of RDBUFF collects the last one.
use rustprobe.Common.{
  ℕ, zero, suc, ◌≤◌, ◌≡◌, ◌≢◌, refl, ◌∙◌, ◌⊎◌, inl, inr, true, false, arith, ◌==◌, bit_and,
}
use rustprobe.Dap.Swd.{
  Driver, TransferParams, apndp, rnw, rdbuff_read, ack_ok, ack_wait, transfer_retry,
}

-- `busy` counts the WAIT answers before the next success, and `fetched` lists what the AP reads to
-- come will fetch, by their number.
pub record IsPosted {D : Type 0} (driver : Driver D) : Type 0 where
  pub busy : D → ℕ
  pub posted : D → ℕ
  pub fetched : D → ℕ → ℕ
  pub waits :
      (r w : ℕ) (p : TransferParams) (d : D) (b : ℕ)
      → busy d ≡ suc b
      → let (t, d') = driver.transfer r w p d in
        (t.ack ≡ ack_wait)
        × (busy d' ≡ b)
        × (posted d' ≡ posted d)
        × ((i : ℕ) → fetched d' i ≡ fetched d i)
  pub reads_ap :
      (request : ℕ) (p : TransferParams) (d : D)
      → busy d ≡ 0
      → bit_and request apndp ≢ 0
      → bit_and request rnw ≢ 0
      → let (t, d') = driver.transfer (bit_and request 0x0f) 0 p d in
        (t.ack ≡ ack_ok)
        × (t.word ≡ posted d)
        × (posted d' ≡ fetched d 0)
        × ((i : ℕ) → fetched d' i ≡ fetched d (suc i))
  pub reads_rdbuff :
      (p : TransferParams) (d : D)
      → busy d ≡ 0
      → let (t, d') = driver.transfer rdbuff_read 0 p d in (t.ack ≡ ack_ok) × (t.word ≡ posted d)

pub zero-cases : (n : ℕ) → (n ≡ 0) ⊎ ((b : ℕ) × (n ≡ suc b))
zero-cases zero = inl refl
zero-cases (suc n) = inr (n, refl)

module _ {D : Type 0} (driver : Driver D) (params : TransferParams) (target : IsPosted driver) where
  pub retry_ap :
      (retries request : ℕ) (d : D)
      → target.busy d ≤ retries
      → bit_and request apndp ≢ 0
      → bit_and request rnw ≢ 0
      → let (t, d') = transfer_retry driver params retries request 0 d in
        (t.ack ≡ ack_ok)
        × (t.word ≡ target.posted d)
        × (target.posted d' ≡ target.fetched d 0)
        × ((i : ℕ) → target.fetched d' i ≡ target.fetched d (suc i))
  unfolding transfer_retry
  retry_ap zero request d patient ap rd = target.reads_ap request params d (omega arith) ap rd
  retry_ap (suc retries) request d patient ap rd = elim (zero-cases (target.busy d)) [
    | inl ready ↦
        let (ok_ack, word, post, next) = target.reads_ap request params d ready ap rd in
        let done : ((driver.transfer (bit_and request 0x0f) 0 params d).0.ack == ack_wait) ≡ false =
          rw (ok_ack) in
        rw (done, transfer_retry) (ok_ack, word, post, next)
    | inr (b, busy) ↦
        let (waited, less, same_post, same) =
          target.waits (bit_and request 0x0f) 0 params d b busy in
        let again : ((driver.transfer (bit_and request 0x0f) 0 params d).0.ack == ack_wait) ≡ true =
          rw (waited) in
        let (ok_ack, word, post, next) =
          retry_ap retries request (driver.transfer (bit_and request 0x0f) 0 params d).1
            (omega (arith, less, busy, patient)) ap rd in
        rw (again, transfer_retry)
          (ok_ack, word ∙ same_post, post ∙ same 0, (λ i. next i ∙ same (suc i)))
  ]

  pub retry_rdbuff :
      (retries : ℕ) (d : D)
      → target.busy d ≤ retries
      → let (t, d') = transfer_retry driver params retries rdbuff_read 0 d in
        (t.ack ≡ ack_ok) × (t.word ≡ target.posted d)
  unfolding transfer_retry
  retry_rdbuff zero d patient = target.reads_rdbuff params d (omega arith)
  retry_rdbuff (suc retries) d patient = elim (zero-cases (target.busy d)) [
    | inl ready ↦
        let (ok_ack, word) = target.reads_rdbuff params d ready in
        let done : ((driver.transfer rdbuff_read 0 params d).0.ack == ack_wait) ≡ false =
          rw (ok_ack) in
        rw (done, transfer_retry) (ok_ack, word)
    | inr (b, busy) ↦
        let (waited, less, same_post, same) = target.waits rdbuff_read 0 params d b busy in
        let again : ((driver.transfer rdbuff_read 0 params d).0.ack == ack_wait) ≡ true =
          rw (waited) in
        let (ok_ack, word) =
          retry_rdbuff retries (driver.transfer rdbuff_read 0 params d).1
            (omega (arith, less, busy, patient)) in
        rw (again, transfer_retry) (ok_ack, word ∙ same_post)
  ]
