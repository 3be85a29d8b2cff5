-- ===== src/Dap/Swd/Tests.antt =====
-- Block reads and writes on targets with a slow debug port.
use rustprobe.Common.{
  ℕ, suc, ◌+◌, ◌≤◌, ◌≡◌, refl, arith, Bool, true, false, List, [], ◌∷◌, ◌++◌, ◌==◌, if◌then◌else◌,
}
use rustprobe.Dap.Swd.{
  Driver, Transfer, default_params, rdbuff_read, ack_ok, ack_wait, packet, write_block,
}
use rustprobe.Dap.Swd.Posted.{IsPosted}
use rustprobe.Dap.Swd.Writes.{IsWritable, words_of, write_block-stored}

-- The request packets of a DP read of IDCODE and of a write of ABORT.
idcode_packet : packet 2 ≡ 0xa5
unfolding packet
idcode_packet = refl

abort_packet : packet 0 ≡ 0x81
unfolding packet
abort_packet = refl

-- A memory that holds `a + 7` at address `a`: the next address, the word fetched last, and whether
-- the next answer is WAIT, as it is after every read.
abbrev Memory : Type 0
Memory = ℕ × ℕ × Bool

abbrev answer : Memory → Transfer × Memory
answer (a, f, true) = (record { ack = ack_wait; word = 0 }, (a, f, false))
answer (a, f, false) = (record { ack = ack_ok; word = f }, (a + 1, a + 7, true))

abbrev slow : Driver Memory
slow = record { transfer = λ request word params d. answer d }

abbrev waiting : Memory → ℕ
waiting (a, f, true) = 1
waiting (a, f, false) = 0

slow-waits :
    (d : Memory) (b : ℕ)
    → waiting d ≡ suc b
    → let (t, d') = answer d in
      (t.ack ≡ ack_wait) × (waiting d' ≡ b) × (d'.1 ≡ d.1) × ((i : ℕ) → d'.0 + i + 7 ≡ d.0 + i + 7)
slow-waits (a, f, true) b h = (refl, omega arith, refl, λ i. refl)
slow-waits (a, f, false) b h = absurd (omega arith)

slow-reads :
    (d : Memory)
    → waiting d ≡ 0
    → let (t, d') = answer d in
      (t.ack ≡ ack_ok)
      × (t.word ≡ d.1)
      × (d'.1 ≡ d.0 + 0 + 7)
      × ((i : ℕ) → d'.0 + i + 7 ≡ d.0 + suc i + 7)
slow-reads (a, f, true) h = absurd (omega arith)
slow-reads (a, f, false) h = (refl, refl, omega arith, λ i. omega arith)

abbrev slow_target : IsPosted slow
slow_target = record {
  busy = waiting;
  posted = λ d. d.1;
  fetched = λ d i. d.0 + i + 7;
  waits = λ r w p d b h. slow-waits d b h;
  reads_ap = λ request p d h ap rd. slow-reads d h;
  reads_rdbuff = λ p d h. (let (ok_ack, word, post, next) = slow-reads d h in (ok_ack, word));
}

-- A target that logs the words of its writes and answers every second transfer with WAIT. Request 14
-- is the read of RDBUFF.
abbrev logged : ℕ → ℕ → List ℕ × Bool → Transfer × (List ℕ × Bool)
logged r w (log, true) = (record { ack = ack_wait; word = 0 }, (log, false))
logged r w (log, false) =
    (record { ack = ack_ok; word = 0 }, ((if r == rdbuff_read then log else log ++ (w ∷ [])), true))

abbrev logger : Driver (List ℕ × Bool)
logger = record { transfer = λ request word params d. logged request word d }

abbrev log_waiting : List ℕ × Bool → ℕ
log_waiting (log, true) = 1
log_waiting (log, false) = 0

logger-waits :
    (r w : ℕ) (d : List ℕ × Bool) (b : ℕ)
    → log_waiting d ≡ suc b
    → let (t, d') = logged r w d in (t.ack ≡ ack_wait) × (log_waiting d' ≡ b) × (d'.0 ≡ d.0)
logger-waits r w (log, true) b h = (refl, omega arith, refl)
logger-waits r w (log, false) b h = absurd (omega arith)

logger-writes :
    (w : ℕ) (d : List ℕ × Bool)
    → log_waiting d ≡ 0
    → let (t, d') = logged 1 w d in (t.ack ≡ ack_ok) × (d'.0 ≡ d.0 ++ (w ∷ []))
logger-writes w (log, true) h = absurd (omega arith)
logger-writes w (log, false) h = (refl, refl)

logger-flushes :
    (d : List ℕ × Bool)
    → log_waiting d ≡ 0
    → let (t, d') = logged rdbuff_read 0 d in (t.ack ≡ ack_ok) × (d'.0 ≡ d.0)
logger-flushes (log, true) h = absurd (omega arith)
logger-flushes (log, false) h = (refl, refl)

abbrev logger_target : IsWritable logger 1
logger_target = record {
  busy = log_waiting;
  stored = λ d. d.0;
  waits = λ r w p d b h. logger-waits r w d b h;
  writes = λ w p d h. logger-writes w d h;
  flushes = λ p d h. logger-flushes d h;
}

logger_target_patient : (d : List ℕ × Bool) → log_waiting d ≤ 1
logger_target_patient (log, true) = omega arith
logger_target_patient (log, false) = omega arith

abbrev block : List ℕ
block = 1 ∷ 0 ∷ 0 ∷ 0 ∷ 2 ∷ 1 ∷ 0 ∷ 0 ∷ []

write_block-stored_example :
    let (result, d') = write_block logger default_params 1 1 block ([], false) in
    (result ≡ (2, ack_ok)) × (d'.0 ≡ [] ++ words_of 2 block)
write_block-stored_example =
    write_block-stored logger default_params 1 logger_target 1 logger_target_patient 2 block
      ([], false) refl (omega arith) (omega arith)
