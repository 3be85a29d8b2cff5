-- ===== src/Dap/Transfers/Pipeline.antt =====
-- dap-async/src/dap.rs, dap-async/src/swd.rs: transfers on a target whose AP reads are posted.
-- The registers of the target are an abstract state `A`, on which an access takes effect at once.
use rustprobe.Common.{
  ℕ, ◌+◌, ◌*◌, ◌/◌, ◌%◌, ◌≡◌, ◌≢◌, true, false, List, [], ◌∷◌, ◌++◌, arith, ◌==◌, if◌then◌else◌,
  bit_and, bit_or, u32_to_le, IsWord,
}
use rustprobe.Common.Bits.{bit_and-pow, bit_and_halves, digit, digit-le-one}
use rustprobe.Dap.Swd.{
  apndp, rnw, match_value, match_mask, timestamp, rdbuff_read, ack_ok, TransferParams,
}
use rustprobe.Dap.Machine.{Probe}
use rustprobe.Dap.Transfers.{is_set}

-- One transfer request, with the word of a write.
pub data Op : Type 0 where
  read : ℕ → Op
  write : ℕ → ℕ → Op

-- Neither match nor timestamp, and no read of RDBUFF by the host.
pub record IsPlainRead (rv : ℕ) : Type 0 where
  pub reads : is_set rv rnw ≡ true
  pub no_match : is_set rv match_value ≡ false
  pub no_stamp : is_set rv timestamp ≡ false
  pub no_rdbuff : bit_and rv 0x0f ≢ rdbuff_read

pub record IsPlainWrite (rv word : ℕ) : Type 0 where
  pub writes : is_set rv rnw ≡ false
  pub no_mask : is_set rv match_mask ≡ false
  pub no_stamp : is_set rv timestamp ≡ false
  pub fits : IsWord word

abbrev pub IsPlain : Op → Type 0
IsPlain (read rv) = IsPlainRead rv
IsPlain (write rv word) = IsPlainWrite rv word

abbrev pub encode : Op → List ℕ
encode (read rv) = rv ∷ []
encode (write rv word) = rv ∷ u32_to_le word

abbrev pub words_le : List ℕ → List ℕ
words_le [] = []
words_le (w ∷ ws) = u32_to_le w ++ words_le ws

-- The accesses of the registers: a read returns its word and the new state.
pub record Registers (A : Type 0) : Type 0 where
  pub ap_read : ℕ → A → ℕ × A
  pub dp_read : ℕ → A → ℕ × A
  pub store : ℕ → ℕ → A → A

module _ {A : Type 0} (registers : Registers A) where
  abbrev pub effect : Op → A → List ℕ × A
  effect (read rv) a =
      let r = (if is_set rv apndp then registers.ap_read rv a else registers.dp_read rv a) in
      (r.0 ∷ [], r.1)
  effect (write rv word) a = ([], registers.store rv word a)

-- A target that answers each transfer within the retries: an AP read returns the word of the AP read
-- before it, which a read of RDBUFF returns too.
pub record IsPipelined {D A : Type 0} (probe : Probe D) (registers : Registers A)
    (params : TransferParams) (wait : ℕ) : Type 0 where
  pub view : D → A
  pub posted : D → ℕ
  pub reads_ap :
      (rv : ℕ) (d : D)
      → is_set rv apndp ≡ true
      → is_set rv rnw ≡ true
      → let (t, d') = probe.retry params wait rv 0 d in
        (t.ack ≡ ack_ok)
        × (t.word ≡ posted d)
        × (posted d' ≡ (registers.ap_read rv (view d)).0)
        × (view d' ≡ (registers.ap_read rv (view d)).1)
  pub reads_dp :
      (rv : ℕ) (d : D)
      → is_set rv apndp ≡ false
      → is_set rv rnw ≡ true
      → bit_and rv 0x0f ≢ rdbuff_read
      → let (t, d') = probe.retry params wait rv 0 d in
        (t.ack ≡ ack_ok)
        × (t.word ≡ (registers.dp_read rv (view d)).0)
        × (view d' ≡ (registers.dp_read rv (view d)).1)
  pub reads_rdbuff :
      (d : D)
      → let (t, d') = probe.retry params wait rdbuff_read 0 d in
        (t.ack ≡ ack_ok) × (t.word ≡ posted d) × (view d' ≡ view d)
  pub writes :
      (rv word : ℕ) (d : D)
      → is_set rv rnw ≡ false
      → let (t, d') = probe.retry params wait rv word d in
        (t.ack ≡ ack_ok) × (view d' ≡ registers.store rv word (view d))

-- `rv & (APNDP | MATCH_VALUE)` has these two digits.
both_digits : (rv : ℕ) → bit_and rv 0x11 ≡ digit (rv / 2) 3 * 16 + rv % 2
both_digits rv = omega (arith, bit_and_halves rv 17, bit_and-pow (rv / 2) 3)

low_digit : (rv : ℕ) → bit_and rv 1 ≡ rv % 2
unfolding digit
low_digit rv = omega (arith, bit_and-pow rv 0)

fourth_digit : (rv : ℕ) → bit_and rv 0x10 ≡ digit (rv / 2) 3 * 16
unfolding digit
fourth_digit rv = omega (arith, bit_and-pow rv 4)

pub plain_ap :
    (rv : ℕ)
    → is_set rv match_value ≡ false
    → (bit_and rv (bit_or apndp match_value) == apndp) ≡ is_set rv apndp
plain_ap rv h =
    ground (arith, both_digits rv, low_digit rv, fourth_digit rv, digit-le-one (rv / 2) 3)
