-- ===== src/Dap/Swd/Blocks.antt =====
-- dap-async/src/swd.rs: block reads of an AP register.
use rustprobe.Common.{ℕ, zero, suc, ◌≤◌, ◌≢◌, List, [], ◌++◌, bit_and, u32_to_le}
use rustprobe.Dap.Swd.{Driver, TransferParams, apndp, rnw}
use rustprobe.Dap.Swd.Posted.{IsPosted}

-- The little-endian bytes of the first `n` words of a sequence.
abbrev pub bytes_of : (ℕ → ℕ) → ℕ → List ℕ
bytes_of f zero = []
bytes_of f (suc n) = u32_to_le (f 0) ++ bytes_of (λ i. f (suc i)) n

module _ {D : Type 0} (driver : Driver D) (params : TransferParams) (target : IsPosted driver)
    (wait_retries : ℕ) (patient : (d : D) → target.busy d ≤ wait_retries) (request : ℕ)
    (is_ap : bit_and request apndp ≢ 0) (is_read : bit_and request rnw ≢ 0) where
  -- What the successive reads return from a state on: the posted word comes first.
  abbrev returned : D → ℕ → ℕ
  returned d zero = target.posted d
  returned d (suc i) = target.fetched d i
