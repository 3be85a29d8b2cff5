-- ===== src/Firmware/Engine/Bounds.antt =====
-- firmware/src/dap.rs: the arrays of `Plan` and `Cursor`.
use rustprobe.Common.{ℕ, ◌≤◌, ◌≡◌, inl, inr, Bool, true, false, ◌||◌, arith, ◌==◌, ltb, Bool-cases}
use rustprobe.Dap.Swd.{TransferParams, ack_ok, ack_wait, ack_fault, count_ones}
use rustprobe.Firmware.Engine.{CmdAddrs, Plan, plan_request, plan_data}

-- The ops fit into the ten words of a plan, and the words pulled into the two of a cursor.
abbrev pub Fits : Plan → Type 0
Fits plan = (plan.len ≤ 10) × (count_ones 10 plan.pulls ≤ 2)

-- The data phase for each status, with or without turnaround and idle cycles.
module _ (addrs : CmdAddrs) (word : ℕ) (p : TransferParams) where
  ok-Fits : (is_read : Bool) → Fits (plan_data addrs ack_ok is_read word p)
  unfolding plan_data
  ok-Fits true = elim (Bool-cases (ltb 0 p.turnaround)) [
    | inl t ↦ elim (Bool-cases (ltb 0 p.idle_cycles)) [
      | inl i ↦ rw (t, i) (omega arith, omega arith)
      | inr i ↦ rw (t, i) (omega arith, omega arith)
    ]
    | inr t ↦ elim (Bool-cases (ltb 0 p.idle_cycles)) [
      | inl i ↦ rw (t, i) (omega arith, omega arith)
      | inr i ↦ rw (t, i) (omega arith, omega arith)
    ]
  ]
  ok-Fits false = elim (Bool-cases (ltb 0 p.turnaround)) [
    | inl t ↦ elim (Bool-cases (ltb 0 p.idle_cycles)) [
      | inl i ↦ rw (t, i) (omega arith, omega arith)
      | inr i ↦ rw (t, i) (omega arith, omega arith)
    ]
    | inr t ↦ elim (Bool-cases (ltb 0 p.idle_cycles)) [
      | inl i ↦ rw (t, i) (omega arith, omega arith)
      | inr i ↦ rw (t, i) (omega arith, omega arith)
    ]
  ]

  other-Fits :
      (ack : ℕ) (is_read : Bool)
      → (ack == ack_ok) ≡ false
      → Fits (plan_data addrs ack is_read word p)
  unfolding plan_data
  other-Fits ack is_read e = elim (Bool-cases (ack == ack_wait || ack == ack_fault)) [
    | inr error ↦ rw (e, error) (omega arith, omega arith)
    | inl again ↦ elim (Bool-cases (ltb 0 p.turnaround)) [
      | inl t ↦ elim (Bool-cases p.data_phase) [
        | inl phase ↦ elim (Bool-cases is_read) [
          | inl r ↦ rw (e, again, t, phase, r) (omega arith, omega arith)
          | inr r ↦ rw (e, again, t, phase, r) (omega arith, omega arith)
        ]
        | inr phase ↦ rw (e, again, t, phase) (omega arith, omega arith)
      ]
      | inr t ↦ elim (Bool-cases p.data_phase) [
        | inl phase ↦ elim (Bool-cases is_read) [
          | inl r ↦ rw (e, again, t, phase, r) (omega arith, omega arith)
          | inr r ↦ rw (e, again, t, phase, r) (omega arith, omega arith)
        ]
        | inr phase ↦ rw (e, again, t, phase) (omega arith, omega arith)
      ]
    ]
  ]

-- Both plans of a transfer have at most ten ops, at most two of which are pulls, whatever the
-- request, the status and the parameters are.
pub plans-Fits :
    (addrs : CmdAddrs) (request ack word : ℕ) (is_read : Bool) (p : TransferParams)
    → Fits (plan_request addrs request p.turnaround) × Fits (plan_data addrs ack is_read word p)
unfolding plan_request
plans-Fits addrs request ack word is_read p = (
  (omega arith, omega arith),
  elim (Bool-cases (ack == ack_ok)) [
    | inl e ↦ let same : ack ≡ ack_ok = ground arith in rw same (ok-Fits addrs word p is_read)
    | inr e ↦ other-Fits addrs word p ack is_read e
  ],
)
