-- ===== src/Dap/Machine.antt =====
-- dap-async/src/swd.rs, dap-async/src/dap.rs: the whole driver interface, the state of the command
-- processor, and the actions of its handlers.
-- `D` is the state of the driver and `T` that of the delay provider. An action that ends in `none`
-- is one where `?` left the handler: what it changed up to there stays changed.
pub mod Reaches
pub mod Runs
use rustprobe.Common.{
  ℕ, ◌+◌, ◌/◌, ◌%◌, ◌^◌, ◌≤◌, ◌≡◌, Bool, Option, none, some, List, if◌then◌else◌, length,
  div_ceil_8,
}
use rustprobe.Dap.Io.{Response, reserve, fill, truncate, set_u8, set_u16}
use rustprobe.Dap.Swd.{Driver, TransferParams, default_params, Transfer, HostStatus}

-- `Driver` with the methods that have defaults, which a driver may replace: `retry`, `read_block` and
-- `write_block` take their arguments in the order of the defaults. A read of a sequence or a block
-- returns the bytes that it stores at the front of the buffer it got, never more than fit.
pub record Probe (D : Type 0) : Type 0 where
  pub base : Driver D
  pub set_clock : ℕ → D → Bool × D
  pub connect : D → D
  pub disconnect : D → D
  pub write_sequence : ℕ → List ℕ → D → D
  pub read_sequence : ℕ → D → List ℕ × D
  pub swj_pins : ℕ → ℕ → ℕ → D → ℕ × D
  pub retry : TransferParams → ℕ → ℕ → ℕ → D → Transfer × D
  pub read_block : TransferParams → ℕ → ℕ → ℕ → D → (List ℕ × ℕ × ℕ) × D
  pub write_block : TransferParams → ℕ → ℕ → List ℕ → D → (ℕ × ℕ) × D
  pub timestamp : D → ℕ
  pub host_status : HostStatus → D → D
  pub sequence_fits : (bits : ℕ) (d : D) → length (read_sequence bits d).0 ≤ div_ceil_8 bits
  pub block_fits :
      (p : TransferParams) (wait_retries request room : ℕ) (d : D)
      → length (read_block p wait_retries request room d).0.0 ≤ room

pub record Dap (D T : Type 0) : Type 0 where
  pub driver : D
  pub delay : T
  pub version : List ℕ
  pub packet_size : ℕ
  pub params : TransferParams
  pub wait_retries : ℕ
  pub match_retries : ℕ
  pub match_mask : ℕ

-- `Dap::new`
unfoldable pub new : {D T : Type 0} → D → T → List ℕ → ℕ → Dap D T
new driver delay version packet_size = record {
  driver = driver;
  delay = delay;
  version = version;
  packet_size = packet_size;
  params = default_params;
  wait_retries = 100;
  match_retries = 0;
  match_mask = 0;
}

-- The processor, the bytes of the request that are left, and the reply.
pub record Machine (D T : Type 0) : Type 0 where
  pub dap : Dap D T
  pub req : List ℕ
  pub resp : Response

abbrev pub Action : Type 0 → Type 0 → Type 0 → Type 0
Action D T A = Machine D T → Option A × Machine D T

module _ {D T : Type 0} where
  abbrev pub pure : {A : Type 0} → A → Action D T A
  pure a s = (some a, s)

  abbrev pub fail : {A : Type 0} → Action D T A
  fail s = (none, s)

  infixl 5 ◌>>=◌ ◌>>◌
  unfoldable pub ◌>>=◌ : {A B : Type 0} → Action D T A → (A → Action D T B) → Action D T B
  ◌>>=◌ m f s = let (r, s') = m s in elim r [ none ↦ (none, s') | some a ↦ f a s' ]

  unfoldable pub ◌>>◌ : {A B : Type 0} → Action D T A → Action D T B → Action D T B
  m >> k = m >>= λ _. k

  -- `req.u8()?` and the other reads: a failed read leaves the request as it is.
  unfoldable pub take_req : {A : Type 0} → (List ℕ → Option (A × List ℕ)) → Action D T A
  take_req read s = elim (read s.req) [
    | none ↦ (none, s)
    | some p ↦ (some p.0, record s { req = p.1 })
  ]

  -- `resp.u8(v)?` and the other appends: a failed append leaves the reply as it is.
  unfoldable pub respond : (Response → Option Response) → Action D T (Unit {0})
  respond put s = elim (put s.resp) [ none ↦ (none, s) | some r ↦ (some tt, record s { resp = r }) ]

  -- `resp.reserve(n)?`, and `resp.reserve_mut(n)?` with the index for the slice.
  unfoldable pub reserve_req : ℕ → Action D T ℕ
  reserve_req n s = elim (reserve n s.resp) [
    | none ↦ (none, s)
    | some p ↦ (some p.0, record s { resp = p.1 })
  ]

  -- The changes of the reply that cannot fail.
  unfoldable pub patch : (Response → Response) → Action D T (Unit {0})
  patch f s = (some tt, record s { resp = f s.resp })

  unfoldable pub modify : (Dap D T → Dap D T) → Action D T (Unit {0})
  modify f s = (some tt, record s { dap = f s.dap })

  unfoldable pub gets : {A : Type 0} → (Dap D T → A) → Action D T A
  gets f s = (some (f s.dap), s)

  -- A call of the driver.
  unfoldable pub drive : {A : Type 0} → (D → A × D) → Action D T A
  drive f s =
      let (a, d) = f s.dap.driver in (some a, record s { dap = record s.dap { driver = d } })
