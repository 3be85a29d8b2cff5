-- ===== src/Firmware/Instances/Pins.antt =====
-- firmware/src/instances.rs: claims of distinct pins that are all in the table.
use rustprobe.Common.{
  ℕ, zero, suc, ◌≤◌, ◌<◌, ◌≡◌, refl, ◌≢◌, true, false, Option, none, some, List, [], ◌∷◌, ◌++◌,
  arith, All, get_elem?, set, replicate, ok,
}
use rustprobe.Config.{ChipLimits, BoardProfile}
use rustprobe.Config.Spec.{IsFree, Distinct, reset_pins}
use rustprobe.Firmware.Instances.{PinTable, all_pins, claim_pin, claim_reset}

abbrev pub IsUnclaimed : PinTable → ℕ → Type 0
IsUnclaimed table pin = get_elem? table pin ≡ some true

-- The pins can be claimed one after the other.
pub record Ready (table : PinTable) (pins : List ℕ) : Type 0 where
  pub unclaimed : All (IsUnclaimed table) pins
  pub distinct : Distinct pins

get_elem?-set_ne {ℓ} :
    {A : Type ℓ} (xs : List A) (i j : ℕ) (v : A) → i ≢ j → get_elem? (set xs i v) j ≡ get_elem? xs j
get_elem?-set_ne [] i j v h = refl
get_elem?-set_ne (x ∷ xs) zero zero v h = absurd (h refl)
get_elem?-set_ne (x ∷ xs) zero (suc j) v h = refl
get_elem?-set_ne (x ∷ xs) (suc i) zero v h = refl
get_elem?-set_ne (x ∷ xs) (suc i) (suc j) v h = get_elem?-set_ne xs i j v (λ e. h (cc))

IsUnclaimed-set :
    (table : PinTable) (p : ℕ) (ps : List ℕ)
    → All (λ q. p ≢ q) ps
    → All (IsUnclaimed table) ps
    → All (IsUnclaimed (set table p false)) ps
IsUnclaimed-set table p [] d h = tt
IsUnclaimed-set table p (q ∷ ps) (dq, d) (hq, h) =
    (rw (get_elem?-set_ne table p q false dq) hq, IsUnclaimed-set table p ps d h)

-- The first pin is claimed, and the others stay ready.
pub claim_pin-Ready :
    (table : PinTable) (p : ℕ) (ps : List ℕ)
    → Ready table (p ∷ ps)
    → (claim_pin p table ≡ ok (set table p false)) × Ready (set table p false) ps
unfolding claim_pin
claim_pin-Ready table p ps r = (
  rw (r.unclaimed.0, claim_pin) refl,
  record {
    unclaimed = IsUnclaimed-set table p ps r.distinct.0 r.unclaimed.1;
    distinct = r.distinct.1;
  },
)

pub claim_reset-Ready :
    (table : PinTable) (r : Option ℕ) (ps : List ℕ)
    → Ready table (reset_pins r ++ ps)
    → (table' : PinTable) × (claim_reset r table ≡ ok table') × Ready table' ps
unfolding claim_reset
claim_reset-Ready table none ps h = (table, refl, h)
claim_reset-Ready table (some p) ps h =
    let (e, h') = claim_pin-Ready table p ps h in (set table p false, e, h')

get_elem?-replicate {ℓ} :
    {A : Type ℓ} (n i : ℕ) (v : A) → i < n → get_elem? (replicate n v) i ≡ some v
get_elem?-replicate zero i v h = absurd (omega arith)
get_elem?-replicate (suc n) zero v h = refl
get_elem?-replicate (suc n) (suc i) v h = get_elem?-replicate n i v (omega arith)

all_pins-IsUnclaimed :
    (chip : ChipLimits) (b : BoardProfile) (ps : List ℕ)
    → chip.gpio_count ≤ 30
    → All (IsFree chip b) ps
    → All (IsUnclaimed all_pins) ps
all_pins-IsUnclaimed chip b [] bound h = tt
all_pins-IsUnclaimed chip b (p ∷ ps) bound (hp, h) = (
  get_elem?-replicate 30 p true (omega (arith, hp.exists_on_chip)),
  all_pins-IsUnclaimed chip b ps bound h,
)

pub all_pins-Ready :
    (chip : ChipLimits) (b : BoardProfile) (ps : List ℕ)
    → chip.gpio_count ≤ 30
    → All (IsFree chip b) ps
    → Distinct ps
    → Ready all_pins ps
all_pins-Ready chip b ps bound h d = record {
  unclaimed = all_pins-IsUnclaimed chip b ps bound h;
  distinct = d;
}
