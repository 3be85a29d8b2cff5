-- ===== src/Firmware/Instances/Slots.antt =====
-- firmware/src/instances.rs: the engines of the blocks.
use rustprobe.Common.{
  ℕ, suc, ◌+◌, ◌≤◌, ◌<◌, ◌≡◌, refl, true, false, List, [], ◌∷◌, ◌++◌, arith, append_assoc,
  append-nil, length, length-append, Result, ok, ◌>>=◌, bind_assoc, lt→ltb,
}
use rustprobe.Config.{ProbeConfig, max_probes}
use rustprobe.Config.Spec.{probe_pins, reset_pins}
use rustprobe.Firmware.Instances.{
  PinTable, Panic, Engine, Built, engine_at, place, slot, block_engines,
}
use rustprobe.Firmware.Instances.Pins.{Ready, claim_pin-Ready, claim_reset-Ready}

-- The engines of consecutive state machines of a block.
unfoldable pub engines_from : ℕ → ℕ → List ProbeConfig → List Engine
engines_from block k [] = []
engines_from block k (p ∷ ps) = engine_at block k p ∷ engines_from block (suc k) ps

-- Probes placed one after the other.
unfoldable pub fill : ℕ → ℕ → List ProbeConfig → Built → Result Panic Built
fill block k [] b = ok b
fill block k (p ∷ ps) b = place block k p b >>= fill block (suc k) ps

-- The slots with a probe come first.
pub block_engines-fill :
    (block : ℕ) (ps : List ProbeConfig) (b : Built)
    → length ps ≤ 4
    → block_engines block ps false b ≡ (fill block 0 ps b >>= λ b'. ok (b', false))
unfolding block_engines slot fill
block_engines-fill block [] b h = refl
block_engines-fill block (p0 ∷ []) b h = simp bind_assoc
block_engines-fill block (p0 ∷ p1 ∷ []) b h = simp bind_assoc
block_engines-fill block (p0 ∷ p1 ∷ p2 ∷ []) b h = simp bind_assoc
block_engines-fill block (p0 ∷ p1 ∷ p2 ∷ p3 ∷ []) b h = simp bind_assoc
block_engines-fill block (p0 ∷ p1 ∷ p2 ∷ p3 ∷ q ∷ qs) b h = absurd (omega arith)

pub block_engines-fill_three :
    (block : ℕ) (ps : List ProbeConfig) (b : Built)
    → length ps ≤ 3
    → block_engines block ps true b ≡ (fill block 0 ps b >>= λ b'. ok (b', true))
unfolding block_engines slot fill
block_engines-fill_three block [] b h = refl
block_engines-fill_three block (p0 ∷ []) b h = simp bind_assoc
block_engines-fill_three block (p0 ∷ p1 ∷ []) b h = simp bind_assoc
block_engines-fill_three block (p0 ∷ p1 ∷ p2 ∷ []) b h = simp bind_assoc
block_engines-fill_three block (p0 ∷ p1 ∷ p2 ∷ q ∷ qs) b h = absurd (omega arith)

place-Ready :
    (block k : ℕ) (p : ProbeConfig) (ps : List ℕ) (b : Built)
    → Ready b.table (p.swclk ∷ p.swdio ∷ reset_pins p.reset ++ ps)
    → length b.engines < max_probes
    → (table : PinTable) × (place block k p b
        ≡ ok (record { table = table; engines = b.engines ++ engine_at block k p ∷ [] }))
      × Ready table ps
unfolding place
place-Ready block k p ps b h room =
    let (e1, h1) = claim_pin-Ready b.table p.swclk _ h in
    let (e2, h2) = claim_pin-Ready _ p.swdio _ h1 in
    let (table, e3, h3) = claim_reset-Ready _ p.reset ps h2 in
    (table, rw (e1, e2, e3, lt→ltb _ _ room), h3)

pub fill-Ready :
    (block k : ℕ) (ps : List ProbeConfig) (qs : List ℕ) (b : Built)
    → Ready b.table (probe_pins ps ++ qs)
    → length b.engines + length ps ≤ max_probes
    → (table : PinTable) × (fill block k ps b
        ≡ ok (record { table = table; engines = b.engines ++ engines_from block k ps }))
      × Ready table qs
unfolding fill engines_from
fill-Ready block k [] qs b h room = (b.table, rw append-nil, h)
fill-Ready block k (p ∷ ps) qs b h room =
    let h' = rw (append_assoc (reset_pins p.reset) (probe_pins ps) qs) at h in
    let (t1, e1, h1) = place-Ready block k p (probe_pins ps ++ qs) b h' (omega arith) in
    let (t2, e2, h2) =
      fill-Ready block (suc k) ps qs
        (record { table = t1; engines = b.engines ++ engine_at block k p ∷ [] }) h1
        (rw (length-append b.engines (engine_at block k p ∷ [])) (omega arith)) in
    (t2, rw (e1, e2) (rw append_assoc), h2)
