-- ===== src/Firmware/Instances/Blocks.antt =====
-- firmware/src/instances.rs: one block of `build_engines`.
use rustprobe.Common.{
  ℕ, zero, suc, ◌+◌, ◌-◌, ◌*◌, ◌/◌, ◌%◌, ◌≤◌, ◌<◌, ◌≡◌, refl, sym, ap, ◌∙◌, inl, inr, Bool, true,
  false, not, ◌&&◌, none, some, Option, List, [], ◌∷◌, ◌++◌, append_assoc, arith, length,
  length-append, length-take, length-drop, take-append-drop, take, drop, min, ltb, ◌==◌,
  if◌then◌else◌, lt→ltb, ltb→lt, ltb-false, ok, ok-injective, Bool-cases,
}
use mathlib.Core.Path.{subst}
use native.Mathlib.Nat.{add-zero}
use rustprobe.Config.{ProbeConfig, UartConfig, max_probes}
use rustprobe.Config.Spec.{probe_pins, reset_pins}
use rustprobe.Firmware.Instances.{
  PinTable, Slot, Engine, Built, Building, engine_at, block_engines, is_ab_block, build_block,
}
use rustprobe.Firmware.Instances.Pins.{Ready}
use rustprobe.Firmware.Instances.Slots.{
  engines_from, fill, block_engines-fill, block_engines-fill_three, fill-Ready,
}

-- Probe `i` has the state machine i % 4 of block i / 4.
abbrev pub engines_of : ℕ → List ProbeConfig → List Engine
engines_of i [] = []
engines_of i (p ∷ ps) = engine_at (i / 4) (i % 4) p ∷ engines_of (suc i) ps

-- The state machine behind the last engine's block or, in a block of its own, the first.
abbrev pub autobaud_of : ℕ → List UartConfig → Option Slot
autobaud_of n [] = none
autobaud_of n (u ∷ us) = some (record { block = n / 4; sm = if n % 4 == 0 then 0 else 3 })

block_at : (block k : ℕ) → k < 4 → (4 * block + k) / 4 ≡ block
block_at block k h = omega arith

sm_at : (block k : ℕ) → k < 4 → (4 * block + k) % 4 ≡ k
sm_at block k h = omega arith

engines_of-from :
    (block k : ℕ) (ps : List ProbeConfig)
    → k + length ps ≤ 4
    → engines_from block k ps ≡ engines_of (4 * block + k) ps
unfolding engines_from
engines_of-from block k [] h = refl
engines_of-from block k (p ∷ ps) h =
    rw (block_at block k (omega arith), sm_at block k (omega arith))
      (ap (λ es. engine_at block k p ∷ es)
        (engines_of-from block (suc k) ps (omega arith) ∙ ap (λ i. engines_of i ps) (omega arith)))

pub engines_of-append :
    (i : ℕ) (ps qs : List ProbeConfig)
    → engines_of i (ps ++ qs) ≡ engines_of i ps ++ engines_of (i + length ps) qs
engines_of-append i [] qs = rw add-zero
engines_of-append i (p ∷ ps) qs = rw (engines_of-append (suc i) ps qs) (
    ap (λ j. engine_at (i / 4) (i % 4) p ∷ (engines_of (suc i) ps ++ engines_of j qs))
      (omega arith))

-- A block's share of the probes.
abbrev share : ℕ → List ProbeConfig → List ProbeConfig
share block ps = drop (4 * block) (take (min (length ps) (4 * block + 4)) ps)

length-share :
    (block : ℕ) (ps : List ProbeConfig)
    → length (share block ps) ≡ min (length ps) (4 * block + 4) - 4 * block
length-share block ps = omega (
  arith,
  length-drop (4 * block) (take (min (length ps) (4 * block + 4)) ps),
  length-take (min (length ps) (4 * block + 4)) ps,
)

pub nil_of_length : (ps : List ProbeConfig) → length ps ≡ 0 → ps ≡ []
nil_of_length [] h = refl
nil_of_length (p ∷ ps) h = absurd (omega arith)

abbrev pub ab_slot : ℕ → ℕ → Slot
ab_slot block n = record { block = block; sm = if n % 4 == 0 then 0 else 3 }

abbrev pub ab_after : Bool → ℕ → ℕ → Option Slot → Option Slot
ab_after here block n before = if here then some (ab_slot block n) else before

block_engines-reserve :
    (block : ℕ) (ps : List ProbeConfig) (reserve : Bool) (b b' : Built)
    → length ps ≤ 4
    → (reserve ≡ true → length ps ≤ 3)
    → fill block 0 ps b ≡ ok b'
    → block_engines block ps reserve b ≡ ok (b', reserve)
block_engines-reserve block ps true b b' h h' e =
    rw (block_engines-fill_three block ps b (h' refl), e)
block_engines-reserve block ps false b b' h h' e = rw (block_engines-fill block ps b h, e)

share_three :
    (ps : List ProbeConfig) (has_uart : Bool) (block : ℕ)
    → (is_ab_block has_uart (length ps) block && not (length ps % 4 == 0)) ≡ true
    → length (share block ps) ≤ 3
unfolding is_ab_block
share_three ps has_uart block h = ground (arith, length-share block ps)

ab_filled :
    (has_uart : Bool) (block n : ℕ) (before : Option Slot)
    → 4 * block < n
    → (if is_ab_block has_uart n block && not (n % 4 == 0)
        then some (record { block = block; sm = 3 })
        else before)
      ≡ ab_after (is_ab_block has_uart n block) block n before
unfolding is_ab_block
ab_filled has_uart block n before h = ground arith

module _ (ps : List ProbeConfig) (has_uart : Bool) (block : ℕ) (b : Building) (filled : Built) where
  -- A block without probes.
  build_block_empty :
      length ps ≤ 4 * block
      → build_block ps has_uart block b
        ≡ ok (record b {
          autobaud = ab_after (is_ab_block has_uart (length ps) block) block (length ps) b.autobaud;
        })
  unfolding build_block is_ab_block
  build_block_empty h = ground arith

  -- A block with probes.
  build_block_filled :
      4 * block < length ps
      → fill block 0 (share block ps) b.built ≡ ok filled
      → build_block ps has_uart block b
        ≡ ok (record {
          built = filled;
          autobaud = ab_after (is_ab_block has_uart (length ps) block) block (length ps) b.autobaud;
        })
  unfolding build_block
  build_block_filled h e =
      let shares = is_ab_block has_uart (length ps) block && not (length ps % 4 == 0) in
      rw
        (
          lt→ltb _ _ h,
          block_engines-reserve block (share block ps) shares b.built filled
              (omega (arith, length-share block ps)) (share_three ps has_uart block) e,
        )
        (ap (λ a. ok (record { built = filled; autobaud = a }))
          (ab_filled has_uart block (length ps) b.autobaud h))

min-zero : (n : ℕ) → min 0 n ≡ 0
min-zero n = omega arith

min-zero_right : (n : ℕ) → min n 0 ≡ 0
min-zero_right n = omega arith

min-suc : (a m k : ℕ) → min (suc a) (suc m + k) ≡ suc (min a (m + k))
min-suc a m k = omega arith

min-sucs : (a k : ℕ) → min (suc a) (suc k) ≡ suc (min a k)
min-sucs a k = omega arith

take-min {ℓ} : {A : Type ℓ} (k : ℕ) (xs : List A) → take (min (length xs) k) xs ≡ take k xs
take-min zero [] = refl
take-min (suc k) [] = rw (min-zero (suc k))
take-min zero (x ∷ xs) = rw (min-zero_right (suc (length xs)))
take-min (suc k) (x ∷ xs) = rw (min-sucs (length xs) k) (ap (λ t. x ∷ t) (take-min k xs))

share_take {ℓ} :
    {A : Type ℓ} (m k : ℕ) (xs : List A)
    → drop m (take (min (length xs) (m + k)) xs) ≡ take k (drop m xs)
share_take zero k xs =
    subst (λ n. take (min (length xs) n) xs ≡ take k xs) (omega arith) (take-min k xs)
share_take (suc m) zero [] = rw (min-zero (suc m + 0))
share_take (suc m) (suc k) [] = rw (min-zero (suc m + suc k))
share_take (suc m) k (x ∷ xs) = rw (min-suc (length xs) m k) (share_take m k xs)

probe_pins-append :
    (ps qs : List ProbeConfig) → probe_pins (ps ++ qs) ≡ probe_pins ps ++ probe_pins qs
probe_pins-append [] qs = refl
probe_pins-append (p ∷ ps) qs =
    rw (probe_pins-append ps qs, append_assoc (reset_pins p.reset) (probe_pins ps) (probe_pins qs))

engines_of-slots :
    (block : ℕ) (ps : List ProbeConfig)
    → length ps ≤ 4
    → engines_from block 0 ps ≡ engines_of (4 * block) ps
engines_of-slots block ps h =
    engines_of-from block 0 ps (omega arith) ∙ ap (λ i. engines_of i ps) (omega arith)

-- Whether the block has probes or not, it is filled with those that it has.
build_block-fill :
    (ps : List ProbeConfig) (has_uart : Bool) (block : ℕ) (b : Building) (filled : Built)
    → fill block 0 (take 4 (drop (4 * block) ps)) b.built ≡ ok filled
    → build_block ps has_uart block b
      ≡ ok (record {
        built = filled;
        autobaud = ab_after (is_ab_block has_uart (length ps) block) block (length ps) b.autobaud;
      })
unfolding fill
build_block-fill ps has_uart block b filled e = elim (Bool-cases (ltb (4 * block) (length ps))) [
  | inl more ↦
      build_block_filled ps has_uart block b filled (ltb→lt _ _ more)
        (rw (share_take (4 * block) 4 ps) e)
  | inr no_more ↦
      let empty : drop (4 * block) ps ≡ [] =
        nil_of_length _ (omega (arith, length-drop (4 * block) ps, ltb-false _ _ no_more)) in
      let same : b.built ≡ filled = ok-injective (rw empty at e) in
      build_block_empty ps has_uart block b filled (ltb-false _ _ no_more) ∙ rw same refl
]

length-engines_of : (i : ℕ) (ps : List ProbeConfig) → length (engines_of i ps) ≡ length ps
length-engines_of i [] = refl
length-engines_of i (p ∷ ps) = ap suc (length-engines_of (suc i) ps)

suc_plus : (b a : ℕ) → suc (b + a) ≡ suc b + a
suc_plus b a = omega arith

pub drop-drop {ℓ} : {A : Type ℓ} (a b : ℕ) (xs : List A) → drop a (drop b xs) ≡ drop (b + a) xs
drop-drop a zero xs = ap (λ n. drop n xs) (omega arith)
drop-drop zero (suc b) [] = rw (← suc_plus b 0) refl
drop-drop (suc a) (suc b) [] = rw (← suc_plus b (suc a)) refl
drop-drop a (suc b) (x ∷ xs) = drop-drop a b xs ∙ ap (λ n. drop n (x ∷ xs)) (suc_plus b a)

-- What `build_block` makes of a state, with the pins that are left.
abbrev pub next : List ProbeConfig → Bool → ℕ → PinTable → Building → Building
next ps has_uart block table b = record {
  built = record {
    table = table;
    engines = b.built.engines ++ engines_of (4 * block) (take 4 (drop (4 * block) ps));
  };
  autobaud = ab_after (is_ab_block has_uart (length ps) block) block (length ps) b.autobaud;
}

-- The pins of the probes from `at` on can be claimed, and there is room for their engines.
pub record CanPlace (ps : List ProbeConfig) (us : List ℕ) (at : ℕ) (b : Building) : Type 0 where
  pub claims : Ready b.built.table (probe_pins (drop at ps) ++ us)
  pub room : length b.built.engines + length (drop at ps) ≤ max_probes

next_room :
    (block : ℕ) (ps : List ProbeConfig) (b : Building)
    → length b.built.engines + length (drop (4 * block) ps) ≤ max_probes
    → length (b.built.engines ++ engines_of (4 * block) (take 4 (drop (4 * block) ps)))
        + length (drop (4 * block + 4) ps)
      ≤ max_probes
next_room block ps b h = omega (
  arith,
  length-append b.built.engines (engines_of (4 * block) (take 4 (drop (4 * block) ps))),
  length-engines_of (4 * block) (take 4 (drop (4 * block) ps)),
  length-take 4 (drop (4 * block) ps),
  length-drop (4 * block) ps,
  length-drop (4 * block + 4) ps,
)

-- The next block takes the next four probes, and leaves the others.
pub build_block-CanPlace :
    (ps : List ProbeConfig) (has_uart : Bool) (block : ℕ) (us : List ℕ) (b : Building)
    → CanPlace ps us (4 * block) b
    → (table : PinTable) × (build_block ps has_uart block b ≡ ok (next ps has_uart block table b))
      × CanPlace ps us (4 * block + 4) (next ps has_uart block table b)
build_block-CanPlace ps has_uart block us b c =
    let rest = drop (4 * block) ps in
    let split : probe_pins rest ≡ probe_pins (take 4 rest) ++ probe_pins (drop 4 rest) =
      ap probe_pins (sym (take-append-drop 4 rest))
      ∙ probe_pins-append (take 4 rest) (drop 4 rest) in
    let claims : Ready b.built.table
        (probe_pins (take 4 rest) ++ (probe_pins (drop 4 rest) ++ us)) =
      subst (Ready b.built.table)
        (ap (λ l. l ++ us) split
          ∙ append_assoc (probe_pins (take 4 rest)) (probe_pins (drop 4 rest)) us)
        c.claims in
    let few : length (take 4 rest) ≤ 4 = omega (arith, length-take 4 rest) in
    let (table, e, r) =
      fill-Ready block 0 (take 4 rest) _ b.built claims
        (omega (arith, c.room, length-take 4 rest)) in
    (
      table,
      build_block-fill ps has_uart block b _ e ∙ rw (engines_of-slots block (take 4 rest) few) refl,
      record {
        claims = subst (λ l. Ready table (probe_pins l ++ us)) (drop-drop 4 (4 * block) ps) r;
        room = next_room block ps b c.room;
      },
    )
