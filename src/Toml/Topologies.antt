-- ===== src/Toml/Topologies.antt =====
-- probe-config-toml/src/topology_toml.rs: topology files.
use mathlib.Core.Path.{subst}
use rustprobe.Common.{
  ℕ, ◌+◌, ◌≤◌, ◌≡◌, ap, ◌∙◌, Option, List, [], ◌∷◌, ◌++◌, append_assoc, append-nil, map, length,
  length-append, ltb, if◌then◌else◌, arith, lt→ltb, ltb→lt, Bool-cases, inl, inr, Result, ok, err,
  ◌>>=◌, bind-eq-ok, ok-injective,
}
use rustprobe.Config.{ProbeConfig, UartConfig, Topology, max_probes, max_uarts}

pub record TomlProbe : Type 0 where
  pub swclk : ℕ
  pub swdio : ℕ
  pub reset : Option ℕ

pub record TomlUart : Type 0 where
  pub tx : ℕ
  pub rx : ℕ
  pub baud : ℕ

pub record TomlTopology : Type 0 where
  pub probes : List TomlProbe
  pub uarts : List TomlUart

pub data CapacityError : Type 0 where
  too_many_probes too_many_uarts : CapacityError

-- The two loops of `into_topology`: a push on a full vector fails.
unfoldable pub push_probes :
    List TomlProbe → List ProbeConfig → Result CapacityError (List ProbeConfig)
push_probes [] out = ok out
push_probes (p ∷ ps) out =
    let rest =
      push_probes ps (out ++ record { swclk = p.swclk; swdio = p.swdio; reset = p.reset } ∷ []) in
    if ltb (length out) max_probes then rest else err too_many_probes

unfoldable pub push_uarts : List TomlUart → List UartConfig → Result CapacityError (List UartConfig)
push_uarts [] out = ok out
push_uarts (u ∷ us) out =
    let rest = push_uarts us (out ++ record { tx = u.tx; rx = u.rx; baud = u.baud } ∷ []) in
    if ltb (length out) max_uarts then rest else err too_many_uarts

unfoldable pub into_topology : TomlTopology → Result CapacityError Topology
into_topology file = do
  probes ← push_probes file.probes []
  uarts ← push_uarts file.uarts []
  ok (record { probes = probes; uarts = uarts })

unfoldable pub from_topology : Topology → TomlTopology
from_topology t = record {
  probes =
      map (λ (p : ProbeConfig). record { swclk = p.swclk; swdio = p.swdio; reset = p.reset })
        t.probes;
  uarts = map (λ (u : UartConfig). record { tx = u.tx; rx = u.rx; baud = u.baud }) t.uarts;
}

-- What the vectors of the wire type can hold.
pub record Fits (t : Topology) : Type 0 where
  pub probes_fit : length t.probes ≤ max_probes
  pub uarts_fit : length t.uarts ≤ max_uarts

push_probes-map :
    (ps out : List ProbeConfig)
    → length out + length ps ≤ max_probes
    → push_probes
        (map (λ (p : ProbeConfig). record { swclk = p.swclk; swdio = p.swdio; reset = p.reset }) ps)
        out
      ≡ ok (out ++ ps)
unfolding push_probes
push_probes-map [] out h = rw append-nil
push_probes-map (p ∷ ps) out h = rw (lt→ltb (length out) max_probes (omega arith)) (
    push_probes-map ps (out ++ p ∷ []) (omega (arith, length-append out (p ∷ [])))
    ∙ ap (λ l. ok l) (append_assoc out (p ∷ []) ps))

push_uarts-map :
    (us out : List UartConfig)
    → length out + length us ≤ max_uarts
    → push_uarts (map (λ (u : UartConfig). record { tx = u.tx; rx = u.rx; baud = u.baud }) us) out
      ≡ ok (out ++ us)
unfolding push_uarts
push_uarts-map [] out h = rw append-nil
push_uarts-map (u ∷ us) out h = rw (lt→ltb (length out) max_uarts (omega arith)) (
    push_uarts-map us (out ++ u ∷ []) (omega (arith, length-append out (u ∷ [])))
    ∙ ap (λ l. ok l) (append_assoc out (u ∷ []) us))

-- Every topology of the wire type is read back from its file.
pub into-from_topology : (t : Topology) → Fits t → into_topology (from_topology t) ≡ ok t
unfolding into_topology from_topology
into-from_topology t h = rw (
  push_probes-map t.probes [] (omega (arith, h.probes_fit)),
  push_uarts-map t.uarts [] (omega (arith, h.uarts_fit)),
)

push_probes_fit :
    (ps : List TomlProbe) (out out' : List ProbeConfig)
    → length out ≤ max_probes
    → push_probes ps out ≡ ok out'
    → length out' ≤ max_probes
unfolding push_probes
push_probes_fit [] out out' h e = subst (λ l. length l ≤ max_probes) (ok-injective e) h
push_probes_fit (p ∷ ps) out out' h e = elim (Bool-cases (ltb (length out) max_probes)) [
  | inr full ↦ cc (rw full at e)
  | inl room ↦
      push_probes_fit ps (out ++ record { swclk = p.swclk; swdio = p.swdio; reset = p.reset } ∷ [])
        out'
        (omega (
          arith,
          ltb→lt _ _ room,
          length-append out (record { swclk = p.swclk; swdio = p.swdio; reset = p.reset } ∷ []),
        ))
        (rw room at e)
]

push_uarts_fit :
    (us : List TomlUart) (out out' : List UartConfig)
    → length out ≤ max_uarts
    → push_uarts us out ≡ ok out'
    → length out' ≤ max_uarts
unfolding push_uarts
push_uarts_fit [] out out' h e = subst (λ l. length l ≤ max_uarts) (ok-injective e) h
push_uarts_fit (u ∷ us) out out' h e = elim (Bool-cases (ltb (length out) max_uarts)) [
  | inr full ↦ cc (rw full at e)
  | inl room ↦
      push_uarts_fit us (out ++ record { tx = u.tx; rx = u.rx; baud = u.baud } ∷ []) out'
        (omega (
          arith,
          ltb→lt _ _ room,
          length-append out (record { tx = u.tx; rx = u.rx; baud = u.baud } ∷ []),
        ))
        (rw room at e)
]

-- A file of more entries is refused.
pub into_topology-Fits : (file : TomlTopology) (t : Topology) → into_topology file ≡ ok t → Fits t
unfolding into_topology
into_topology-Fits file t e =
    let (probes, e1, r) = bind-eq-ok (push_probes file.probes []) _ e in
    let (uarts, e2, r') = bind-eq-ok (push_uarts file.uarts []) _ r in
    subst Fits (ok-injective r') (record {
      probes_fit = push_probes_fit file.probes [] probes (omega arith) e1;
      uarts_fit = push_uarts_fit file.uarts [] uarts (omega arith) e2;
    })
