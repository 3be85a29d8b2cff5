-- ===== src/Cli/Session/Transfers.antt =====
-- cli/src/session.rs: termination of the two loops, for any link.
use rustprobe.Common.{
  ℕ, zero, suc, ◌+◌, ◌%◌, ◌≤◌, ◌<◌, ◌≡◌, ◌≢◌, refl, ap, inl, inr, Bool, true, false, List, [], ◌∷◌,
  arith, ltb, leb, length, drop, get_or, min, All, IsByte, length-append, Result, ok, err,
  Bool-cases, Option-cases, err-injective, ◌⊎◌,
}
use rustprobe.Config.{Topology}
use rustprobe.Config.Protocol.{cmd_get_topology, cmd_set_topology, cmd_commit, topology_buf_len}
use rustprobe.Firmware.Platform.{Postcard}
use rustprobe.Cli.Session.{
  SessionError, stuck, Link, Session, and_then, check, request, extend, read_topology, get_topology,
  send_chunks, chunk_size, set_topology,
}

-- What a link promises: packets of bytes, and an error of its own is no `stuck`.
pub record IsLink {P : Type 0} (link : Link P) : Type 0 where
  pub replies_bytes : (req bs : List ℕ) (p : P) → (link.transceive req p).0 ≡ ok bs → All IsByte bs
  pub fails_by_itself : (req : List ℕ) (p : P) → (link.transceive req p).0 ≢ err stuck

module _ {P A B : Type 0} where
  and_then_ok :
      (r : Result SessionError A × P) (f : A → Session P B) {b : B}
      → (and_then r f).0 ≡ ok b
      → (a : A) × (p : P) × (r ≡ (ok a, p)) × ((f a p).0 ≡ ok b)
  and_then_ok (ok a, p) f h = (a, p, refl, h)
  and_then_ok (err e, p) f h = cc

  -- A method that is stuck was stuck in its first call, or in the rest.
  and_then_stuck :
      (r : Result SessionError A × P) (f : A → Session P B)
      → (and_then r f).0 ≡ err stuck
      → (r.0 ≡ err stuck) ⊎ ((a : A) × (p : P) × (r ≡ (ok a, p)) × ((f a p).0 ≡ err stuck))
  and_then_stuck (ok a, p) f h = inr (a, p, refl, h)
  and_then_stuck (err e, p) f h = inl (ap err (err-injective B h))

get_or-IsByte : (bs : List ℕ) (i : ℕ) → All IsByte bs → get_or bs i 0 < 256
get_or-IsByte [] i h = omega arith
get_or-IsByte (b ∷ bs) zero h = h.0
get_or-IsByte (b ∷ bs) (suc i) h = get_or-IsByte bs i h.1

check-ne-stuck : (resp : List ℕ) (cmd : ℕ) → check resp cmd ≢ err stuck
unfolding check
check-ne-stuck resp cmd h = ground arith

module _ {P : Type 0} (link : Link P) (good : IsLink link) where
  extend-ne-stuck : (buf resp : List ℕ) → extend link buf resp ≢ err stuck
  unfolding extend
  extend-ne-stuck buf resp h = ground arith

  -- A round that goes on has added a byte, and the buffer is still shorter than the total.
  extend_on :
      (buf resp buf' : List ℕ)
      → All IsByte resp
      → extend link buf resp ≡ ok (false, buf')
      → (length buf < length buf') × (length buf' < 256)
  unfolding extend
  extend_on buf resp buf' bytes h =
      ground (arith, get_or-IsByte resp 2 bytes, length-append buf (drop 3 resp))

  request_bytes :
      (cmd : ℕ) (args : List ℕ) (p : P) (resp : List ℕ)
      → (request link cmd args p).0 ≡ ok resp
      → All IsByte resp
  unfolding request
  request_bytes cmd args p resp h =
      let (bs, p', sent, h') = and_then_ok (link.transceive (cmd ∷ args) p) _ h in
      let (_, p'', checked, h'') = and_then_ok (check bs cmd, p') _ h' in
      let same : bs ≡ resp = cc in
      rw (← same) (
        good.replies_bytes (cmd ∷ args) bs p
          (ap (λ (r : Result SessionError (List ℕ) × P). r.0) sent))

  request-ne-stuck : (cmd : ℕ) (args : List ℕ) (p : P) → (request link cmd args p).0 ≢ err stuck
  unfolding request
  request-ne-stuck cmd args p h = elim (and_then_stuck (link.transceive (cmd ∷ args) p) _ h) [
    | inl e ↦ good.fails_by_itself (cmd ∷ args) p e
    | inr (bs, p', sent, h') ↦ elim (and_then_stuck (check bs cmd, p') _ h') [
      | inl e ↦ check-ne-stuck bs cmd e
      | inr (_, p'', checked, h'') ↦ cc
    ]
  ]

  read_topology-ne-stuck :
      (fuel : ℕ) (buf : List ℕ) (p : P)
      → length buf < 256
      → 256 ≤ fuel + length buf
      → (read_topology link fuel buf p).0 ≢ err stuck
  unfolding read_topology
  read_topology-ne-stuck zero buf p short enough h = absurd (omega arith)
  read_topology-ne-stuck (suc fuel) buf p short enough h =
      elim (and_then_stuck (request link cmd_get_topology ((length buf % 256) ∷ []) p) _ h) [
        | inl e ↦ request-ne-stuck _ _ p e
        | inr (resp, p', sent, h') ↦ elim (and_then_stuck (extend link buf resp, p') _ h') [
          | inl e ↦ extend-ne-stuck buf resp e
          | inr ((true, buf'), p'', step, h'') ↦ cc
          | inr ((false, buf'), p'', step, h'') ↦
              let bytes =
                request_bytes _ _ p resp
                  (ap (λ (r : Result SessionError (List ℕ) × P). r.0) sent) in
              let (grown, still) =
                extend_on buf resp buf' bytes
                  (ap (λ (r : Result SessionError (Bool × List ℕ) × P). r.0) step) in
              read_topology-ne-stuck fuel buf' p'' still (omega arith) h''
        ]
      ]

  -- Whatever bytes a probe answers, reading the topology ends within the rounds that the model
  -- allows: with a topology or with an error of the source.
  pub get_topology-ends : (c : Postcard Topology) (p : P) → (get_topology link c p).0 ≢ err stuck
  unfolding get_topology
  get_topology-ends c p h = elim (and_then_stuck (read_topology link 257 [] p) _ h) [
    | inl e ↦ read_topology-ne-stuck 257 [] p (omega arith) (omega arith) e
    | inr (buf, p', read, h') ↦ elim (Option-cases (c.decode buf)) [
      | inl e ↦ cc (rw e at h')
      | inr (t, e) ↦ cc (rw e at h')
    ]
  ]

  send_chunks-ne-stuck :
      (fuel offset : ℕ) (encoded : List ℕ) (p : P)
      → offset ≤ length encoded
      → length encoded < fuel + offset
      → (send_chunks link fuel offset encoded p).0 ≢ err stuck
  unfolding send_chunks
  send_chunks-ne-stuck zero offset encoded p within enough h = absurd (omega arith)
  send_chunks-ne-stuck (suc fuel) offset encoded p within enough h =
      let end = min (offset + chunk_size) (length encoded) in
      elim (and_then_stuck (request link cmd_set_topology _ p) _ h) [
        | inl e ↦ request-ne-stuck _ _ p e
        | inr (resp, p', sent, h') ↦ elim (Bool-cases (leb (length encoded) end)) [
          | inl last ↦ cc (rw last at h')
          | inr more ↦
              send_chunks-ne-stuck fuel end encoded p' (omega arith) (ground arith) (rw more at h')
        ]
      ]

  -- Whatever a probe answers, storing a topology ends within the rounds that the model allows.
  pub set_topology-ends :
      (c : Postcard Topology) (topo : Topology) (p : P) → (set_topology link c topo p).0 ≢ err stuck
  unfolding set_topology
  set_topology-ends c topo p h = elim (Bool-cases (ltb topology_buf_len (length (c.encode topo)))) [
    | inl long ↦ cc (rw long at h)
    | inr fits ↦
        let h' = rw fits at h in
        elim (and_then_stuck (send_chunks link (suc (length (c.encode topo))) 0 (c.encode topo) p) _
          h') [
            | inl e ↦ send_chunks-ne-stuck _ 0 (c.encode topo) p (omega arith) (omega arith) e
            | inr (_, p', sent, h'') ↦ elim (and_then_stuck (request link cmd_commit _ p') _ h'') [
              | inl e ↦ request-ne-stuck _ _ p' e
              | inr (resp, p'', done, h''') ↦ cc
            ]
          ]
  ]
