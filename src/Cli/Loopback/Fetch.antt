-- ===== src/Cli/Loopback/Fetch.antt =====
-- cli/src/session.rs and firmware/src/vendor.rs: reading the topology chunk by chunk.
use rustprobe.Common.{
  ℕ, zero, suc, ◌+◌, ◌-◌, ◌%◌, ◌≤◌, ◌<◌, ◌≡◌, ap, ◌∙◌, ◌⊎◌, inl, inr, true, false, List, [], ◌∷◌,
  ◌++◌, arith, ltb, leb, ◌==◌, length, take, drop, min, Result, ok, Bool-cases, length-take,
  length-drop, take-take-drop, take_ge, take_all,
}
use rustprobe.Config.Protocol.{cmd_get_topology, status_ok, topology_buf_len}
use rustprobe.Firmware.Platform.{Platform, RoundTrips}
use rustprobe.Firmware.Vendor.{Service, handle, reply, get_chunk}
use rustprobe.Firmware.Vendor
use rustprobe.Cli.Session.{SessionError, request, extend, read_topology, get_topology}
use rustprobe.Cli.Loopback.{loopback, packet_size}
use rustprobe.Cli.Loopback.Replies.{check-reply}

-- The rest of a text is split after `get_chunk` bytes.
abbrev chunk : List ℕ → ℕ → List ℕ
chunk encoded offset = take (min (length encoded - offset) get_chunk) (drop offset encoded)

length-chunk :
    (encoded : List ℕ) (offset : ℕ)
    → length (chunk encoded offset) ≡ min (length encoded - offset) get_chunk
length-chunk encoded offset = omega (
  arith,
  length-take (min (length encoded - offset) get_chunk) (drop offset encoded),
  length-drop offset encoded,
)

module _ {S : Type 0} (pf : Platform S) (s : Service S)
    (fits : length (pf.topologies.encode s.active) ≤ topology_buf_len) where
  abbrev encoded : List ℕ
  encoded = pf.topologies.encode s.active

  abbrev answer : ℕ → List ℕ
  answer offset = reply cmd_get_topology status_ok ((length encoded % 256) ∷ chunk encoded offset)

  get_topology_at :
      (offset : ℕ)
      → offset ≤ length encoded
      → Vendor.get_topology pf (cmd_get_topology ∷ offset ∷ []) s ≡ answer offset
  unfolding Vendor.get_topology
  get_topology_at offset within =
      let room : leb (length encoded) topology_buf_len ≡ true = ground arith in
      let inside : ltb (length encoded) offset ≡ false = ground arith in
      rw (room, inside, Vendor.get_topology)

  abbrev answered : List ℕ → Result SessionError (List ℕ) × Service S
  answered r = (ok r, s)

  exchange :
      (offset : ℕ)
      → offset ≤ length encoded
      → (loopback pf).transceive (cmd_get_topology ∷ offset ∷ []) s ≡ (ok (answer offset), s)
  unfolding loopback
  exchange offset within =
      let packet : take packet_size (answer offset) ≡ answer offset =
        take_ge packet_size (answer offset) (omega (arith, length-chunk encoded offset)) in
      ap (λ (r : List ℕ). answered (take packet_size r)) (get_topology_at offset within)
      ∙ ap answered packet

  fetch_next :
      (offset : ℕ)
      → offset ≤ length encoded
      → request (loopback pf) cmd_get_topology ((offset % 256) ∷ []) s ≡ (ok (answer offset), s)
  unfolding request
  fetch_next offset within =
      let e : offset % 256 ≡ offset = omega arith in
      rw (
        e,
        exchange offset within,
        check-reply cmd_get_topology ((length encoded % 256) ∷ chunk encoded offset),
      )

  extend_at :
      (offset : ℕ)
      → offset ≤ length encoded
      → (extend (loopback pf) (take offset encoded) (answer offset) ≡ ok (true, encoded))
        ⊎ ((extend (loopback pf) (take offset encoded) (answer offset)
              ≡ ok (false, take (offset + get_chunk) encoded))
            × (offset + get_chunk < length encoded))
  unfolding extend
  extend_at offset within =
      let enough : ltb (length (answer offset)) 3 ≡ false = ground arith in
      let total : length encoded % 256 ≡ length encoded = omega arith in
      let so_far : length (take offset encoded) ≡ offset =
        omega (arith, length-take offset encoded) in
      let k = min (length encoded - offset) get_chunk in
      let joined : take offset encoded ++ chunk encoded offset ≡ take (offset + k) encoded =
        take-take-drop offset k encoded in
      let size : length (take (offset + k) encoded) ≡ offset + k =
        omega (arith, length-take (offset + k) encoded) in
      let added : length (chunk encoded offset) ≡ k = length-chunk encoded offset in
      elim (Bool-cases (leb (length encoded) offset)) [
        | inl read ↦
            let whole : take offset encoded ≡ encoded = take_ge offset encoded (ground arith) in
            inl (rw (enough, total, so_far, read, whole))
        | inr unread ↦
            let more : (k == 0) ≡ false = ground arith in
            elim (Bool-cases (leb (length encoded) (offset + k))) [
              | inl last ↦
                  let whole : take (length encoded) (take (offset + k) encoded) ≡ encoded =
                    ap (take (length encoded)) (take_ge (offset + k) encoded (ground arith))
                    ∙ take_all encoded in
                  inl (rw (enough, total, so_far, unread, added, more, joined, size, last, whole))
              | inr rest ↦
                  let full : k ≡ get_chunk = ground arith in
                  inr (
                    rw (enough, total, so_far, unread, added, more, joined, size, rest, full),
                    ground arith,
                  )
            ]
      ]

  read_all :
      (fuel offset : ℕ)
      → offset ≤ length encoded
      → length encoded < fuel + offset
      → read_topology (loopback pf) fuel (take offset encoded) s ≡ (ok encoded, s)
  unfolding read_topology
  read_all zero offset within enough = absurd (omega arith)
  read_all (suc fuel) offset within enough =
      let so_far : length (take offset encoded) ≡ offset =
        omega (arith, length-take offset encoded) in
      elim (extend_at offset within) [
        | inl whole ↦ rw (so_far, fetch_next offset within, whole)
        | inr (part, more) ↦
            rw (so_far, fetch_next offset within, part)
              (read_all fuel (offset + get_chunk) (omega arith) (omega arith))
      ]

  -- If the active topology's encoding fits the protocol's limit of 128 bytes and postcard's decoding
  -- inverts its encoding, the client's `get_topology` over the firmware's service returns the active
  -- topology and leaves the service as it was.
  pub get_topology_lem :
      RoundTrips pf.topologies → get_topology (loopback pf) pf.topologies s ≡ (ok s.active, s)
  unfolding get_topology
  get_topology_lem round = rw (read_all 257 0 (omega arith) (omega arith), round s.active)
