-- ===== src/Cli/Loopback/Store.antt =====
-- cli/src/session.rs and firmware/src/vendor.rs: the client's chunks and the firmware's staging.
use rustprobe.Common.{
  ℕ, zero, suc, ◌+◌, ◌-◌, ◌%◌, ◌≤◌, ◌<◌, ◌≡◌, refl, sym, ap, ◌∙◌, ◌⊎◌, inl, inr, false, not, ◌||◌,
  List, [], ◌∷◌, ◌++◌, arith, ltb, leb, ◌==◌, if◌then◌else◌, length, take, drop, min, length-take,
  length-drop, ok, Bool-cases, write_at, length-write_at, take-write_at, take-take-drop, take_all,
}
use rustprobe.Config.Protocol.{cmd_set_topology, status_ok, topology_buf_len}
use rustprobe.Firmware.Platform.{Platform}
use rustprobe.Firmware.Vendor.{Service, handle, reply, stage}
use rustprobe.Firmware.Vendor
use rustprobe.Cli.Session.{request, send_chunks, chunk_size}
use rustprobe.Cli.Loopback.{loopback}

module _ {S : Type 0} (pf : Platform S) where
  -- The service after it has staged `bs` at `offset`.
  abbrev staged : ℕ → List ℕ → Service S → Service S
  staged offset bs s = record s { buf = write_at s.buf offset bs; filled = offset + length bs }

  -- The service accepts the chunk that comes next, and the first chunk at any time.
  stage_next :
      (offset : ℕ) (bs : List ℕ) (s : Service S)
      → (offset ≡ 0) ⊎ (s.filled ≡ offset)
      → offset + length bs ≤ topology_buf_len
      → stage pf offset bs s ≡ (staged offset bs s, reply cmd_set_topology status_ok [])
  unfolding stage
  stage_next offset bs s next fits =
      let e : (if offset == 0 then 0 else s.filled) ≡ offset = ground arith in
      let accepted : (not (offset == offset) || ltb topology_buf_len (offset + length bs)) ≡ false =
        ground arith in
      rw (e, accepted)

  send_next :
      (offset : ℕ) (bs : List ℕ) (s : Service S)
      → (offset ≡ 0) ⊎ (s.filled ≡ offset)
      → offset + length bs ≤ topology_buf_len
      → request (loopback pf) cmd_set_topology ((offset % 256) ∷ bs) s
        ≡ (ok (reply cmd_set_topology status_ok []), staged offset bs s)
  unfolding request loopback Vendor.set_topology
  send_next offset bs s next fits =
      let e : offset % 256 ≡ offset = omega arith in rw (e, stage_next offset bs s next fits)

  -- The whole encoding is staged, and nothing else has changed.
  pub record Staged (encoded : List ℕ) (s s' : Service S) : Type 0 where
    pub filled : s'.filled ≡ length encoded
    pub text : take (length encoded) s'.buf ≡ encoded
    pub same_flash : s'.flash ≡ s.flash
    pub same_profile : s'.profile ≡ s.profile
    pub same_limits : s'.limits ≡ s.limits

  module _ (encoded : List ℕ) (fits : length encoded ≤ topology_buf_len) where
    abbrev chunk : ℕ → List ℕ
    chunk offset = take (min (offset + chunk_size) (length encoded) - offset) (drop offset encoded)

    length-chunk :
        (offset : ℕ)
        → offset ≤ length encoded
        → offset + length (chunk offset) ≡ min (offset + chunk_size) (length encoded)
    length-chunk offset h = omega (
      arith,
      length-take (min (offset + chunk_size) (length encoded) - offset) (drop offset encoded),
      length-drop offset encoded,
    )

    take-staged :
        (offset : ℕ) (s : Service S)
        → offset ≤ length encoded
        → length s.buf ≡ topology_buf_len
        → take offset s.buf ≡ take offset encoded
        → take (offset + length (chunk offset)) (staged offset (chunk offset) s).buf
          ≡ take (offset + length (chunk offset)) encoded
    take-staged offset s h size front =
        let end = length-chunk offset h in
        let k = min (offset + chunk_size) (length encoded) - offset in
        let to_end : offset + k ≡ offset + length (chunk offset) = omega (arith, end) in
        let joined : take offset encoded ++ chunk offset
            ≡ take (offset + length (chunk offset)) encoded =
          rw (← to_end) (take-take-drop offset k encoded) in
        take-write_at s.buf (chunk offset) offset (omega (arith, end)) ∙ rw front joined

    pub send_all :
        (fuel offset : ℕ) (s : Service S)
        → offset ≤ length encoded
        → length encoded < fuel + offset
        → length s.buf ≡ topology_buf_len
        → (offset ≡ 0) ⊎ (s.filled ≡ offset)
        → take offset s.buf ≡ take offset encoded
        → (s' : Service S) × (send_chunks (loopback pf) fuel offset encoded s ≡ (ok tt, s'))
          × Staged encoded s s'
    unfolding send_chunks
    send_all zero offset s within enough size next front = absurd (omega arith)
    send_all (suc fuel) offset s within enough size next front =
        let end = min (offset + chunk_size) (length encoded) in
        let at_end = length-chunk offset within in
        let s1 = staged offset (chunk offset) s in
        let sent : request (loopback pf) cmd_set_topology ((offset % 256) ∷ chunk offset) s
            ≡ (ok (reply cmd_set_topology status_ok []), s1) =
          send_next offset (chunk offset) s next (omega (arith, at_end)) in
        let front1 : take end s1.buf ≡ take end encoded =
          ap (λ n. take n s1.buf) (sym at_end)
          ∙ take-staged offset s within size front
          ∙ ap (λ n. take n encoded) at_end in
        let filled1 : s1.filled ≡ end = at_end in
        let size1 : length s1.buf ≡ topology_buf_len =
          (length-write_at s.buf (chunk offset) offset (omega (arith, at_end)) ∙ size) in
        elim (Bool-cases (leb (length encoded) end)) [
          | inl last ↦
              let all : end ≡ length encoded = ground arith in
              (
                s1,
                rw (sent, last),
                record {
                  filled = filled1 ∙ all;
                  text =
                      ap (λ n. take n s1.buf) (sym all)
                      ∙ front1
                      ∙ ap (λ n. take n encoded) all
                      ∙ take_all encoded;
                  same_flash = refl;
                  same_profile = refl;
                  same_limits = refl;
                },
              )
          | inr more ↦
              let (s', ran, done) =
                send_all fuel end s1 (omega arith) (ground arith) size1 (inr filled1) front1 in
              (
                s',
                rw (sent, more) ran,
                record {
                  filled = done.filled;
                  text = done.text;
                  same_flash = done.same_flash ∙ refl;
                  same_profile = done.same_profile ∙ refl;
                  same_limits = done.same_limits ∙ refl;
                },
              )
        ]
