-- ===== src/Cli/Loopback/Commit.antt =====
-- cli/src/session.rs and firmware/src/vendor.rs: storing a topology, from the first chunk to the commit.
use rustprobe.Common.{
  suc, ◌%◌, ◌≤◌, ◌≡◌, refl, ap, ◌∙◌, inl, inr, true, false, not, some, [], ◌∷◌, arith, ltb, ◌==◌,
  if◌then◌else◌, length, take, Result, ok, err, is_ok, Bool-cases,
}
use rustprobe.Config.{Topology, BoardProfile, ChipLimits, validate}
use rustprobe.Config.Protocol.{cmd_commit, status_err_invalid, status_err_flash, topology_buf_len}
use rustprobe.Firmware.Platform.{Platform, RoundTrips}
use rustprobe.Firmware.FlashConfig
use rustprobe.Firmware.FlashConfig.{CommitItem}
use rustprobe.Firmware.Vendor.{Service, handle}
use rustprobe.Firmware.Vendor
use rustprobe.Cli.Session.{SessionError, bad_status, too_long, and_then, request, set_topology}
use rustprobe.Cli.Loopback.{loopback}
use rustprobe.Cli.Loopback.Store.{Staged, send_all}

module _ {S : Type 0} (pf : Platform S) where
  -- What storing a topology comes to: the client's result and the flash afterwards.
  unfoldable pub storing :
      Topology → ChipLimits → BoardProfile → S → Result SessionError (Unit {0}) × S
  storing topo limits profile flash =
      let size = length (pf.topologies.encode topo) in
      let (done, flash') = FlashConfig.commit pf (CommitItem.topology topo) flash in
      if ltb topology_buf_len size
      then (err (too_long size), flash)
      else if not (is_ok (validate topo limits profile))
      then (err (bad_status status_err_invalid), flash)
      else (if done then ok tt else err (bad_status status_err_flash), flash')

  commit_next :
      (topo : Topology) (s s' : Service S)
      → RoundTrips pf.topologies
      → length (pf.topologies.encode topo) ≤ topology_buf_len
      → Staged pf (pf.topologies.encode topo) s s'
      → let after : Result SessionError (Unit {0}) × Service S =
          and_then
            (request (loopback pf) cmd_commit ((length (pf.topologies.encode topo) % 256) ∷ []) s')
            (λ _ q. (ok tt, q)) in
        (after.0, after.1.flash) ≡ storing topo s.limits s.profile s.flash
  unfolding request loopback Vendor.commit Vendor.commit_decoded storing
  commit_next topo s s' round fits done =
      let encoded = pf.topologies.encode topo in
      let long : ltb topology_buf_len (length encoded) ≡ false = ground arith in
      let total : length encoded % 256 ≡ length encoded = omega arith in
      let same : (s'.filled == length encoded) ≡ true = ground (arith, done.filled) in
      let decoded : pf.topologies.decode (take s'.filled s'.buf) ≡ some topo =
        ap (λ n. pf.topologies.decode (take n s'.buf)) done.filled
        ∙ ap pf.topologies.decode done.text
        ∙ round topo in
      elim (Bool-cases (is_ok (validate topo s.limits s.profile))) [
        | inr illegal ↦ rw (
          total, same, decoded, done.same_limits, done.same_profile, done.same_flash, long, illegal,
        )
        | inl legal ↦
            elim (Bool-cases (FlashConfig.commit pf (CommitItem.topology topo) s.flash).0) [
              | inl written ↦ rw (
                total, same, decoded, done.same_limits, done.same_profile, done.same_flash, long,
                legal, written,
              )
              | inr failed ↦ rw (
                total, same, decoded, done.same_limits, done.same_profile, done.same_flash, long,
                legal, failed,
              )
            ]
      ]

  -- If postcard's decoding inverts its encoding and the staging buffer has its size, the client's
  -- `set_topology` over the firmware's service returns and leaves the flash as `storing` says: an
  -- encoding that is too long is refused by the client and an illegal topology by the firmware, both
  -- with the flash as it was, and any other topology goes to the flash in one store, whose success
  -- or failure is the result.
  pub set_topology_lem :
      (topo : Topology) (s : Service S)
      → RoundTrips pf.topologies
      → length s.buf ≡ topology_buf_len
      → let after : Result SessionError (Unit {0}) × Service S =
          set_topology (loopback pf) pf.topologies topo s in
        (after.0, after.1.flash) ≡ storing topo s.limits s.profile s.flash
  unfolding set_topology storing
  set_topology_lem topo s round size =
      elim (Bool-cases (ltb topology_buf_len (length (pf.topologies.encode topo)))) [
        | inl long ↦ rw long
        | inr short ↦
            let fits : length (pf.topologies.encode topo) ≤ topology_buf_len = ground arith in
            let (s', sent, done) =
              send_all pf (pf.topologies.encode topo) fits
                (suc (length (pf.topologies.encode topo))) 0 s (omega arith) (omega arith) size
                (inl refl) refl in
            rw (short, sent) (rw short at (commit_next topo s s' round fits done))
      ]
