-- ===== src/Cli/Loopback/Reboot.antt =====
-- cli/src/session.rs and firmware/src/main.rs: a stored topology across a reset.
use rustprobe.Common.{
  ℕ, ◌≤◌, ◌≡◌, refl, sym, ap, ◌∙◌, inl, inr, Bool, true, false, some, List, arith, ltb, leb, length,
  length-replicate, Result, ok, is_ok, Bool-cases,
}
use rustprobe.Config.{Topology, BoardProfile, ChipLimits, validate}
use rustprobe.Config.Protocol.{topology_buf_len}
use rustprobe.Firmware.Platform.{Platform, RoundTrips, IsStorage}
use rustprobe.Firmware.FlashConfig
use rustprobe.Firmware.FlashConfig.{
  CommitItem, key_topology, key_profile, load_topology, load_profile,
}
use rustprobe.Firmware.Vendor.{Service, new}
use rustprobe.Firmware.Boot.{Build, boot_topology, boot}
use rustprobe.Cli.Session.{SessionError, set_topology, get_topology}
use rustprobe.Cli.Loopback.{loopback}
use rustprobe.Cli.Loopback.Commit.{storing, set_topology_lem}
use rustprobe.Cli.Loopback.Fetch.{get_topology_lem}

module _ {S : Type 0} (pf : Platform S) where
  abbrev committed : Topology → S → Bool × S
  committed topo = FlashConfig.commit pf (CommitItem.topology topo)

  -- What a successful `set_topology` has found and done.
  record Stored (topo : Topology) (limits : ChipLimits) (profile : BoardProfile) (flash flash' : S)
      : Type 0 where
    short : length (pf.topologies.encode topo) ≤ topology_buf_len
    legal : is_ok (validate topo limits profile) ≡ true
    done : (committed topo flash).0 ≡ true
    after : flash' ≡ (committed topo flash).1

  storing_ok :
      (topo : Topology) (limits : ChipLimits) (profile : BoardProfile) (flash : S)
      → (storing pf topo limits profile flash).0 ≡ ok tt
      → Stored topo limits profile flash (storing pf topo limits profile flash).1
  unfolding storing
  storing_ok topo limits profile flash h =
      elim (Bool-cases (ltb topology_buf_len (length (pf.topologies.encode topo)))) [
        | inl long ↦ cc (rw long at h)
        | inr short ↦ elim (Bool-cases (is_ok (validate topo limits profile))) [
          | inr illegal ↦ cc (rw (short, illegal) at h)
          | inl legal ↦ elim (Bool-cases (committed topo flash).0) [
            | inr failed ↦ cc (rw (short, legal, failed) at h)
            | inl done ↦
                rw (short, legal)
                  (record { short = ground arith; legal = legal; done = done; after = refl })
          ]
        ]
      ]

  committed-item :
      (topo : Topology) (flash : S)
      → length (pf.topologies.encode topo) ≤ topology_buf_len
      → committed topo flash ≡ pf.store_item key_topology (pf.topologies.encode topo) flash
  unfolding FlashConfig.commit FlashConfig.store
  committed-item topo flash short =
      let room : leb (length (pf.topologies.encode topo)) topology_buf_len ≡ true = ground arith in
      rw (room, FlashConfig.store)

  module _ (round : RoundTrips pf.topologies) (storage : IsStorage pf) (topo : Topology) where
    abbrev encoded : List ℕ
    encoded = pf.topologies.encode topo

    reloaded :
        (flash : S)
        → length encoded ≤ topology_buf_len
        → (committed topo flash).0 ≡ true
        → (load_topology pf (committed topo flash).1 ≡ some topo)
          × (load_profile pf (committed topo flash).1 ≡ load_profile pf flash)
    unfolding load_topology load_profile
    reloaded flash short done =
        let item = committed-item topo flash short in
        let done' : (pf.store_item key_topology encoded flash).0 ≡ true = rw item at done in
        let here = storage.fetch_stored key_topology encoded flash done' in
        let there =
          storage.fetch_other key_topology key_profile encoded flash (λ e. omega arith) done' in
        (rw (item, load_topology, here) (round topo), rw (item, load_profile, there))

    booted :
        (build : Build) (flash flash' : S)
        → Stored topo build.limits (boot pf build flash).profile flash flash'
        → ((boot pf build flash').active ≡ topo)
          × ((boot pf build flash').info.config_fault ≡ false)
          × ((boot pf build flash').profile ≡ (boot pf build flash).profile)
    unfolding boot boot_topology
    booted build flash flash' stored =
        let (same_topology, same_profile) = reloaded flash stored.short stored.done in
        rw (stored.after, same_topology, same_profile, stored.legal) (refl, refl, refl)

    buffer : (build : Build) (flash : S) → length (boot pf build flash).buf ≡ topology_buf_len
    unfolding boot new
    buffer build flash = length-replicate {A = ℕ} topology_buf_len 0

    set_topology-Stored :
        (build : Build) (flash : S)
        → let after : Result SessionError (Unit {0}) × Service S =
            set_topology (loopback pf) pf.topologies topo (boot pf build flash) in
          after.0 ≡ ok tt
          → Stored topo build.limits (boot pf build flash).profile flash after.1.flash
    unfolding boot new
    set_topology-Stored build flash h =
        let s = boot pf build flash in
        let after : Result SessionError (Unit {0}) × Service S =
          set_topology (loopback pf) pf.topologies topo s in
        let ran : (after.0, after.1.flash) ≡ storing pf topo build.limits s.profile flash =
          set_topology_lem pf topo s round (buffer build flash) in
        let accepted = ap (λ (r : Result SessionError (Unit {0}) × S). r.0) ran in
        let flashed = ap (λ (r : Result SessionError (Unit {0}) × S). r.1) ran in
        rw flashed (storing_ok topo build.limits s.profile flash (sym accepted ∙ h))

    -- If postcard's decoding inverts its encoding and the flash keeps what it stores, then after the
    -- client's `set_topology` has returned `Ok` and the probe has been reset, the client's `get_topology` returns that
    -- topology, the firmware reports no fault of the stored topology, and the board profile is the
    -- one from before.
    pub set_topology-boot :
        (build : Build) (flash : S)
        → let after : Result SessionError (Unit {0}) × Service S =
            set_topology (loopback pf) pf.topologies topo (boot pf build flash) in
          after.0 ≡ ok tt
          → let s = boot pf build after.1.flash in
            ((get_topology (loopback pf) pf.topologies s).0 ≡ ok topo)
            × (s.info.config_fault ≡ false)
            × (s.profile ≡ (boot pf build flash).profile)
    set_topology-boot build flash h =
        let after : Result SessionError (Unit {0}) × Service S =
          set_topology (loopback pf) pf.topologies topo (boot pf build flash) in
        let stored = set_topology-Stored build flash h in
        let (active, faultless, profile) = booted build flash after.1.flash stored in
        let s = boot pf build after.1.flash in
        let fits : length (pf.topologies.encode s.active) ≤ topology_buf_len =
          rw active stored.short in
        let read = get_topology_lem pf s fits round in
        (
          ap (λ (r : Result SessionError Topology × Service S). r.0) read ∙ ap ok active,
          faultless,
          profile,
        )
