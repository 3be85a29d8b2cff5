-- ===== src/Firmware/FlashConfig.antt =====
-- firmware/src/flash_config.rs: configuration items in flash.
-- The requests of all tasks go through `COMMIT_LOCK` and the flash worker one at a time, and the
-- requester waits for the worker's result, so a commit is one call that returns the new flash.
use rustprobe.Common.{ℕ, Bool, false, Option, none, some}
use rustprobe.Config.{Topology, BoardProfile}
use rustprobe.Config.Protocol.{topology_buf_len}
use rustprobe.Firmware.Platform.{Platform, Postcard, to_slice}

abbrev pub key_topology : ℕ
key_topology = 1

abbrev pub key_profile : ℕ
key_profile = 2

pub data CommitItem : Type 0 where
  topology : Topology → CommitItem
  profile : BoardProfile → CommitItem

module _ {S : Type 0} (pf : Platform S) where
  unfoldable pub load_topology : S → Option Topology
  load_topology s = elim (pf.fetch_item key_topology s) [
    | none ↦ none
    | some raw ↦ pf.topologies.decode raw
  ]

  unfoldable pub load_profile : S → Option BoardProfile
  load_profile s = elim (pf.fetch_item key_profile s) [
    | none ↦ none
    | some raw ↦ pf.profiles.decode raw
  ]

  unfoldable pub store : {A : Type 0} → Postcard A → ℕ → A → S → Bool × S
  store c key value s = elim (to_slice c value topology_buf_len) [
    | none ↦ (false, s)
    | some encoded ↦ pf.store_item key encoded s
  ]

  -- One round of `flash_worker`.
  unfoldable pub commit : CommitItem → S → Bool × S
  unfolding store
  commit (topology t) s = store pf.topologies key_topology t s
  commit (profile p) s = store pf.profiles key_profile p s
