-- ===== src/Firmware/Platform.antt =====
-- What the configuration service uses of other crates: postcard's encoding of the configuration
-- types, and the key-value map that sequential-storage keeps in flash.
use rustprobe.Common.{ℕ, ◌≡◌, ◌≢◌, Bool, true, Option, some, none, List, leb, if◌then◌else◌, length}
use rustprobe.Config.{Topology, BoardProfile}
use rustprobe.Config.Protocol.{FirmwareInfo}

-- `postcard::to_stdvec` and `postcard::from_bytes`.
pub record Postcard (A : Type 0) : Type 0 where
  pub encode : A → List ℕ
  pub decode : List ℕ → Option A

-- `postcard::to_slice`, which fails if the encoding does not fit `room` bytes.
abbrev pub to_slice : {A : Type 0} → Postcard A → A → ℕ → Option (List ℕ)
to_slice c a room = if leb (length (c.encode a)) room then some (c.encode a) else none

-- `S` is the state of the flash. `store_item` says whether it has succeeded.
pub record Platform (S : Type 0) : Type 0 where
  pub topologies : Postcard Topology
  pub profiles : Postcard BoardProfile
  pub infos : Postcard FirmwareInfo
  pub fetch_item : ℕ → S → Option (List ℕ)
  pub store_item : ℕ → List ℕ → S → Bool × S

-- Decoding an encoding gives the value back.
abbrev pub RoundTrips : {A : Type 0} → Postcard A → Type 0
RoundTrips {A} c = (a : A) → c.decode (c.encode a) ≡ some a

-- After a successful store the key has the new bytes, and other keys have what they had.
pub record IsStorage {S : Type 0} (pf : Platform S) : Type 0 where
  pub fetch_stored :
      (k : ℕ) (bs : List ℕ) (s : S)
      → (pf.store_item k bs s).0 ≡ true
      → pf.fetch_item k (pf.store_item k bs s).1 ≡ some bs
  pub fetch_other :
      (k j : ℕ) (bs : List ℕ) (s : S)
      → k ≢ j
      → (pf.store_item k bs s).0 ≡ true
      → pf.fetch_item j (pf.store_item k bs s).1 ≡ pf.fetch_item j s
