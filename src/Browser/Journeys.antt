-- ===== src/Browser/Journeys.antt =====
-- probe-config-wasm/src/core.rs: a topology on its ways through JSON, postcard and TOML.
use rustprobe.Common.{◌≡◌, ◌∙◌, sym, ok, guard, not, ltb, length, List, ℕ, bind-eq-ok, ok-injective}
use rustprobe.Config.{Topology}
use rustprobe.Config.Protocol.{topology_buf_len}
use rustprobe.Firmware.Platform.{RoundTrips}
use rustprobe.Toml.Text.{Text}
use rustprobe.Toml.Format.{IsFormat}
use rustprobe.Toml.Topologies.{
  into_topology, from_topology, Fits, into-from_topology, into_topology-Fits,
}
use rustprobe.Browser.{
  Formats, capacity, read, topology_from_json, topology_to_json, decode_topology, encode_topology,
  topology_to_toml, topology_from_toml, too_long,
}
use rustprobe.Browser.Verdicts.{map_err-eq-ok}

-- What the ways use of the formats.
pub record AreFormats (fs : Formats) : Type 0 where
  pub json : IsFormat fs.json_topologies
  pub toml : IsFormat fs.toml_topologies
  pub wire : RoundTrips fs.topologies

module _ (fs : Formats) (laws : AreFormats fs) where
  topology_from_json-Fits :
      (json : Text) (t : Topology) → topology_from_json fs json ≡ ok t → Fits t
  unfolding topology_from_json
  topology_from_json-Fits json t h =
      let (file, _, h') = bind-eq-ok (read fs.json_topologies json) _ h in
      into_topology-Fits file t (map_err-eq-ok capacity (into_topology file) h')

  -- The JSON of a topology is read back.
  topology_to_json-read :
      (t : Topology)
      → Fits t
      → (json : Text) × (topology_to_json fs t ≡ ok json) × (topology_from_json fs json ≡ ok t)
  unfolding topology_to_json topology_from_json
  topology_to_json-read t fit =
      let (json, e) = laws.json.writes (from_topology t) in
      (json, rw e, rw (laws.json.reads (from_topology t) json e, into-from_topology t fit))

  -- The TOML of a topology is read to its JSON.
  topology_to_toml-read :
      (json json' : Text) (t : Topology)
      → topology_from_json fs json ≡ ok t
      → topology_to_json fs t ≡ ok json'
      → (toml : Text) × (topology_to_toml fs json ≡ ok toml)
        × (topology_from_toml fs toml ≡ ok json')
  unfolding topology_to_toml topology_from_toml
  topology_to_toml-read json json' t h h' =
      let (toml, e) = laws.toml.writes (from_topology t) in
      (
        toml,
        rw (h, e),
        rw
            (
              laws.toml.reads (from_topology t) toml e,
              into-from_topology t (topology_from_json-Fits json t h),
            )
            h',
      )

  encode_topology-same :
      (json json' : Text) (t : Topology)
      → topology_from_json fs json ≡ ok t
      → topology_from_json fs json' ≡ ok t
      → encode_topology fs json ≡ encode_topology fs json'
  unfolding encode_topology
  encode_topology-same json json' t h h' = rw (h, h')

  decode_topology-encode :
      (json json' : Text) (t : Topology) (bytes : List ℕ)
      → topology_from_json fs json ≡ ok t
      → topology_to_json fs t ≡ ok json'
      → encode_topology fs json ≡ ok bytes
      → decode_topology fs bytes ≡ ok json'
  unfolding encode_topology decode_topology
  decode_topology-encode json json' t bytes h h' e =
      let encoded = fs.topologies.encode t in
      let (_, _, same) =
        bind-eq-ok (guard (not (ltb topology_buf_len (length encoded))) (too_long (length encoded)))
          (λ _. ok encoded) (rw h at e) in
      rw (← ok-injective same) (rw (laws.wire t) h')

  encode_topology-read :
      (json : Text) (bytes : List ℕ)
      → encode_topology fs json ≡ ok bytes
      → (t : Topology) × (topology_from_json fs json ≡ ok t)
  unfolding encode_topology
  encode_topology-read json bytes h =
      let (t, e, _) = bind-eq-ok (topology_from_json fs json) _ h in (t, e)

-- Where JSON and TOML texts and postcard's bytes are read back, the bytes that a JSON topology is
-- encoded to are decoded to a JSON text that is encoded to the same bytes, and the JSON topology is
-- written as a TOML text that is read to the same JSON text.
pub encode_topology-journey :
    (fs : Formats) (json : Text) (bytes : List ℕ)
    → AreFormats fs
    → encode_topology fs json ≡ ok bytes
    → (json' : Text) × (toml : Text) × (decode_topology fs bytes ≡ ok json')
      × (encode_topology fs json' ≡ ok bytes)
      × (topology_to_toml fs json ≡ ok toml)
      × (topology_from_toml fs toml ≡ ok json')
encode_topology-journey fs json bytes laws h =
    let (t, e) = encode_topology-read fs laws json bytes h in
    let (json', w, r) =
      topology_to_json-read fs laws t (topology_from_json-Fits fs laws json t e) in
    let (toml, w', r') = topology_to_toml-read fs laws json json' t e w in
    (
      json',
      toml,
      decode_topology-encode fs laws json json' t bytes e w h,
      sym (encode_topology-same fs laws json json' t e r) ∙ h,
      w',
      r',
    )
