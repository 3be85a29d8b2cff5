-- ===== src/Browser.antt =====
-- probe-config-wasm/src/core.rs: the schema for the browser, with JSON texts in and out.
-- serde_json and toml are a parameter, and so is postcard. The texts of the messages are names, and
-- the object that reports a defect of a configuration is its `code` and its `pin`.
pub mod Verdicts
pub mod Journeys
mod Tests
use rustprobe.Common.{
  ℕ, zero, suc, ◌+◌, ◌^◌, ◌≡◌, Bool, true, false, Option, none, some, List, [], ◌∷◌, length, ltb,
  if◌then◌else◌, bit_or, Result, ok, err, ◌>>=◌, ◌>>◌, guard, ok_or, not,
}
use rustprobe.Common.Bits.{has_bit}
use rustprobe.Config.{
  Topology, BoardProfile, ChipLimits, ValidationError, too_many_probes, too_many_uarts,
  endpoint_budget, pin_unavailable, pin_conflict, pio_window, uart_pin_mux, uart_instance_conflict,
  profile_pin_range, profile_empty,
}
use rustprobe.Config
use rustprobe.Config.Protocol.{FirmwareInfo, topology_buf_len}
use rustprobe.Firmware.Platform.{Postcard}
use rustprobe.Toml.Text.{Text}
use rustprobe.Toml.Format.{Format}
use rustprobe.Toml.Ranges.{RangeError, parse_pin_ranges, format_pin_ranges}
use rustprobe.Toml.Board.{TomlBoardProfile, into_profile, from_profile}
use rustprobe.Toml.Topologies.{TomlTopology, CapacityError, into_topology, from_topology}

pub record Formats : Type 0 where
  pub json_topologies : Format TomlTopology
  pub json_profiles : Format TomlBoardProfile
  pub json_limits : Format ChipLimits
  pub json_infos : Format FirmwareInfo
  pub json_pins : Format (List ℕ)
  pub toml_topologies : Format TomlTopology
  pub toml_profiles : Format TomlBoardProfile
  pub topologies : Postcard Topology
  pub profiles : Postcard BoardProfile
  pub infos : Postcard FirmwareInfo

pub data CoreError : Type 0 where
  decode_failed parse_failed write_failed : CoreError
  capacity : CapacityError → CoreError
  range : RangeError → CoreError
  too_long pin_out_of_range : ℕ → CoreError

-- `map_err`
abbrev pub map_err : {E A : Type 0} → (E → CoreError) → Result E A → Result CoreError A
map_err f (ok a) = ok a
map_err f (err e) = err (f e)

abbrev pub write : {A : Type 0} → Format A → A → Result CoreError Text
write f a = ok_or (f.to_string a) write_failed

abbrev pub read : {A : Type 0} → Format A → Text → Result CoreError A
read f s = ok_or (f.from_str s) parse_failed

-- What `validation_json` writes.
pub data Code : Type 0 where
  code_too_many_probes code_too_many_uarts code_endpoint_budget code_pin_unavailable : Code
  code_pin_conflict code_pio_window code_uart_pin_mux code_uart_instance_conflict : Code
  code_profile_pin_range code_profile_empty : Code

pub data Verdict : Type 0 where
  null : Verdict
  defect : Code → Option ℕ → Verdict

unfoldable pub defect_of : ValidationError → Verdict
defect_of too_many_probes = defect code_too_many_probes none
defect_of too_many_uarts = defect code_too_many_uarts none
defect_of endpoint_budget = defect code_endpoint_budget none
defect_of (pin_unavailable p) = defect code_pin_unavailable (some p)
defect_of (pin_conflict p) = defect code_pin_conflict (some p)
defect_of pio_window = defect code_pio_window none
defect_of (uart_pin_mux p) = defect code_uart_pin_mux (some p)
defect_of (uart_instance_conflict i) = defect code_uart_instance_conflict (some i)
defect_of profile_pin_range = defect code_profile_pin_range none
defect_of profile_empty = defect code_profile_empty none

unfoldable pub validation_json : Result ValidationError (Unit {0}) → Verdict
validation_json (ok _) = null
validation_json (err e) = defect_of e

module _ (fs : Formats) where
  unfoldable pub decode_info : List ℕ → Result CoreError Text
  decode_info bytes = do
    info ← ok_or (fs.infos.decode bytes) decode_failed
    write fs.json_infos info

  unfoldable pub topology_from_json : Text → Result CoreError Topology
  topology_from_json json = do
    file ← read fs.json_topologies json
    map_err capacity (into_topology file)

  unfoldable pub topology_to_json : Topology → Result CoreError Text
  topology_to_json t = write fs.json_topologies (from_topology t)

  unfoldable pub decode_topology : List ℕ → Result CoreError Text
  decode_topology bytes = do
    t ← ok_or (fs.topologies.decode bytes) decode_failed
    topology_to_json t

  unfoldable pub encode_topology : Text → Result CoreError (List ℕ)
  encode_topology json = do
    t ← topology_from_json json
    let bytes = fs.topologies.encode t
    guard (not (ltb topology_buf_len (length bytes))) (too_long (length bytes))
    ok bytes

  unfoldable pub profile_from_json : Text → Result CoreError BoardProfile
  profile_from_json json = do file ← read fs.json_profiles json; map_err range (into_profile file)

  unfoldable pub profile_to_json : BoardProfile → Result CoreError Text
  profile_to_json b = write fs.json_profiles (from_profile b)

  unfoldable pub decode_profile : List ℕ → Result CoreError Text
  decode_profile bytes = do b ← ok_or (fs.profiles.decode bytes) decode_failed; profile_to_json b

  unfoldable pub encode_profile : Text → Result CoreError (List ℕ)
  encode_profile json = do b ← profile_from_json json; ok (fs.profiles.encode b)

  unfoldable pub limits_from_json : Text → Result CoreError ChipLimits
  limits_from_json json = read fs.json_limits json

  unfoldable pub validate_topology : Text → Text → Text → Result CoreError Verdict
  validate_topology topology limits profile = do
    t ← topology_from_json topology
    chip ← limits_from_json limits
    b ← profile_from_json profile
    ok (validation_json (Config.validate t chip b))

  unfoldable pub validate_profile : Text → Text → Result CoreError Verdict
  validate_profile profile limits = do
    b ← profile_from_json profile
    chip ← limits_from_json limits
    ok (validation_json (Config.validate_profile b chip))

  unfoldable pub topology_to_toml : Text → Result CoreError Text
  topology_to_toml json = do t ← topology_from_json json; write fs.toml_topologies (from_topology t)

  unfoldable pub topology_from_toml : Text → Result CoreError Text
  topology_from_toml text = do
    file ← read fs.toml_topologies text
    t ← map_err capacity (into_topology file)
    topology_to_json t

  unfoldable pub profile_to_toml : Text → Result CoreError Text
  profile_to_toml json = do b ← profile_from_json json; write fs.toml_profiles (from_profile b)

  unfoldable pub profile_from_toml : Text → Result CoreError Text
  profile_from_toml text = do
    file ← read fs.toml_profiles text
    b ← map_err range (into_profile file)
    profile_to_json b

  -- `(0..64).filter(..)`, from pin `p` on.
  unfoldable pub pins_of : ℕ → ℕ → ℕ → List ℕ
  pins_of zero mask p = []
  pins_of (suc left) mask p =
      let rest = pins_of left mask (p + 1) in if has_bit mask p then p ∷ rest else rest

  unfoldable pub pins_in_ranges : Text → Result CoreError Text
  pins_in_ranges text = do
    mask ← map_err range (parse_pin_ranges text)
    write fs.json_pins (pins_of 64 mask 0)

  -- The loop over the pins.
  unfoldable pub mask_of : List ℕ → ℕ → Result CoreError ℕ
  mask_of [] mask = ok mask
  mask_of (p ∷ ps) mask =
      let rest = mask_of ps (bit_or mask (2 ^ p)) in
      if ltb 63 p then err (pin_out_of_range p) else rest

  unfoldable pub pins_to_ranges : Text → Result CoreError Text
  pins_to_ranges json = do
    pins ← read fs.json_pins json
    mask ← mask_of pins 0
    ok (format_pin_ranges mask)
