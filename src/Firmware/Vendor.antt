-- ===== src/Firmware/Vendor.antt =====
-- firmware/src/vendor.rs: the handler of the configuration protocol.
-- A handler returns the bytes `response[..len]`; what the buffer holds behind them is never sent.
-- `room` is the size of the response buffer. A command is one step of the shared
-- state: what another interface does in the middle of one is not modelled, as between the check of a
-- topology against the profile, whose lock is then let go of, and its store.
use rustprobe.Common.{
  ℕ, ◌+◌, ◌-◌, ◌%◌, not, ◌||◌, none, some, List, [], ◌∷◌, ltb, ◌==◌, if◌then◌else◌, length, take,
  drop, get_elem?, get_or, replicate, write_at, min, is_ok,
}
use rustprobe.Config.{Topology, BoardProfile, ChipLimits, validate, validate_profile}
use rustprobe.Config.Protocol.{
  FirmwareInfo, cmd_info, cmd_get_topology, cmd_set_topology, cmd_commit, cmd_reboot, cmd_bootsel,
  cmd_get_profile, cmd_set_profile, status_ok, status_err_decode, status_err_invalid,
  status_err_flash, status_err_bad_request, topology_buf_len,
}
use rustprobe.Firmware.Platform.{Platform, to_slice}
use rustprobe.Firmware.FlashConfig
use rustprobe.Firmware.FlashConfig.{CommitItem}

abbrev pub get_chunk : ℕ
get_chunk = 61

-- `Staged` (`buf`, `filled`), the profile, the flash, and what is fixed at boot.
pub record Service (S : Type 0) : Type 0 where
  pub buf : List ℕ
  pub filled : ℕ
  pub profile : BoardProfile
  pub flash : S
  pub info : FirmwareInfo
  pub active : Topology
  pub limits : ChipLimits

pub data AfterResponse : Type 0 where
  nothing reboot bootsel : AfterResponse

module _ {S : Type 0} where
  -- `ConfigService::new`
  unfoldable pub new : FirmwareInfo → Topology → ChipLimits → BoardProfile → S → Service S
  new info active limits profile flash = record {
    buf = replicate topology_buf_len 0;
    filled = 0;
    profile = profile;
    flash = flash;
    info = info;
    active = active;
    limits = limits;
  }

abbrev pub reply : ℕ → ℕ → List ℕ → List ℕ
reply cmd status payload = cmd ∷ status ∷ payload

module _ {S : Type 0} (pf : Platform S) where
  -- `room` counts the bytes behind `cmd` and `status`.
  unfoldable pub get_info : ℕ → Service S → List ℕ
  get_info room s = elim (to_slice pf.infos s.info room) [
    | some payload ↦ reply cmd_info status_ok payload
    | none ↦ reply cmd_info status_err_bad_request []
  ]

  unfoldable pub get_topology : List ℕ → Service S → List ℕ
  get_topology request s = elim (to_slice pf.topologies s.active topology_buf_len) [
    | none ↦ reply cmd_get_topology status_err_decode []
    | some encoded ↦
        let offset = get_or request 1 0 in
        if ltb (length encoded) offset
        then reply cmd_get_topology status_err_bad_request []
        else (let chunk = min (length encoded - offset) get_chunk in
            reply cmd_get_topology status_ok
              ((length encoded % 256) ∷ take chunk (drop offset encoded)))
  ]

  -- Past the test on the offset: `data` is `&request[2..]`.
  unfoldable pub stage : ℕ → List ℕ → Service S → Service S × List ℕ
  stage offset data' s =
      let filled = (if offset == 0 then 0 else s.filled) in
      if not (offset == filled) || ltb topology_buf_len (filled + length data')
      then (record s { filled = filled }, reply cmd_set_topology status_err_bad_request [])
      else (
        record s { buf = write_at s.buf filled data'; filled = filled + length data' },
        reply cmd_set_topology status_ok [],
      )

  unfoldable pub set_topology : List ℕ → Service S → Service S × List ℕ
  unfolding stage
  set_topology request s = elim (get_elem? request 1) [
    | none ↦ (s, reply cmd_set_topology status_err_bad_request [])
    | some offset ↦ stage offset (drop 2 request) s
  ]

  -- Past the decoding of the staged bytes.
  unfoldable pub commit_decoded : Topology → Service S → Service S × List ℕ
  commit_decoded topo s =
      if not (is_ok (validate topo s.limits s.profile))
      then (s, reply cmd_commit status_err_invalid [])
      else (let (done, flash) = FlashConfig.commit pf (CommitItem.topology topo) s.flash in
          (
            record s { flash = flash },
            reply cmd_commit (if done then status_ok else status_err_flash) [],
          ))

  unfoldable pub commit : List ℕ → Service S → Service S × List ℕ
  unfolding commit_decoded
  commit request s = elim (get_elem? request 1) [
    | none ↦ (s, reply cmd_commit status_err_bad_request [])
    | some total ↦
        if not (s.filled == total)
        then (s, reply cmd_commit status_err_bad_request [])
        else elim (pf.topologies.decode (take s.filled s.buf)) [
          | none ↦ (s, reply cmd_commit status_err_decode [])
          | some topo ↦ commit_decoded topo s
        ]
  ]

  unfoldable pub get_profile : ℕ → Service S → List ℕ
  get_profile room s = elim (to_slice pf.profiles s.profile room) [
    | some payload ↦ reply cmd_get_profile status_ok payload
    | none ↦ reply cmd_get_profile status_err_decode []
  ]

  -- Past the decoding of the profile.
  unfoldable pub set_decoded : BoardProfile → Service S → Service S × List ℕ
  set_decoded p s =
      if not (is_ok (validate_profile p s.limits))
      then (s, reply cmd_set_profile status_err_invalid [])
      else (let (done, flash) = FlashConfig.commit pf (CommitItem.profile p) s.flash in
          if done
          then (record s { flash = flash; profile = p }, reply cmd_set_profile status_ok [])
          else (record s { flash = flash }, reply cmd_set_profile status_err_flash []))

  unfoldable pub set_profile : List ℕ → Service S → Service S × List ℕ
  unfolding set_decoded
  set_profile request s = elim (pf.profiles.decode (drop 1 request)) [
    | none ↦ (s, reply cmd_set_profile status_err_decode [])
    | some p ↦ set_decoded p s
  ]

  -- `ConfigService::handle`, for the command byte `request[0]`.
  unfoldable pub handle : ℕ → List ℕ → Service S → Service S × List ℕ × AfterResponse
  handle room request s =
      let cmd = get_or request 0 0 in
      if cmd == cmd_info
      then (s, get_info (room - 2) s, nothing)
      else if cmd == cmd_get_topology
      then (s, get_topology request s, nothing)
      else if cmd == cmd_set_topology
      then (let (s', r) = set_topology request s in (s', r, nothing))
      else if cmd == cmd_commit
      then (let (s', r) = commit request s in (s', r, nothing))
      else if cmd == cmd_get_profile
      then (s, get_profile (room - 2) s, nothing)
      else if cmd == cmd_set_profile
      then (let (s', r) = set_profile request s in (s', r, nothing))
      else if cmd == cmd_reboot
      then (s, reply cmd status_ok [], reboot)
      else if cmd == cmd_bootsel
      then (s, reply cmd status_ok [], bootsel)
      else (s, reply cmd status_err_bad_request [], nothing)
