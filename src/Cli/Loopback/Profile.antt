-- ===== src/Cli/Loopback/Profile.antt =====
-- cli/src/session.rs and firmware/src/vendor.rs: the board profile over the protocol.
use rustprobe.Common.{
  ◌-◌, ◌≤◌, ◌≡◌, inl, inr, true, not, [], ◌∷◌, arith, leb, if◌then◌else◌, length, take, Result, ok,
  err, is_ok, Bool-cases, take_ge,
}
use rustprobe.Config.{BoardProfile, validate_profile}
use rustprobe.Config.Protocol.{
  cmd_get_profile, cmd_set_profile, status_ok, status_err_invalid, status_err_flash,
}
use rustprobe.Firmware.Platform.{Platform, RoundTrips}
use rustprobe.Firmware.FlashConfig
use rustprobe.Firmware.FlashConfig.{CommitItem}
use rustprobe.Firmware.Vendor.{Service, handle, reply}
use rustprobe.Firmware.Vendor
use rustprobe.Cli.Session.{SessionError, bad_status, check, request, get_profile, set_profile}
use rustprobe.Cli.Loopback.{loopback, packet_size, reply_room}
use rustprobe.Cli.Loopback.Replies.{check-reply}

module _ {S : Type 0} (pf : Platform S) where
  -- What setting a profile comes to: the client's result, the profile in use and the flash.
  unfoldable pub setting :
      BoardProfile → Service S → Result SessionError (Unit {0}) × BoardProfile × S
  setting p s =
      let (done, flash') = FlashConfig.commit pf (CommitItem.profile p) s.flash in
      if not (is_ok (validate_profile p s.limits))
      then (err (bad_status status_err_invalid), s.profile, s.flash)
      else if done
      then (ok tt, p, flash')
      else (err (bad_status status_err_flash), s.profile, flash')

  decoded :
      (p : BoardProfile) (s : Service S)
      → RoundTrips pf.profiles
      → Vendor.set_profile pf (cmd_set_profile ∷ pf.profiles.encode p) s ≡ Vendor.set_decoded pf p s
  unfolding Vendor.set_profile
  decoded p s round = rw (round p, Vendor.set_profile)

  -- If postcard's decoding inverts its encoding, the client's `set_profile` over the firmware's
  -- service comes to what `setting` says: an illegal profile is refused and nothing changes, and a
  -- legal one goes to the flash and, only if the flash takes it, into use.
  pub set_profile_lem :
      (p : BoardProfile) (s : Service S)
      → RoundTrips pf.profiles
      → let after : Result SessionError (Unit {0}) × Service S =
          set_profile (loopback pf) pf.profiles p s in
        (after.0, after.1.profile, after.1.flash) ≡ setting p s
  unfolding set_profile request check loopback Vendor.set_decoded setting
  set_profile_lem p s round = elim (Bool-cases (is_ok (validate_profile p s.limits))) [
    | inr illegal ↦ rw (decoded p s round, illegal)
    | inl legal ↦ elim (Bool-cases (FlashConfig.commit pf (CommitItem.profile p) s.flash).0) [
      | inl written ↦ rw (decoded p s round, legal, written)
      | inr failed ↦ rw (decoded p s round, legal, failed)
    ]
  ]

  fetched :
      (s : Service S)
      → length (pf.profiles.encode s.profile) ≤ packet_size - 2
      → (loopback pf).transceive (cmd_get_profile ∷ []) s
        ≡ (ok (reply cmd_get_profile status_ok (pf.profiles.encode s.profile)), s)
  unfolding loopback Vendor.get_profile
  fetched s short =
      let room : leb (length (pf.profiles.encode s.profile)) (reply_room - 2) ≡ true =
        ground arith in
      let packet : take (packet_size - 2) (pf.profiles.encode s.profile)
          ≡ pf.profiles.encode s.profile =
        take_ge _ _ short in
      rw (room, packet, Vendor.get_profile)

  -- If postcard's decoding inverts its encoding and the encoded profile fits one USB packet behind
  -- command and status, the client's `get_profile` returns the profile in use and leaves the service
  -- as it was.
  pub get_profile_lem :
      (s : Service S)
      → RoundTrips pf.profiles
      → length (pf.profiles.encode s.profile) ≤ packet_size - 2
      → get_profile (loopback pf) pf.profiles s ≡ (ok s.profile, s)
  unfolding get_profile request
  get_profile_lem s round short =
      rw (
        fetched s short,
        check-reply cmd_get_profile (pf.profiles.encode s.profile),
        round s.profile,
      )
