-- ===== src/Browser/Verdicts.antt =====
-- probe-config-wasm/src/core.rs: the verdict on a topology.
use rustprobe.Common.{
  ◌≡◌, refl, ◌≢◌, ◌↔◌, ap, true, Result, ok, err, is_ok, arith, bind-eq-ok, ok-injective,
}
use rustprobe.Config.{Topology, BoardProfile, ChipLimits, ValidationError, validate}
use rustprobe.Config.Spec.{IsLegal}
use rustprobe.Config.Claims.{IsProfile}
use rustprobe.Config.Legal.{validate_iff}
use rustprobe.Toml.Text.{Text}
use rustprobe.Toml.Board.{into_profile, into_profile-IsProfile}
use rustprobe.Browser.{
  Formats, CoreError, map_err, read, range, null, defect_of, validation_json, topology_from_json,
  profile_from_json, limits_from_json, validate_topology,
}

pub map_err-eq-ok :
    {E A : Type 0} (f : E → CoreError) (r : Result E A) {a : A} → map_err f r ≡ ok a → r ≡ ok a
map_err-eq-ok f (ok a) h = ap (λ t. ok t) (ok-injective h)
map_err-eq-ok f (err e) h = cc

defect_of-ne-null : (e : ValidationError) → defect_of e ≢ null
unfolding defect_of
defect_of-ne-null e h = ground arith

validation_json-null :
    (r : Result ValidationError (Unit {0})) → validation_json r ≡ null → is_ok r ≡ true
unfolding validation_json
validation_json-null (ok u) h = refl
validation_json-null (err e) h = absurd (defect_of-ne-null e h)

validation_json-is_ok :
    (r : Result ValidationError (Unit {0})) → is_ok r ≡ true → validation_json r ≡ null
unfolding validation_json
validation_json-is_ok (ok u) h = refl
validation_json-is_ok (err e) h = cc

-- The three texts are read to these values.
pub record AreRead (fs : Formats) (topology limits profile : Text) (t : Topology)
    (chip : ChipLimits) (b : BoardProfile) : Type 0 where
  pub topology_read : topology_from_json fs topology ≡ ok t
  pub limits_read : limits_from_json fs limits ≡ ok chip
  pub profile_read : profile_from_json fs profile ≡ ok b

module _ (fs : Formats) where
  profile_from_json-IsProfile :
      (text : Text) (b : BoardProfile) → profile_from_json fs text ≡ ok b → IsProfile b
  unfolding profile_from_json
  profile_from_json-IsProfile text b h =
      let (file, _, h') = bind-eq-ok (read fs.json_profiles text) _ h in
      into_profile-IsProfile file b (map_err-eq-ok range (into_profile file) h')

  module _ (topology limits profile : Text) where
    validate_topology-accepted :
        validate_topology fs topology limits profile ≡ ok null
        → (t : Topology) × (chip : ChipLimits) × (b : BoardProfile) × AreRead fs topology limits
            profile t chip b
          × IsLegal chip b t
    unfolding validate_topology
    validate_topology-accepted h =
        let (t, e1, h1) = bind-eq-ok (topology_from_json fs topology) _ h in
        let (chip, e2, h2) = bind-eq-ok (limits_from_json fs limits) _ h1 in
        let (b, e3, h3) = bind-eq-ok (profile_from_json fs profile) _ h2 in
        (
          t,
          chip,
          b,
          record { topology_read = e1; limits_read = e2; profile_read = e3 },
          (validate_iff t chip b (profile_from_json-IsProfile profile b e3)).0
              (validation_json-null (validate t chip b) (ok-injective h3)),
        )

    validate_topology-accepts :
        ((t : Topology) × (chip : ChipLimits) × (b : BoardProfile) × AreRead fs topology limits
            profile t chip b
          × IsLegal chip b t)
        → validate_topology fs topology limits profile ≡ ok null
    unfolding validate_topology
    validate_topology-accepts (t, chip, b, r, legal) =
        rw (r.topology_read, r.limits_read, r.profile_read)
          (ap (λ v. ok v)
            (validation_json-is_ok (validate t chip b) (
              (validate_iff t chip b (profile_from_json-IsProfile profile b r.profile_read)).1
                legal)))

-- The browser is told that a topology has no defect exactly when the three texts are read and the
-- topology is legal for the limits and the profile, whatever masks the profile's texts give.
pub validate_topology_iff :
    (fs : Formats) (topology limits profile : Text)
    → (validate_topology fs topology limits profile ≡ ok null) ↔ (
        (t : Topology) × (chip : ChipLimits) × (b : BoardProfile) × AreRead fs topology limits
          profile t chip b
        × IsLegal chip b t)
validate_topology_iff fs topology limits profile = (
  validate_topology-accepted fs topology limits profile,
  validate_topology-accepts fs topology limits profile,
)
