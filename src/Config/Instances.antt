-- ===== src/Config/Instances.antt =====
-- probe-config/src/lib.rs: the second UART loop of `Topology::validate`.
use rustprobe.Common.{
  ℕ, ◌^◌, ◌≡◌, refl, sym, ◌∙◌, ◌≢◌, inl, inr, true, false, Option, none, some, List, [], ◌∷◌, arith,
  All, bit_or, is_ok, ◌==◌, ◌||◌, Option-cases, Bool-cases,
}
use rustprobe.Common.Bits.{has_bit, has_bit-bit_or_pow, has_bit-zero}
use rustprobe.Config.{UartConfig, instance_of, claim_instances}
use rustprobe.Config.Spec.{Distinct, instances}

abbrev IsUnused : ℕ → Option ℕ → Type 0
IsUnused used none = Unit
IsUnused used (some i) = has_bit used i ≡ false

IsUnused-mark :
    (used i : ℕ) (is : List (Option ℕ))
    → All (IsUnused used) is
    → All (λ j. some i ≢ j) is
    → All (IsUnused (bit_or used (2 ^ i))) is
IsUnused-mark used i [] h d = tt
IsUnused-mark used i (none ∷ is) (_, h) (_, d) = (tt, IsUnused-mark used i is h d)
IsUnused-mark used i (some j ∷ is) (hj, h) (dj, d) =
    (has_bit-bit_or_pow used i j ∙ rw hj (ground (arith, dj)), IsUnused-mark used i is h d)

IsUnused-unmark :
    (used i : ℕ) (is : List (Option ℕ))
    → All (IsUnused (bit_or used (2 ^ i))) is
    → All (IsUnused used) is × All (λ j. some i ≢ j) is
IsUnused-unmark used i [] h = (tt, tt)
IsUnused-unmark used i (none ∷ is) (_, h) =
    let (rest, apart) = IsUnused-unmark used i is h in ((tt, rest), ((λ e. cc), apart))
IsUnused-unmark used i (some j ∷ is) (hj, h) =
    let (rest, apart) = IsUnused-unmark used i is h in
    let e : (has_bit used j || i == j) ≡ false = sym (has_bit-bit_or_pow used i j) ∙ hj in
    ((ground arith, rest), ((λ same. ground arith), apart))

claim_instances-accepts :
    (used : ℕ) (us : List UartConfig)
    → All (λ i. i ≢ none) (instances us)
    → Distinct (instances us)
    → All (IsUnused used) (instances us)
    → is_ok (claim_instances used us) ≡ true
unfolding claim_instances
claim_instances-accepts used [] m d h = refl
claim_instances-accepts used (u ∷ us) (mu, m) (du, d) (hu, h) =
    elim (Option-cases (instance_of u)) [
      | inl e ↦ absurd (mu e)
      | inr (i, e) ↦
          let unused : has_bit used i ≡ false = rw e at hu in
          rw (e, unused)
            (claim_instances-accepts (bit_or used (2 ^ i)) us m d
              (IsUnused-mark used i (instances us) h (rw e at du)))
    ]

claim_instances-accepted :
    (used : ℕ) (us : List UartConfig)
    → is_ok (claim_instances used us) ≡ true
    → All (λ i. i ≢ none) (instances us)
      × Distinct (instances us)
      × All (IsUnused used) (instances us)
unfolding claim_instances
claim_instances-accepted used [] h = (tt, tt, tt)
claim_instances-accepted used (u ∷ us) h = elim (Option-cases (instance_of u)) [
  | inl e ↦ cc (rw e at h)
  | inr (i, e) ↦ elim (Bool-cases (has_bit used i)) [
    | inl taken ↦ cc (rw (e, taken) at h)
    | inr unused ↦
        let (m, d, f) = claim_instances-accepted (bit_or used (2 ^ i)) us (rw (e, unused) at h) in
        let (f', apart) = IsUnused-unmark used i (instances us) f in
        rw e (((λ n. cc), m), (apart, d), (unused, f'))
  ]
]

IsUnused-none : (is : List (Option ℕ)) → All (IsUnused 0) is
IsUnused-none [] = tt
IsUnused-none (none ∷ is) = (tt, IsUnused-none is)
IsUnused-none (some i ∷ is) = (has_bit-zero i, IsUnused-none is)

pub instances_accept :
    (us : List UartConfig)
    → All (λ i. i ≢ none) (instances us)
    → Distinct (instances us)
    → is_ok (claim_instances 0 us) ≡ true
instances_accept us m d = claim_instances-accepts 0 us m d (IsUnused-none (instances us))

pub instances_accepted :
    (us : List UartConfig)
    → is_ok (claim_instances 0 us) ≡ true
    → All (λ i. i ≢ none) (instances us) × Distinct (instances us)
instances_accepted us h = let (m, d, _) = claim_instances-accepted 0 us h in (m, d)
