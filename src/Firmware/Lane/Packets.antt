-- ===== src/Firmware/Lane/Packets.antt =====
-- firmware/src/main.rs: the packets of a reply.
use rustprobe.Common.{
  ℕ, zero, suc, ◌-◌, ◌%◌, ◌≤◌, ◌<◌, ◌≡◌, refl, ap, ◌∙◌, inl, inr, true, false, List, [], ◌∷◌, ◌++◌,
  arith, append_assoc, ltb, ◌==◌, if◌then◌else◌, length, take, drop, length-take, length-drop,
  take-append-drop, take_ge, ltb-false, Bool-cases,
}
use rustprobe.Firmware.Lane.{usb_mps, chunks, write_response}

-- A host that reads packets until a short one ends the message, and the packets it leaves.
unfoldable pub gather : List ℕ → List (List ℕ) → List ℕ × List (List ℕ)
gather message [] = (message, [])
gather message (p ∷ ps) = elim (ltb (length p) usb_mps) [
  | true ↦ (message ++ p, ps)
  | false ↦ gather (message ++ p) ps
]

pub drop_ge : (n : ℕ) (bs : List ℕ) → length bs ≤ n → drop n bs ≡ []
drop_ge zero [] h = refl
drop_ge zero (b ∷ bs) h = absurd (omega arith)
drop_ge (suc n) [] h = refl
drop_ge (suc n) (b ∷ bs) h = drop_ge n bs (omega arith)

pub chunks-nil : (fuel : ℕ) → chunks fuel [] ≡ []
unfolding chunks
chunks-nil zero = refl
chunks-nil (suc fuel) = refl

-- The packets of a message of less than a packet.
pub chunks_short :
    (fuel : ℕ) (b : ℕ) (bs : List ℕ)
    → length (b ∷ bs) ≤ usb_mps
    → chunks (suc fuel) (b ∷ bs) ≡ (b ∷ bs) ∷ []
unfolding chunks
chunks_short fuel b bs h =
    rw (take_ge usb_mps (b ∷ bs) h, drop_ge usb_mps (b ∷ bs) h, chunks-nil fuel)

abbrev terminator : ℕ → List (List ℕ)
terminator n = if n % usb_mps == 0 then [] ∷ [] else []

gather_full :
    (message p : List ℕ) (ps : List (List ℕ))
    → usb_mps ≤ length p
    → gather message (p ∷ ps) ≡ gather (message ++ p) ps
unfolding gather
gather_full message p ps h =
    let full : ltb (length p) usb_mps ≡ false = ground arith in rw (full, gather)

gather_short :
    (message p : List ℕ) (ps : List (List ℕ))
    → length p < usb_mps
    → gather message (p ∷ ps) ≡ (message ++ p, ps)
unfolding gather
gather_short message p ps h =
    let short : ltb (length p) usb_mps ≡ true = ground arith in rw (short, gather)

pub chunks_long :
    (fuel b : ℕ) (bs : List ℕ)
    → chunks (suc fuel) (b ∷ bs) ≡ take usb_mps (b ∷ bs) ∷ chunks fuel (drop usb_mps (b ∷ bs))
unfolding chunks
chunks_long fuel b bs = refl

gather-chunks :
    (fuel : ℕ) (message bs : List ℕ) (rest : List (List ℕ))
    → length bs ≤ fuel
    → gather message (chunks fuel bs ++ (terminator (length bs) ++ rest)) ≡ (message ++ bs, rest)
gather-chunks zero message (b ∷ bs) rest h = absurd (omega arith)
gather-chunks fuel message [] rest h =
    rw (chunks-nil fuel) (gather_short message [] rest (omega arith))
gather-chunks (suc fuel) message (b ∷ bs) rest h =
    elim (Bool-cases (ltb (length (b ∷ bs)) usb_mps)) [
      | inl short ↦
          let ragged : (length (b ∷ bs) % usb_mps == 0) ≡ false = ground arith in
          rw (chunks_short fuel b bs (ground arith), ragged)
            (gather_short message (b ∷ bs) rest (ground arith))
      | inr long ↦
          let p = take usb_mps (b ∷ bs) in
          let back = drop usb_mps (b ∷ bs) in
          let at_least = ltb-false (length (b ∷ bs)) usb_mps long in
          let size : length back ≡ length (b ∷ bs) - usb_mps = length-drop usb_mps (b ∷ bs) in
          let same : length (b ∷ bs) % usb_mps ≡ length back % usb_mps =
            omega (arith, size, at_least) in
          rw (chunks_long fuel b bs, same)
            (gather_full message p (chunks fuel back ++ (terminator (length back) ++ rest))
                (omega (arith, length-take usb_mps (b ∷ bs), at_least))
              ∙ gather-chunks fuel (message ++ p) back rest (omega (arith, size))
              ∙ ap (λ m. (m, rest))
                  (append_assoc message p back
                    ∙ ap (λ m. message ++ m) (take-append-drop usb_mps (b ∷ bs))))
    ]

-- The packets of any reply that `write_response` ends with a zero-length packet where that is
-- needed, followed by any others: a host that reads up to the first short packet gets the reply's
-- bytes, and leaves the others.
pub write_response-gather :
    (reply : List ℕ) (rest : List (List ℕ))
    → gather [] (write_response reply true ++ rest) ≡ (reply, rest)
unfolding write_response
write_response-gather reply rest =
    rw (append_assoc (chunks (length reply) reply) (terminator (length reply)) rest)
      (gather-chunks (length reply) [] reply rest (omega arith))
