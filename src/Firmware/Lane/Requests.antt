-- ===== src/Firmware/Lane/Requests.antt =====
-- firmware/src/main.rs: the reassembly of a request from its packets.
use rustprobe.Common.{
  ℕ, zero, suc, ◌+◌, ◌-◌, ◌%◌, ◌≤◌, ◌<◌, ◌≡◌, ◌≢◌, refl, sym, ap, ◌∙◌, inl, inr, true, false, some,
  List, [], ◌∷◌, ◌++◌, arith, append_assoc, append-nil, ltb, leb, length, take, drop, length-append,
  length-take, length-drop, take-append-drop, ok, Bool-cases, ltb-false, leb→le, leb-false,
}
use rustprobe.Dap.Framing.{Framing, need_more, complete, unknown, request_len}
use rustprobe.Dap.Framing.Prefix.{request_len-prefix}
use rustprobe.Firmware.Lane.{usb_mps, dap_packet_size, nonempty, read_packets, read_request, chunks}
use rustprobe.Firmware.Lane.Packets.{chunks-nil, chunks_short, chunks_long, drop_ge}

pub read_short :
    (request p : List ℕ) (ps : List (List ℕ))
    → length request + usb_mps ≤ dap_packet_size
    → length p < usb_mps
    → read_packets request (p ∷ ps) ≡ (ok (nonempty (request ++ p)), ps)
unfolding read_packets
read_short request p ps room h =
    let fits : ltb dap_packet_size (length request + usb_mps) ≡ false = ground arith in
    let short : ltb (length p) usb_mps ≡ true = ground arith in rw (fits, short, read_packets)

module _ (request p : List ℕ) (ps : List (List ℕ))
    (room : length request + usb_mps ≤ dap_packet_size) (full : usb_mps ≤ length p) where
  pub read_framed :
      (f : Framing)
      → f ≢ need_more
      → request_len (request ++ p) ≡ f
      → read_packets request (p ∷ ps) ≡ (ok (nonempty (request ++ p)), ps)
  unfolding read_packets
  read_framed need_more ne h = absurd (ne refl)
  read_framed (complete n) ne h =
      let fits : ltb dap_packet_size (length request + usb_mps) ≡ false = ground arith in
      let long : ltb (length p) usb_mps ≡ false = ground arith in rw (fits, long, h, read_packets)
  read_framed unknown ne h =
      let fits : ltb dap_packet_size (length request + usb_mps) ≡ false = ground arith in
      let long : ltb (length p) usb_mps ≡ false = ground arith in rw (fits, long, h, read_packets)

  read_on :
      request_len (request ++ p) ≡ need_more
      → read_packets request (p ∷ ps) ≡ read_packets (request ++ p) ps
  unfolding read_packets
  read_on h =
      let fits : ltb dap_packet_size (length request + usb_mps) ≡ false = ground arith in
      let long : ltb (length p) usb_mps ≡ false = ground arith in rw (fits, long, h, read_packets)

complete_known : (n : ℕ) → complete n ≢ need_more
complete_known n h = cc

nonempty-some : (bs : List ℕ) → 0 < length bs → nonempty bs ≡ some bs
nonempty-some [] h = absurd (omega arith)
nonempty-some (b ∷ bs) h = refl

module _ (request : List ℕ) (whole : request_len request ≡ complete (length request))
    (fits : length request ≤ dap_packet_size) where
  read-chunks :
      (fuel : ℕ) (front back : List ℕ) (rest : List (List ℕ))
      → front ++ back ≡ request
      → length front % usb_mps ≡ 0
      → 0 < length back
      → length back ≤ fuel
      → read_packets front (chunks fuel back ++ rest) ≡ (ok (some request), rest)
  read-chunks zero front (b ∷ bs) rest split even pos h = absurd (omega arith)
  read-chunks (suc fuel) front [] rest split even pos h = absurd (omega arith)
  read-chunks zero front [] rest split even pos h = absurd (omega arith)
  read-chunks (suc fuel) front (b ∷ bs) rest split even pos h =
      let back = b ∷ bs in
      let total : length front + length back ≡ length request =
        sym (length-append front back) ∙ ap length split in
      let room : length front + usb_mps ≤ dap_packet_size = omega (arith, total, even, pos, fits) in
      let p = take usb_mps back in
      let back' = drop usb_mps back in
      let size' : length back' ≡ length back - usb_mps = length-drop usb_mps back in
      let all : nonempty request ≡ some request = nonempty-some request (omega arith) in
      elim (Bool-cases (ltb (length back) usb_mps)) [
        | inl short ↦ rw (chunks_short fuel b bs (ground arith)) (
            read_short front back rest room (ground arith)
            ∙ ap (λ r. (ok (nonempty r), rest)) split
            ∙ ap (λ r. (ok r, rest)) all)
        | inr long ↦
            let at_least = ltb-false (length back) usb_mps long in
            let full : length p ≡ usb_mps = omega (arith, length-take usb_mps back, at_least) in
            let enough : usb_mps ≤ length p = omega (arith, full) in
            let front' = front ++ p in
            let size : length front' ≡ length front + usb_mps =
              length-append front p ∙ ap (λ n. length front + n) full in
            let rejoined : front' ++ back' ≡ request =
              append_assoc front p back'
              ∙ ap (λ m. front ++ m) (take-append-drop usb_mps back)
              ∙ split in
            let framed =
              request_len-prefix front' back' (length request) (ap request_len rejoined ∙ whole) in
            rw (chunks_long fuel b bs) (elim (Bool-cases (leb (length request) (length front'))) [
              | inl last ↦
                  let done : back' ≡ [] =
                    drop_ge usb_mps back
                      (omega (arith, size, total, leb→le (length request) (length front') last)) in
                  let same : front' ≡ request =
                    sym (append-nil front') ∙ ap (λ m. front' ++ m) (sym done) ∙ rejoined in
                  rw (done, chunks-nil fuel)
                    (read_framed front p rest room enough (complete (length request))
                        (complete_known (length request)) (rw last at framed)
                      ∙ ap (λ r. (ok (nonempty r), rest)) same
                      ∙ ap (λ r. (ok r, rest)) all)
              | inr more ↦
                  read_on front p (chunks fuel back' ++ rest) room enough (rw more at framed)
                  ∙ read-chunks fuel front' back' rest rejoined (omega (arith, size, even))
                      (omega (
                        arith,
                        size,
                        total,
                        size',
                        leb-false (length request) (length front') more,
                      ))
                      (omega (arith, size', h))
            ])
      ]

  -- A request of at most the packet size of CMSIS-DAP whose length its own bytes tell, cut into USB
  -- packets with no terminating packet, is read whole, and the packets behind it are left.
  pub read_request-chunks :
      (rest : List (List ℕ))
      → 0 < length request
      → read_request (chunks (length request) request ++ rest) ≡ (ok (some request), rest)
  unfolding read_request
  read_request-chunks rest pos =
      read-chunks (length request) [] request rest refl refl pos (omega arith)
