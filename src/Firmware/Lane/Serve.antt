-- ===== src/Firmware/Lane/Serve.antt =====
-- firmware/src/main.rs: one exchange of a vendor command.
use rustprobe.Common.{
  ℕ, ◌-◌, ◌≤◌, ◌<◌, ◌≡◌, ap, ◌∙◌, inl, inr, true, false, Option, some, List, [], ◌∷◌, append-nil,
  arith, ltb, ◌==◌, length, Result, ok, Bool-cases,
}
use rustprobe.Dap.Framing.{unknown}
use rustprobe.Dap.Framing.Unknown.{request_len-unknown}
use rustprobe.Firmware.Platform.{Platform}
use rustprobe.Firmware.Vendor.{
  Service, handle, get_info, get_topology, stage, set_topology, commit_decoded, commit, get_profile,
  set_decoded, set_profile,
}
use rustprobe.Firmware.Lane.{
  usb_mps, dap_packet_size, is_vendor, read_request, write_response, chunks, answer, respond,
  Exchange, serve_read, serve_request,
}
use rustprobe.Firmware.Lane.Requests.{read_short, read_framed}

module _ {S : Type 0} (pf : Platform S) where
  get_info-pos : (room : ℕ) (s : Service S) → 0 < length (get_info pf room s)
  unfolding get_info
  get_info-pos room s = ground arith

  get_profile-pos : (room : ℕ) (s : Service S) → 0 < length (get_profile pf room s)
  unfolding get_profile
  get_profile-pos room s = ground arith

  get_topology-pos : (request : List ℕ) (s : Service S) → 0 < length (get_topology pf request s)
  unfolding get_topology
  get_topology-pos request s = ground arith

  set_topology-pos : (request : List ℕ) (s : Service S) → 0 < length (set_topology pf request s).1
  unfolding set_topology stage
  set_topology-pos request s = ground arith

  commit-pos : (request : List ℕ) (s : Service S) → 0 < length (commit pf request s).1
  unfolding commit commit_decoded
  commit-pos request s = ground arith

  set_profile-pos : (request : List ℕ) (s : Service S) → 0 < length (set_profile pf request s).1
  unfolding set_profile set_decoded
  set_profile-pos request s = ground arith

  pub handle-pos :
      (room : ℕ) (request : List ℕ) (s : Service S) → 0 < length (handle pf room request s).1
  unfolding handle
  handle-pos room request s = ground (
    arith,
    get_info-pos (room - 2) s,
    get_profile-pos (room - 2) s,
    get_topology-pos request s,
    set_topology-pos request s,
    commit-pos request s,
    set_profile-pos request s,
  )

-- A vendor request that fits a packet is read as one request.
read_vendor :
    (c : ℕ) (args : List ℕ) (rest : List (List ℕ))
    → is_vendor c ≡ true
    → length (c ∷ args) ≤ usb_mps
    → read_request ((c ∷ args) ∷ rest) ≡ (ok (some (c ∷ args)), rest)
unfolding read_request
read_vendor c args rest vendor fits = elim (Bool-cases (ltb (length (c ∷ args)) usb_mps)) [
  | inl short ↦ read_short [] (c ∷ args) rest (omega arith) (ground arith)
  | inr full ↦
      read_framed [] (c ∷ args) rest (omega arith) (ground arith) unknown (λ e. cc)
        (request_len-unknown c args (ground arith))
]

module _ {S W : Type 0} (pf : Platform S) (worker : List ℕ → W → W × List ℕ) (serial : List ℕ) where
  respond-vendor :
      (c : ℕ) (args : List ℕ) (s : Service S) (w : W)
      → is_vendor c ≡ true
      → let (s', reply, after) = handle pf dap_packet_size (c ∷ args) s in
        respond pf worker serial (c ∷ args) s w ≡ (s', w, ok (chunks (length reply) reply, after))
  unfolding respond answer write_response
  respond-vendor c args s w vendor =
      let reply = (handle pf dap_packet_size (c ∷ args) s).1 in
      let other : (c == 0) ≡ false = ground arith in
      let some_reply : (length reply == 0) ≡ false =
        ground (arith, handle-pos pf dap_packet_size (c ∷ args) s) in
      rw (other, vendor, some_reply, append-nil (chunks (length reply) reply))

  pub serve_request-vendor :
      (c : ℕ) (args : List ℕ) (rest : List (List ℕ)) (s : Service S) (w : W)
      → is_vendor c ≡ true
      → length (c ∷ args) ≤ usb_mps
      → let (s', reply, after) = handle pf dap_packet_size (c ∷ args) s in
        serve_request pf worker serial ((c ∷ args) ∷ rest) s w
        ≡ ((s', w, ok (chunks (length reply) reply, after)), rest)
  unfolding serve_request serve_read
  serve_request-vendor c args rest s w vendor fits =
      ap
        (λ (r : Result (Unit {0}) (Option (List ℕ)) × List (List ℕ)).
          serve_read pf worker serial r s w)
        (read_vendor c args rest vendor fits)
      ∙ ap (λ (e : Exchange S W). (e, rest)) (respond-vendor c args s w vendor)
