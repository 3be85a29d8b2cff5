-- ===== src/Cli/Loopback/Serve.antt =====
-- The client's link beside the firmware's I/O task (firmware/src/main.rs).
use rustprobe.Common.{
  ℕ, ◌≤◌, ◌<◌, ◌≡◌, refl, ap, ◌∙◌, true, List, [], ◌∷◌, arith, length, take, drop, Result, ok,
}
use rustprobe.Firmware.Platform.{Platform}
use rustprobe.Firmware.Vendor.{Service, AfterResponse, handle}
use rustprobe.Firmware.Lane.{usb_mps, dap_packet_size, is_vendor, chunks, serve_request}
use rustprobe.Firmware.Lane.Packets.{chunks-nil, chunks_long, drop_ge}
use rustprobe.Firmware.Lane.Serve.{handle-pos, serve_request-vendor}
use rustprobe.Cli.Session.{SessionError}
use rustprobe.Cli.Loopback.{loopback}

first_packet :
    (bs : List ℕ)
    → 0 < length bs
    → (more : List (List ℕ)) × (chunks (length bs) bs ≡ take usb_mps bs ∷ more)
      × (length bs ≤ usb_mps → more ≡ [])
first_packet [] h = absurd (omega arith)
first_packet (b ∷ bs) h = (
  chunks (length bs) (drop usb_mps (b ∷ bs)),
  chunks_long (length bs) b bs,
  (λ short. ap (chunks (length bs)) (drop_ge usb_mps (b ∷ bs) short) ∙ chunks-nil (length bs)),
)

-- For a request of a vendor command that fits one USB packet, the I/O task of the firmware leaves
-- the service as the client's link does, leaves the worker alone and the packets behind the request
-- unread, and sends as its first packet what the link returns; it sends no other if the handler's
-- reply fits one packet.
pub loopback-serve :
    {S W : Type 0} (pf : Platform S) (worker : List ℕ → W → W × List ℕ) (serial : List ℕ) (c : ℕ)
    (args : List ℕ) (rest : List (List ℕ)) (s : Service S) (w : W)
    → is_vendor c ≡ true
    → length (c ∷ args) ≤ usb_mps
    → let reply = (handle pf dap_packet_size (c ∷ args) s).1 in
      let sent : Result SessionError (List ℕ) × Service S = (loopback pf).transceive (c ∷ args) s in
      (first : List ℕ) × (more : List (List ℕ)) × (after : AfterResponse) × (sent.0 ≡ ok first)
      × (serve_request pf worker serial ((c ∷ args) ∷ rest) s w
          ≡ ((sent.1, w, ok (first ∷ more, after)), rest))
      × (length reply ≤ usb_mps → more ≡ [])
unfolding loopback
loopback-serve pf worker serial c args rest s w vendor fits =
    let reply = (handle pf dap_packet_size (c ∷ args) s).1 in
    let (more, split, single) = first_packet reply (handle-pos pf dap_packet_size (c ∷ args) s) in
    let served = serve_request-vendor pf worker serial c args rest s w vendor fits in
    (
      take usb_mps reply,
      more,
      (handle pf dap_packet_size (c ∷ args) s).2,
      refl,
      rw split at served,
      single,
    )
