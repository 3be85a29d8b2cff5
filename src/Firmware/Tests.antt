-- ===== src/Firmware/Tests.antt =====
-- The theorems on the boot and on the I/O task at concrete inputs.
use rustprobe.Common.{
  ℕ, ◌≡◌, refl, ◌⊎◌, Bool, true, none, some, List, [], ◌∷◌, ◌++◌, arith, length, replicate,
  get_elem?, ok, is_ok,
}
use rustprobe.Config.{Topology, BoardProfile, pico, rp2040, validate, validate_profile}
use rustprobe.Config.Protocol.{rp2040_chip}
use rustprobe.Dap.Framing.{complete, request_len, dispatch, transfer_block_end, settle, fixed}
use rustprobe.Firmware.Platform.{Platform, Postcard}
use rustprobe.Firmware.Boot.{Build, boot, default_topology}
use rustprobe.Firmware.Boot.Legal.{boot-legal}
use rustprobe.Firmware.Lane.{read_request, write_response, chunks, dap_info_response}
use rustprobe.Firmware.Serial.{format_serial-injective}
use rustprobe.Firmware.Lane.Info.{info_reply, info_value, dap_info_response_lem}
use rustprobe.Firmware.Lane.Packets.{gather, write_response-gather}
use rustprobe.Firmware.Lane.Requests.{read_request-chunks}

-- A platform that stores nothing and reads back the same two items for every key.
abbrev mute : {A : Type 0} → A → Postcard A
mute a = record { encode = λ b. []; decode = λ bs. some a }

abbrev zeros : BoardProfile
zeros = record { available = 0; reserved = 0 }

abbrev no_probe : Topology
no_probe = record { probes = []; uarts = [] }

abbrev stuck_flash : Platform (List ℕ)
stuck_flash = record {
  topologies = mute no_probe;
  profiles = mute zeros;
  infos = record { encode = λ i. []; decode = λ bs. none };
  fetch_item = λ k s. some s;
  store_item = λ k bs s. (Bool.false, s);
}

abbrev build : Build
build = record { chip = rp2040_chip; limits = rp2040; version = (0, 1, 0) }

pico_legal : is_ok (validate_profile pico rp2040) ≡ true
unfolding validate_profile
pico_legal = refl

boot-legal_example :
    let s = boot stuck_flash build (7 ∷ []) in
    (is_ok (validate_profile s.profile s.limits) ≡ true)
    × ((is_ok (validate s.active s.limits s.profile) ≡ true) ⊎ (s.active ≡ default_topology))
boot-legal_example = boot-legal stuck_flash build (7 ∷ []) pico_legal

dap_info_response_lem_example :
    dap_info_response (0 ∷ 3 ∷ []) (65 ∷ [])
    ≡ info_reply (info_value (get_elem? (0 ∷ 3 ∷ []) 1) (65 ∷ []))
dap_info_response_lem_example = dap_info_response_lem (0 ∷ 3 ∷ []) (65 ∷ []) (omega arith)

write_response-gather_example :
    gather [] (write_response (replicate 128 1) true ++ ((5 ∷ []) ∷ []))
    ≡ (replicate 128 1, (5 ∷ []) ∷ [])
write_response-gather_example = write_response-gather (replicate 128 1) ((5 ∷ []) ∷ [])

-- `DAP_TransferBlock` that writes 32 words: 133 bytes, in three packets.
abbrev block : List ℕ
block = 6 ∷ 0 ∷ 32 ∷ 0 ∷ 0 ∷ replicate 128 7

block_whole : request_len block ≡ complete (length block)
unfolding request_len dispatch transfer_block_end settle fixed
block_whole = refl

read_request-chunks_example :
    read_request (chunks (length block) block ++ ((0 ∷ 4 ∷ []) ∷ []))
    ≡ (ok (some block), (0 ∷ 4 ∷ []) ∷ [])
read_request-chunks_example =
    read_request-chunks block block_whole (omega arith) ((0 ∷ 4 ∷ []) ∷ []) (omega arith)

format_serial-injective_example : ◌≡◌ {A = ℕ} 11 11
format_serial-injective_example =
    format_serial-injective 0xe661 11 11 (omega arith) (omega arith) refl
