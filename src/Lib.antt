-- ===== src/Lib.antt =====
-- rustprobe: a CMSIS-DAP debug probe with a configurable set of SWD probes and UART bridges.
--
-- The host's client (cli) and the firmware (firmware) speak two protocols over one pair of bulk
-- endpoints: CMSIS-DAP, whose requests and replies may span USB packets, and a configuration
-- protocol of vendor commands, one packet each way. The configuration itself, which is a topology of
-- probes and UARTs and a board profile, is declared and validated in a crate that both sides share
-- (probe-config). The firmware stores it in flash and reads it at boot.
--
-- Which file models what:
--   Common        bytes, lists, results and bit masks, and their lemmas.
--   Config        probe-config/src/lib.rs: `Topology::validate` is `validate`, its closure `claim` and its
--                 loops are `claim`, `claim_probes`, `claim_uarts` and `claim_instances`;
--                 `BoardProfile::validate` is `validate_profile`. Config/Protocol is
--                 probe-config/src/protocol.rs. Config/Spec says what is legal with no order of checks.
--   Toml          probe-config-toml: `parse_pin_ranges` and `format_pin_ranges` (Toml/Ranges) over the strings
--                 of Toml/Text, and the conversions of board and topology files.
--   Browser       probe-config-wasm/src/core.rs under its names, over formats given as parameters.
--   Dap/Io        dap-async/src/io.rs: `Request` and `Response`. An append is `put_u8`, `put_slice`, ...
--   Dap/Command   dap-async/src/command.rs.
--   Dap/Swd       dap-async/src/swd.rs: `packet` and the default methods of `Driver`.
--   Dap/Machine   the whole interface `Driver` is `Probe`; the state of a handler's run, and its actions.
--   Dap/Handlers, Dap/Transfers, Dap/Processor    dap-async/src/dap.rs: the methods of `Dap` under their
--                 names; the loop of `transfer` is `transfers`, its arms are `read_match`, `read_ap`, ...
--   Dap/Framing   dap-async/src/framing.rs: `request_len`, an arm of its match per definition.
--   Firmware/FlashConfig, Firmware/Vendor    firmware/src/flash_config.rs and firmware/src/vendor.rs:
--                 `ConfigService` is `Service`, whose staging buffer, profile and flash the commands
--                 change; `ConfigService::handle` is `handle`.
--   Firmware/Boot, Firmware/Lane             firmware/src/main.rs: the choice of the configuration at boot,
--                 and the I/O task of an interface (`read_request`, `write_response`, `serve_request`).
--   Firmware/Engine   firmware/src/dap.rs over the FIFOs of firmware/src/swd.rs: `Plan`, `PioSwd::step` and
--                 `TransferState::poll`; Engine/Futures has the futures of retries and of blocks, as polls on
--                 their state, and `await`, which polls them; Engine/Clock has the divider
--                 of SWCLK. Engine/Transcript is about FIFOs that refuse accesses.
--   Firmware/Instances   firmware/src/instances.rs and the UARTs of `main`: `set_up` claims pins, state
--                 machines and UARTs for a topology, and gives an error where the code panics.
--   Firmware/Uart   firmware/src/uart_bridge.rs and, in Uart/Capture, firmware/src/autobaud.rs; Uart/System
--                   has the steps that they take over the shared signal and result.
--   Firmware/Serial, Firmware/ResetIface     firmware/src/main.rs (`format_serial`) and reset_iface.rs.
--   Firmware/Platform                        what postcard and sequential-storage provide, as parameters.
--   Cli/Session   cli/src/session.rs: the methods of `Session` over a link.
--   Cli/Commands  cli/src/main.rs: the commands on an opened session, with files as texts.
--   Cli/Loopback  the client over the firmware: cli/src/transport.rs in front of `handle`.
--   Autobaud      autobaud-estimator/src/lib.rs: the table of pulse widths and `BaudEstimator`.
--
-- Numbers are natural numbers; a conversion to a byte is `% 256`. A command of the
-- configuration protocol is one step of the state: what another interface does in the middle of one is
-- not modelled. The source locks the staging buffer during a commit, and serializes the stores in the
-- flash, but it lets go of the profile between the check of a topology and its store. Postcard's encodings and the flash are parameters, with the hypotheses
-- that decoding inverts encoding and that a stored item is read back and others are kept.
--
-- Fuel: the client's `get_topology` has 257 rounds, since a reply names at most 255 bytes and
-- every round but the last adds a byte; `set_topology` has a round more than bytes to send, and every
-- round sends a byte or is the last. `chunks` has as much fuel as bytes. The probing of the estimator's
-- table has none in the source; in the model it visits each of the 500 slots once and gives `none` where
-- the source would go round for ever.
--
-- `format_pin_ranges` has a round for each of the 64 pins, and every round goes at least a pin on.
--
-- Fuel of futures: a poll's loop has a round for each attempt or word that it may go through, and one
-- more; a future is polled as often as it takes, and the theorems give a number of polls that is enough.
--
-- Not modelled: the PIO programs, the set-up of pins, the sequences and pins of the SWD engine, the
-- DMA of the capture of edges, the construction of the USB device, the watchdog, the statistics, the
-- web interface and the tools. The SWD worker is a parameter of the I/O task.
pub mod Common
pub mod Config
pub mod Toml
pub mod Browser
pub mod Dap
pub mod Firmware
pub mod Cli
pub mod Autobaud
