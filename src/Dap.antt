-- ===== src/Dap.antt =====
-- dap-async: requests, responses and their framing, the transfers of the driver interface, and the
-- command processor.
pub mod Io
pub mod Command
pub mod Framing
pub mod Swd
pub mod Machine
pub mod Handlers
pub mod Transfers
pub mod Processor
