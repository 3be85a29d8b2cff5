-- ===== src/Firmware.antt =====
-- firmware: the configuration service, the choice of the configuration at boot, and the I/O task of
-- an interface.
mod Tests
pub mod Platform
pub mod FlashConfig
pub mod Vendor
pub mod Boot
pub mod Lane
pub mod Serial
pub mod ResetIface
pub mod Engine
pub mod Instances
pub mod Uart
