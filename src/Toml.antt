-- ===== src/Toml.antt =====
-- probe-config-toml: the board and topology files of every host frontend.
-- Serde's derived reading and writing of TOML text is not modelled; a file is the value that it is
-- read to.
pub mod Text
pub mod Format
pub mod Ranges
pub mod Board
pub mod Topologies
mod Tests
