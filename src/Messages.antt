-- ===== src/Messages.antt =====
-- mdhimMods/src/messages.c and messages.h: the messages between clients and range servers.
pub mod Types
pub mod Struct
pub mod Packing
pub mod Pack
pub mod Unpack
pub mod RoundTrip
pub mod Transfer
pub mod Layer
mod Tests
