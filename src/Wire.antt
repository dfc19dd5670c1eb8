-- ===== src/Wire.antt =====
-- src/wire/: the formats that leave the worker.
pub mod Cbor
pub mod RunId
pub mod SignetVerify
pub mod Origin
mod Tests
