-- ===== src/Dict/Codec.antt =====
-- src/dict/codec.cpp and codec.h: records as CBOR payloads.
pub mod Encoder
pub mod Decoder
pub mod Payload
pub mod Codes
pub mod Valid
pub mod Fields
pub mod Shapes
pub mod Kinds
pub mod RoundTrip
pub mod Header
pub mod FailFast
pub mod ShortCircuit
mod Tests
