-- ===== src/Dict.antt =====
-- src/dict: the record shapes, the payload codec and the key filter.
pub mod Records
pub mod Cbor
pub mod Codec
pub mod KeyFilter
