-- ===== src/Wire.antt =====
-- The JSON form of a packet: the tags of pkg/qtt/types/packet.go, and the coders of
-- internal/protocol/encoder/json.go and internal/protocol/decoder/json.go, at the level of JSON
-- values.
pub mod Value
pub mod Encode
pub mod Decode
pub mod Fields
pub mod Maps
pub mod Members
pub mod RoundTrip
pub mod Keeps
pub mod Places
pub mod Refused
pub mod Typed
pub mod Forwards
pub mod Sent
