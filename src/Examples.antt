-- ===== src/Examples.antt =====
-- The theorems at concrete inputs, and a small CBOR codec in place of ciborium.
mod Cbor
mod Canonical
mod Payload
mod Events
mod Crypto
mod Hex
mod Json
mod RequestAuth
mod Submit
mod Post
mod Parsed
mod Order
mod Read
mod Broadcast
mod Run
mod Wallet
mod Signed
