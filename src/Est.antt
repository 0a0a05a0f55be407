-- ===== src/Est.antt =====
-- The package pkg/est.
pub mod Slices
pub mod Algorithm
pub mod Payload
pub mod Reenroll
pub mod Asn1
pub mod Pkcs7
