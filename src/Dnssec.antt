-- ===== src/Dnssec.antt =====
-- src/dnssec.rs: the parts of the validation that need no network.
pub mod Order
pub mod Gap
pub mod Keys
pub mod Canonical
pub mod Chain
pub mod Trust
pub mod Response
pub mod Nsec
pub mod Denial
pub mod Endorsed
pub mod Hashed
pub mod NsecProof
pub mod Encloser
pub mod Nsec3Proof
pub mod Denied
pub mod Proved
