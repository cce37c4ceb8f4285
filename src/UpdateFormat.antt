-- ===== src/UpdateFormat.antt =====
-- libs/update-format/src/lib.rs: the fixed binary layouts of the boot state, the trust root and the
-- update manifest. Arrays are lists of bytes; the lengths that Rust's array types fix are hypotheses
-- of the theorems.
pub mod BootState
pub mod TrustRoot
pub mod Manifest

abbrev pub sha256_bytes : Prim.Native.Nat.ℕ
sha256_bytes = 32

abbrev pub public_key_bytes : Prim.Native.Nat.ℕ
public_key_bytes = 32

abbrev pub key_id_bytes : Prim.Native.Nat.ℕ
key_id_bytes = 16

abbrev pub ed25519_signature_bytes : Prim.Native.Nat.ℕ
ed25519_signature_bytes = 64
