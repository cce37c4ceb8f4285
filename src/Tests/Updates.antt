-- ===== src/Tests/Updates.antt =====
-- States and manifests of libs/update-format/src/lib.rs.
use codex_os.Prelude.{ℕ, ◌≡◌, refl, arith, replicate}
use codex_os.Prelude.Results.{ok, err}
use codex_os.Bytes.{bytes_eq}
use codex_os.UpdateFormat.BootState
use codex_os.UpdateFormat.TrustRoot
use codex_os.UpdateFormat.Manifest

abbrev slot_b : BootState.BootState
slot_b = record { generation = 7; active_slot = BootState.b; active_release_version = 3 }

decode-encode_boot_state_example : BootState.decode (BootState.encode slot_b) ≡ ok slot_b
decode-encode_boot_state_example = BootState.RoundTrip.decode-encode_boot_state slot_b (record {
  generation_fits = omega arith;
  generation_set = λ e. absurd (omega arith);
  release_fits = omega arith;
  release_set = λ e. absurd (omega arith);
})

abbrev root : TrustRoot.TrustRootState
root = record {
  activation_release_version = 5;
  public_key = replicate 32 1;
  key_id = replicate 16 2;
}

root-IsEncodable : TrustRoot.RoundTrip.IsEncodable root
unfolding bytes_eq
root-IsEncodable = record {
  release_fits = omega arith;
  release_set = λ e. absurd (omega arith);
  public_key_length = refl;
  public_key_set = refl;
  key_id_length = refl;
  key_id_set = refl;
}

decode-encode_trust_root_example : TrustRoot.decode (TrustRoot.encode root) ≡ ok root
decode-encode_trust_root_example =
    TrustRoot.RoundTrip.decode-encode_trust_root root root-IsEncodable

abbrev release : ℕ → Manifest.UpdateManifest
release version = record {
  format_version = version;
  release_version = 9;
  kernel_size = 4096;
  kernel_sha256 = replicate 32 3;
  key_id = replicate 16 4;
  next_trust_public_key = replicate 32 5;
  next_trust_key_id = replicate 16 6;
  signature = replicate 64 7;
}

release-IsEncodable : (version : ℕ) → Manifest.RoundTrip.IsEncodable (release version)
unfolding bytes_eq
release-IsEncodable version = record {
  lengths = record {
    sha256_length = refl;
    key_id_length = refl;
    next_key_length = refl;
    next_id_length = refl;
    signature_length = refl;
  };
  release_fits = omega arith;
  release_set = λ e. absurd (omega arith);
  size_fits = omega arith;
  size_set = λ e. absurd (omega arith);
  key_id_set = refl;
  next_key_paired = refl;
  signature_set = refl;
}

decode-encode_manifest_example : Manifest.decode (Manifest.encode (release 2)) ≡ ok (release 2)
decode-encode_manifest_example =
    Manifest.RoundTrip.decode-encode_manifest (release 2) refl (release-IsEncodable 2)

encode_legacy-refused_example :
    Manifest.decode (Manifest.encode (release 1)) ≡ err Manifest.invalid_header_size
encode_legacy-refused_example =
    Manifest.RoundTrip.encode_legacy-refused (release 1) refl (release-IsEncodable 1)
