-- ===== src/Service/Laws.antt =====
-- What the limits of a loaded configuration are to the requests that the service gets.
use est_service.Est.Algorithm.Laws.{
  parse_signature_algorithm-Among, validate_csr_signature_algorithm_iff,
}
use Prim.Native.Nat.{◌≤◌}
use est_service.Prelude.{
  Among, String, [], arith, inl, inr, length, negsuc, ok, pos, suc, zero, ℤ, ◌∷◌, ◌≡◌,
}
use est_service.X509.{CertificateRequest, Crypto, ordinal}
use est_service.Config.{Config, Host}
use est_service.Config.Validate.{absolute_max_csr_size}
use est_service.Config.Validate.Laws.{IsInRange}
use est_service.Config.Load.{load}
use est_service.Config.Load.Laws.{load-IsLoaded}
use est_service.Est.Payload.{Body, effective_max_size, read_csr_payload_with_limit}
use est_service.Est.Payload.Bounds.{accepted_within_limit}
use est_service.Est.Algorithm.{validate_csr_signature_algorithm}
use est_service.Service.{enrollment_config_of}

effective-IsInRange : (n : ℤ) → IsInRange n → effective_max_size n ≤ absolute_max_csr_size
effective-IsInRange (pos zero) r = omega arith
effective-IsInRange (pos (suc k)) (k', e, low, high) = ground (arith, e, high)
effective-IsInRange (negsuc k) r = omega arith

module _ (host : Host) (path : String) (cfg : Config) (loaded : load host path ≡ ok cfg) where
  -- Under a configuration that loads, the limit that the handlers of /simpleenroll and
  -- /simplereenroll get lets a CSR be read only from a body of at most 128 KB. The handler of
  -- /serverkeygen gets another limit, which is not bounded.
  pub loaded_limit :
      (crypto : Crypto) (content_length : ℤ) (body : Body) (csr : CertificateRequest)
      → read_csr_payload_with_limit crypto content_length body
          (enrollment_config_of cfg.est).max_csr_size
        ≡ ok csr
      → length body.bytes ≤ absolute_max_csr_size
  unfolding enrollment_config_of
  loaded_limit crypto content_length body csr h =
      let high =
        effective-IsInRange cfg.est.max_size_bytes (load-IsLoaded host path cfg loaded).size in
      let within =
        accepted_within_limit crypto content_length body cfg.est.max_size_bytes
          (omega (arith, high)) h in
      omega (arith, within, high)

  -- Under a configuration that loads, a CSR's algorithm passes only if it is one of the six of RSA
  -- and ECDSA with SHA-256, SHA-384 or SHA-512.
  pub loaded_algorithm :
      (csr : CertificateRequest)
      → validate_csr_signature_algorithm csr (enrollment_config_of cfg.est).allowed_signature_algos
        ≡ ok tt
      → Among (ordinal csr.signature_algorithm) (4 ∷ 5 ∷ 6 ∷ 10 ∷ 11 ∷ 12 ∷ [])
  unfolding enrollment_config_of
  loaded_algorithm csr h =
      elim ((validate_csr_signature_algorithm_iff csr cfg.est.allowed_signature_algorithms).0 h).1 [
        | inl empty ↦ absurd ((load-IsLoaded host path cfg loaded).algorithms empty)
        | inr (name, _, parses) ↦
            parse_signature_algorithm-Among name csr.signature_algorithm parses
      ]
