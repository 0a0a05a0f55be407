-- ===== src/Est/Payload/Bounds.antt =====
-- The size limit of `read_csr_payload_with_limit`.
use est_service.Prelude.{
  Bool-cases, arith, eq_ℤ, err, inl, inr, length, length-take, ltb_ℤ, negsuc, not, ok, pos, take, ℕ,
  ℤ, ◌&&◌, ◌+◌, ◌<◌, ◌≡◌, ◌≤◌,
}
use est_service.X509.{CertificateRequest, Crypto}
use est_service.Est.Payload.{
  Body, effective_max_size, err_request_too_large, max_int64, read_all, read_csr_payload_with_limit,
  read_limit, read_within,
}

module _ (crypto : Crypto) (body : Body) (size : ℕ) (small : size < max_int64) where
  read_all-over :
      size < length body.bytes → read_all (read_limit size) body ≡ ok (take (size + 1) body.bytes)
  unfolding read_all
  read_all-over h = ground arith

  read_within-over :
      size < length body.bytes → read_within crypto size body ≡ err err_request_too_large
  unfolding read_within
  read_within-over h = rw (read_all-over h) (ground (arith, length-take (size + 1) body.bytes))

module _ (crypto : Crypto) (content_length : ℤ) (body : Body) (max_size : ℤ)
    (small : effective_max_size max_size < max_int64) where
  -- A body with more bytes than the limit is refused as too large, whatever length the request
  -- states, where the limit is below the largest int64.
  pub too_large_refused :
      effective_max_size max_size < length body.bytes
      → read_csr_payload_with_limit crypto content_length body max_size ≡ err err_request_too_large
  unfolding read_csr_payload_with_limit
  too_large_refused h =
      elim (Bool-cases (
        ltb_ℤ (pos (effective_max_size max_size)) content_length
        && not (eq_ℤ content_length (negsuc 0)))) [
          | inl over ↦ rw over
          | inr within ↦
              rw within (read_within-over crypto body (effective_max_size max_size) small h)
        ]

  -- So a request is only parsed from a body within the limit.
  pub accepted_within_limit :
      {csr : CertificateRequest}
      → read_csr_payload_with_limit crypto content_length body max_size ≡ ok csr
      → length body.bytes ≤ effective_max_size max_size
  accepted_within_limit h = ground (arith, too_large_refused)
