-- ===== src/Est/Payload.antt =====
-- Reading a CSR from a request body: `ReadCSRPayloadWithLimit` of pkg/est/csr.go.
pub mod Bounds
use Prim.Native.Nat.{◌^◌}
use est_service.Prelude.{
  GoError, List, Option, Result, context, eq_ℤ, err, if◌then◌else◌, leb, length, ltb, ltb_ℤ, negsuc,
  none, not, ok, pos, some, suc, take, true, zero, ℕ, ℤ, ◌&&◌, ◌*◌, ◌+◌, ◌-◌, ◌=ℕ=◌, ◌>>=◌,
}
use est_service.X509.{CertificateRequest, Crypto}

-- A request body: the bytes that it delivers, and the error that follows them in place of EOF.
pub record Body : Type 0 where
  pub bytes : List ℕ
  pub failure : Option GoError

-- `defaultCSRMaxSizeBytes`
abbrev pub default_csr_max_size_bytes : ℕ
default_csr_max_size_bytes = 64 * 1024

abbrev pub max_int64 : ℕ
max_int64 = 2 ^ 63 - 1

-- `ErrRequestTooLarge`
abbrev pub err_request_too_large : GoError
err_request_too_large = record { text = "request body too large"; too_large = true }

-- `if maxSize <= 0 { maxSize = defaultCSRMaxSizeBytes }`
abbrev pub effective_max_size : ℤ → ℕ
effective_max_size (pos zero) = default_csr_max_size_bytes
effective_max_size (pos (suc n)) = suc n
effective_max_size (negsuc n) = default_csr_max_size_bytes

-- io.LimitedReader{N: maxSize + 1}: the sum wraps to a negative number, which reads nothing.
abbrev read_limit : ℕ → ℕ
read_limit max_size = if max_size =ℕ= max_int64 then 0 else max_size + 1

-- io.ReadAll of the limited body: a failure behind the limit is not met.
unfoldable pub read_all : ℕ → Body → Result (List ℕ)
read_all n body =
    if leb n (length body.bytes)
    then ok (take n body.bytes)
    else elim body.failure [ none ↦ ok body.bytes | some e ↦ err e ]

module _ (crypto : Crypto) where
  -- Base64, or the body as it is; then PEM, or DER.
  pub parse_payload : List ℕ → Result CertificateRequest
  parse_payload body =
      let decoded : List ℕ = elim (crypto.decode_base64 body) [ ok bytes ↦ bytes | err _ ↦ body ] in
      elim (crypto.pem_decode decoded) [
        | some block ↦ context "failed to parse PEM CSR: " (crypto.parse_certificate_request block)
        | none ↦ context "failed to parse DER CSR: " (crypto.parse_certificate_request decoded)
      ]

  -- The reads and tests behind the check of the stated length.
  read_within : ℕ → Body → Result CertificateRequest
  unfolding parse_payload read_all
  read_within size body = do
    bytes ← context "failed to read request body: " (read_all (read_limit size) body)
    if ltb size (length bytes) then err err_request_too_large else parse_payload bytes

  -- `content_length` is -1 where the request does not say.
  unfoldable pub read_csr_payload_with_limit : ℤ → Body → ℤ → Result CertificateRequest
  unfolding read_within
  read_csr_payload_with_limit content_length body max_size =
      let size = effective_max_size max_size in
      if ltb_ℤ (pos size) content_length && not (eq_ℤ content_length (negsuc 0))
      then err err_request_too_large
      else read_within size body

  -- `ReadCSRPayload`
  unfoldable pub read_csr_payload : ℤ → Body → Result CertificateRequest
  unfolding read_csr_payload_with_limit
  read_csr_payload content_length body =
      read_csr_payload_with_limit content_length body (pos default_csr_max_size_bytes)
