-- ===== src/Handlers/CsrAttrs.antt =====
-- pkg/handlers/csrattrs.go. An object identifier is the list of its components, an `int` each, held
-- modulo 2 ^ 64 (from 2 ^ 63 on it stands for a negative one); asn1.Marshal of the identifiers is the parameter `marshal_oids`.
pub mod Laws
use Prim.Native.Nat.{◌^◌}
use est_service.Prelude.{
  List, Result, String, [], codes, err, errorf, if◌then◌else◌, is_empty, length, ltb, not, ok, ℕ,
  ◌%◌, ◌*◌, ◌+◌, ◌-◌, ◌==◌, ◌=ℕ=◌, ◌>>=◌, ◌||◌, ◌∷◌,
}
use est_service.X509.{Crypto}
use est_service.Http.{Request, Response, http_error, set_header, write, write_header}
use est_service.Handlers.Base.{method_not_allowed}

-- The loop of `parseOID` over the text, with `current`
unfoldable pub parse_components : List ℕ → ℕ → Result (List ℕ)
parse_components [] current = ok (current ∷ [])
parse_components (c ∷ cs) current =
    let next = parse_components cs 0 in
    let more = parse_components cs ((current * 10 + (c - 48)) % 2 ^ 64) in
    if c =ℕ= 46
    then next >>= (λ oid. ok (current ∷ oid))
    else if ltb c 48 || ltb 57 c
    then err (errorf "asn1: syntax error: invalid OID format")
    else more

-- `parseOID`
unfoldable pub parse_oid : String → Result (List ℕ)
parse_oid text = parse_components (codes text) 0 >>= λ oid.
    if ltb (length oid) 2
    then err (errorf "asn1: syntax error: OID must have at least 2 components")
    else ok oid

-- `OIDExtensionRequest`
abbrev pub oid_extension_request : List ℕ
oid_extension_request = 1 ∷ 2 ∷ 840 ∷ 113549 ∷ 1 ∷ 9 ∷ 14 ∷ []

-- The loop of `NewCSRAttrsHandler`, which leaves out the texts that do not parse
unfoldable pub parsed_attributes : List String → List (List ℕ)
parsed_attributes [] = []
parsed_attributes (text ∷ texts) =
    let rest = parsed_attributes texts in
    elim (parse_oid text) [ err _ ↦ rest | ok oid ↦ oid ∷ rest ]

-- The attributes of `NewCSRAttrsHandler`
unfoldable pub attributes_of : List String → List (List ℕ)
attributes_of custom =
    if is_empty custom then oid_extension_request ∷ [] else parsed_attributes custom

-- `CSRAttrsHandler.ServeHTTP`, where w.Write succeeds
unfoldable pub serve_csr_attrs :
    Crypto → (List (List ℕ) → Result (List ℕ)) → List (List ℕ) → Request → Response → Response
serve_csr_attrs crypto marshal_oids attributes req r =
    if not (req.method == "GET")
    then method_not_allowed r
    else if is_empty attributes
    then write_header 204 r
    else elim (marshal_oids attributes) [
      | err _ ↦ http_error "Failed to encode CSR attributes" 500 r
      | ok encoded ↦ write (crypto.encode_base64 encoded) (
          write_header 200 (
            set_header "Content-Transfer-Encoding" "base64"
              (set_header "Content-Type" "application/csrattrs" r)))
    ]
