-- ===== src/Tests/Backend.antt =====
-- Runs of pkg/backend, against a server whose state counts its requests.
use est_service.World.{World}
use est_service.Pem.{PemCrypto, chain_of, rsa_private}
use est_service.Pem.Laws.{Blocks, Consumes, chain_of-Blocks, parse_all}
use est_service.Backend.Api.{Api, Secret, end, entry, field, table, text}
use est_service.Backend.Objects.{Clients, request, token_of}
use est_service.Backend.Transit.{
  create_and_export, delete_key, export_key, exported_key, exported_pem, generate_exportable_key,
  map_to_transit_key_type, parse_exported_key,
}
use est_service.Backend.Transit.Laws.{Generation, generate_exportable_key-Generation}
use est_service.Backend.Common.{common}
use est_service.Backend.Common.Signing.{SignedAs, process_csr_signing-SignedAs}
use est_service.Handlers.Policy.{EnrollmentRequest, process_csr_signing}
use est_service.Service.Tokens.{Job, Resting, enrolls, reenrolls, serve_all, serve_all-Resting}
use mathlib.Core.Path.{subst}
use est_service.Prelude.{
  List, Option, [], ap, arith, err, errorf, false, length, none, ok, pos, refl, some,
  some_injective, true, ℕ, ◌+◌, ◌<◌, ◌∷◌, ◌≡◌,
}
use est_service.Tests.Fixtures.{
  client_cert, crypto, csr, handler, policy, request as device_request,
}

-- Each byte of a text is a block, and each block is the client's certificate.
abbrev first_byte : List ℕ → Option (List ℕ × List ℕ)
first_byte [] = none
first_byte (byte ∷ bytes) = some (byte ∷ [], bytes)

abbrev pem : PemCrypto
pem = record {
  pem_decode = first_byte;
  pem_encode = λ kind bytes. kind;
  parse_certificate = λ block. ok client_cert;
  parse_pkcs8 = λ block. ok (rsa_private block);
  parse_pkcs1 = λ block. err (errorf "not PKCS#1");
  parse_ec = λ block. err (errorf "not EC");
  fingerprint = λ bytes. "0123456789abcdef0123456789abcdef0123456789abcdef0123456789abcdef";
  not_before = λ cert. "2026-01-01T00:00:00Z";
  not_after = λ cert. "2027-01-01T00:00:00Z";
  bytes_text = λ bytes. "pem";
}

abbrev reply : Option Secret
reply = some (record {
  contents = some (
      field "certificate" (text "c")
        (field "keys" (table (field "1" (text "k") end)) (field "id" (text "e1") end)));
  client_token = some "t9";
})

-- A server that answers everything.
abbrev api : Api ℕ
api = record {
  write = λ t path fields s. (ok reply, s + 1);
  read = λ t path s. (ok reply, s + 1);
  delete = λ t path s. (ok none, s + 1);
  read_raw = λ t path s. (ok (ok (7 ∷ [])), s + 1);
  health = λ timeout t s. (ok (record { sealed = false; initialized = true }), s + 1);
  list_auth = λ t s. (ok (("token/", record { kind = "token"; accessor = "a1" }) ∷ []), s + 1);
  renew_self = λ t s. (ok reply, s + 1);
  cloned = λ s. ok tt;
  now = λ s. 5;
}

abbrev clients : Clients ℕ
clients = record {
  remote = 0;
  objects = some "base" ∷ [];
  temporary = [];
  sent = [];
  faulted = false;
}

abbrev world : World (Clients ℕ)
world = record {
  remote = clients;
  calls = [];
  metrics = [];
  audit = [];
  credentials = [];
  panicked = false;
}

pem-Consumes : Consumes pem
pem-Consumes [] b rest e = absurd cc
pem-Consumes (byte ∷ bytes) b rest e =
    let same : bytes ≡ rest = ap (λ x. x.1) (some_injective e) in
    subst (λ l. length l < length (byte ∷ bytes)) same (omega arith)

chain_of-Blocks_example :
    (blocks : List (List ℕ)) × Blocks pem "bad: " (7 ∷ 8 ∷ []) blocks
    × (chain_of pem "bad: " (7 ∷ 8 ∷ []) ≡ parse_all pem "bad: " blocks)
chain_of-Blocks_example = chain_of-Blocks pem "bad: " pem-Consumes (7 ∷ 8 ∷ [])

abbrev signing : EnrollmentRequest
signing = record { csr = csr; auth_token = "t1"; policy = policy }

process_csr_signing-SignedAs_example :
    SignedAs api pem signing "pki" clients
      (process_csr_signing (common api pem) signing "pki" world).1.remote
unfolding token_of
process_csr_signing-SignedAs_example = process_csr_signing-SignedAs api pem signing "pki" world refl

generate_exportable_key-Generation_example :
    Generation api pem 0 "base" "transit" "rsa"
      (pos 2048)
      clients
      (generate_exportable_key api pem 0 "transit" "rsa" (pos 2048) clients)
unfolding token_of
generate_exportable_key-Generation_example =
    generate_exportable_key-Generation api pem 0 "base" "transit" "rsa" (pos 2048) clients refl

clients-Resting : Resting "base" clients
clients-Resting = record { rest = []; objects = refl; closed = tt; sound = refl }

abbrev jobs : List Job
jobs = enrolls device_request ∷ reenrolls device_request ∷ []

serve_all-Resting_example : Resting "base" (serve_all crypto api pem handler jobs world).remote
serve_all-Resting_example = serve_all-Resting crypto api pem handler jobs world clients-Resting

-- The key of the export is returned.
generates : (generate_exportable_key api pem 0 "transit" "rsa" (pos 2048) clients).0 ≡ ok (107 ∷ [])
unfolding generate_exportable_key map_to_transit_key_type create_and_export export_key exported_key
    exported_pem parse_exported_key delete_key request token_of entry
generates = refl

-- And the base client sent the four requests.
generates_sent :
    length (generate_exportable_key api pem 0 "transit" "rsa" (pos 2048) clients).1.sent ≡ 4
unfolding generate_exportable_key map_to_transit_key_type create_and_export export_key delete_key
    request token_of
generates_sent = refl
