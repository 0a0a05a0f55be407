-- ===== src/Est/Pkcs7.antt =====
-- pkg/est/pkcs7.go: the answer's container.
pub mod Parse
pub mod Laws
use est_service.Prelude.{
  List, Result, String, [], context, err, errorf, false, if◌then◌else◌, is_empty, true, ℕ, ◌++◌,
  ◌>>=◌, ◌∷◌,
}
use est_service.X509.{Certificate, Crypto}
use est_service.Est.Asn1.{ContentInfo, RawValue, SignedData}

-- `PKCS7ContentType`
abbrev pub pkcs7_content_type : String
pkcs7_content_type = "application/pkcs7-mime; smime-type=certs-only"

abbrev pub oid_signed_data : List ℕ
oid_signed_data = 1 ∷ 2 ∷ 840 ∷ 113549 ∷ 1 ∷ 7 ∷ 2 ∷ []

abbrev pub oid_data : List ℕ
oid_data = 1 ∷ 2 ∷ 840 ∷ 113549 ∷ 1 ∷ 7 ∷ 1 ∷ []

-- The zero value of asn1.RawValue, which stands for an optional field that is left out.
abbrev no_value : RawValue
no_value = record { tag_class = 0; tag = 0; is_compound = false; bytes = []; full_bytes = [] }

-- asn1.ClassUniversal and asn1.TagSet
abbrev empty_set : RawValue
empty_set = record { tag_class = 0; tag = 17; is_compound = true; bytes = []; full_bytes = [] }

-- asn1.ClassContextSpecific with the tag 0
abbrev tagged : List ℕ → RawValue
tagged bytes = record { tag_class = 2; tag = 0; is_compound = true; bytes = bytes; full_bytes = [] }

-- The loop that joins the certificates' raw bytes.
unfoldable pub raw_certs : List Certificate → List ℕ
raw_certs [] = []
raw_certs (cert ∷ certs) = cert.raw ++ raw_certs certs

-- `signedData`: certificates only, and no signature
abbrev pub signed_data_of : List ℕ → SignedData
signed_data_of raw = record {
  version = 1;
  digest_algorithms = empty_set;
  content_info = record { content_type = oid_data; content = no_value };
  certificates = tagged raw;
  crls = no_value;
  signer_infos = empty_set;
}

-- `contentInfo`
abbrev pub content_info_of : List ℕ → ContentInfo
content_info_of bytes = record { content_type = oid_signed_data; content = tagged bytes }

-- `CreatePKCS7CertsOnly`
unfoldable pub create_pkcs7_certs_only : Crypto → List Certificate → Result (List ℕ)
unfolding raw_certs
create_pkcs7_certs_only crypto certs =
    if is_empty certs then err (errorf "no certificates provided") else do
      signed_data ←
          context "failed to marshal SignedData: "
            (crypto.marshal_signed_data (signed_data_of (raw_certs certs)))
      context "failed to marshal ContentInfo: "
          (crypto.marshal_content_info (content_info_of signed_data))
