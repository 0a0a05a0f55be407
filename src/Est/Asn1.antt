-- ===== src/Est/Asn1.antt =====
-- The ASN.1 structures of pkg/est/pkcs7.go, and what it calls of encoding/asn1 to read them: a
-- parameter.
use est_service.Prelude.{Bool, List, Result, ℕ}

-- asn1.RawValue; `bytes` is the content, and `full_bytes` the whole element, which only reading sets.
pub record RawValue : Type 0 where
  pub tag_class : ℕ
  pub tag : ℕ
  pub is_compound : Bool
  pub bytes : List ℕ
  pub full_bytes : List ℕ

-- `pkcs7ContentInfo`
pub record ContentInfo : Type 0 where
  pub content_type : List ℕ
  pub content : RawValue

-- `pkcs7SignedData`
pub record SignedData : Type 0 where
  pub version : ℕ
  pub digest_algorithms : RawValue
  pub content_info : ContentInfo
  pub certificates : RawValue
  pub crls : RawValue
  pub signer_infos : RawValue

-- asn1.Unmarshal into each of the three types: the value, and what follows it.
pub record Asn1 : Type 0 where
  pub unmarshal_content_info : List ℕ → Result (ContentInfo × List ℕ)
  pub unmarshal_signed_data : List ℕ → Result (SignedData × List ℕ)
  pub unmarshal_value : List ℕ → Result (RawValue × List ℕ)
