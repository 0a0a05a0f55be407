-- ===== src/Handlers/KeyGen/Answer.antt =====
-- pkg/handlers/serverkeygen.go: the multipart answer.
use est_service.X509.{Certificate, Crypto}
use est_service.Http.{Response, set_header, write, write_header}
use est_service.Est.Pkcs7.{create_pkcs7_certs_only}
use est_service.Handlers.KeyGen.Encode.{EncryptedPrivateKey}
use Prim.Native.String.{◌++◌}
use est_service.Prelude.{
  Bool, List, Result, String, [], context, if◌then◌else◌, is_empty, not, ok, ℕ, ◌&&◌, ◌>>=◌, ◌∷◌,
}

-- `MultipartBoundaryServerKeyGen`
abbrev pub multipart_boundary : String
multipart_boundary = "EstServerKeyGenBoundary"

-- A part: its headers, an empty line, and its Base64 text
unfoldable pub part : String → String → String
part headers text =
    "--" ++ multipart_boundary ++ "\n" ++ headers ++ "Content-Transfer-Encoding: base64\n\n" ++ text
    ++ "\n"

abbrev pub key_content_type : Bool → String
key_content_type encrypt = if encrypt then "application/pkcs8-encrypted" else "application/pkcs8"

-- The part of the password, where it was encrypted.
unfoldable pub password_part : Crypto → EncryptedPrivateKey → String
unfolding part
password_part crypto key =
    if key.password_encrypted && not (is_empty key.encrypted_password)
    then part
        "Content-Type: application/octet-stream\nContent-Description: encrypted-key-password\n"
        (crypto.encode_base64 key.encrypted_password)
    else ""

-- The text that `sendServerKeyGenResponse` builds.
unfoldable pub multipart_body : Crypto → Bool → List ℕ → EncryptedPrivateKey → String
unfolding part password_part
multipart_body crypto encrypt encoded key =
    part "Content-Type: application/pkcs7-mime; smime-type=certs-only\n"
      (crypto.encode_base64 encoded)
    ++ part ("Content-Type: " ++ key_content_type encrypt ++ "\n")
        (crypto.encode_base64 key.encrypted_key_der)
    ++ password_part crypto key
    ++ "--"
    ++ multipart_boundary
    ++ "--\n"

-- `sendServerKeyGenResponse`, where w.Write succeeds: nothing is written if encoding fails.
unfoldable pub send_server_key_gen_response :
    Crypto → Bool → Certificate → EncryptedPrivateKey → Response → Result Response
unfolding multipart_body
send_server_key_gen_response crypto encrypt cert key r = do
  encoded ← context "failed to create PKCS#7: " (create_pkcs7_certs_only crypto (cert ∷ []))
  ok (
      write (multipart_body crypto encrypt encoded key) (
        write_header 200
          (set_header "Content-Type" ("multipart/mixed; boundary=" ++ multipart_boundary) r)))
