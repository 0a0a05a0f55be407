-- ===== src/Backend/Common/Signing.antt =====
-- A signing through the common implementation: which requests reach the server, and with which token.
use est_service.Backend.Common.{common}
use est_service.World.{Call, World, clone}
use est_service.Handlers.Policy.{EnrollmentRequest, mount_of, process_csr_signing, sign_by_policy}
use mathlib.Core.Path.{subst⁻¹}
use Prim.Native.String.{◌++◌ as append}
use est_service.Backend.Objects.{
  Clients, Sent, clone_with_token, step, token_of, without_client, write, wrote,
  close as close_object,
}
use est_service.Prelude.{
  GoError, List, Result, Result-cases, String, [], ap, eq_iff, err, if_elim, inl, inr, length, none,
  ok, refl, some, wrap, ◌++◌, ◌==◌, ◌∙◌, ◌∷◌, ◌≡◌, ◌⊎◌,
}
use est_service.X509.{Certificate, CertificateRequest}
use est_service.Pem.{PemCrypto}
use est_service.Backend.{Handle}
use est_service.Backend.Api.{Api}
use est_service.Backend.Objects.Laws.{
  Sends, Sends-nothing, ended-Sends, request-Sends, token_of-append, without_client-append,
}
use est_service.Backend.Pki.{certificate_in, sign_csr, sign_csr_verbatim, signing_data}

module _ {S : Type 0} (api : Api S) (pem : PemCrypto) (h : Handle) {t : String} where
  sign_csr-Sends :
      (mount role : String) (csr : CertificateRequest) (ttl : String) (c : Clients S)
      → token_of h c.objects ≡ some t
      → Sends
          (wrote t (append mount (append "/sign/" role)) (some (signing_data pem csr ttl)) ∷ [])
          c
          (sign_csr api pem h mount role csr ttl c).1
  unfolding sign_csr
  sign_csr-Sends mount role csr ttl c opened =
      ended-Sends
        (step "failed to sign CSR: "
          (write api h (append mount (append "/sign/" role)) (some (signing_data pem csr ttl))) c)
        (certificate_in pem "no certificate data returned" "certificate not found in response")
        (request-Sends h _ _ c opened)

  sign_csr_verbatim-Sends :
      (mount : String) (csr : CertificateRequest) (ttl : String) (c : Clients S)
      → token_of h c.objects ≡ some t
      → Sends
          (wrote t (append mount "/sign-verbatim") (some (signing_data pem csr ttl)) ∷ [])
          c
          (sign_csr_verbatim api pem h mount csr ttl c).1
  unfolding sign_csr_verbatim
  sign_csr_verbatim-Sends mount csr ttl c opened =
      ended-Sends
        (step "failed to sign CSR verbatim: "
          (write api h (append mount "/sign-verbatim") (some (signing_data pem csr ttl))) c)
        (certificate_in pem "no certificate data returned" "certificate not found in response")
        (request-Sends h _ _ c opened)

module _ {S : Type 0} (api : Api S) (pem : PemCrypto) (req : EnrollmentRequest)
    (default_mount : String) where
  abbrev mount : String
  mount = mount_of req.policy default_mount

  -- What a signing request carries.
  abbrev pub signing_request : String → Sent
  signing_request path = wrote req.auth_token path (some (signing_data pem req.csr req.policy.ttl))

  -- What a signing does to the objects: nothing, where there is no token or no clone; or it adds one
  -- object, which is closed again, and sends at most one request, the policy's, with the requester's
  -- token.
  pub data SignedAs (c c' : Clients S) : Type 0 where
    idle : c' ≡ c → SignedAs c c'
    cloned :
        (requests : List Sent)
        → c'.objects ≡ c.objects ++ none ∷ []
        → c'.faulted ≡ c.faulted
        → c'.sent ≡ requests ++ c.sent
        → ((requests ≡ [])
            ⊎ ((req.policy.kind ≡ "role")
                × (requests
                    ≡ signing_request (append mount (append "/sign/" req.policy.value)) ∷ []))
            ⊎ ((req.policy.kind ≡ "sign-verbatim")
                × (requests ≡ signing_request (append mount "/sign-verbatim") ∷ [])))
        → SignedAs c c'

  -- The clone that signs.
  abbrev opened_by : Clients S → Clients S
  opened_by c = record c { objects = c.objects ++ some req.auth_token ∷ [] }

  closed :
      (c c'' : Clients S) (requests : List Sent)
      → Sends requests (opened_by c) c''
      → ((requests ≡ [])
          ⊎ ((req.policy.kind ≡ "role")
              × (requests ≡ signing_request (append mount (append "/sign/" req.policy.value)) ∷ []))
          ⊎ ((req.policy.kind ≡ "sign-verbatim")
              × (requests ≡ signing_request (append mount "/sign-verbatim") ∷ [])))
      → SignedAs c (close_object (length c.objects) c'')
  unfolding close_object
  closed c c'' requests sends by =
      cloned requests
        (ap (without_client (length c.objects)) sends.objects
          ∙ without_client-append c.objects (some req.auth_token))
        sends.faulted sends.sent by

  abbrev Ended : Clients S → Result Certificate × World (Clients S) → Type 0
  Ended c x = SignedAs c (close_object (length c.objects) x.1.remote)

  sign_by_policy-Ended :
      (c : Clients S) (w : World (Clients S)) (calls : List Call)
      → Ended c (
          sign_by_policy
            (common api pem)
            (length c.objects)
            mount
            req
            (record w { remote = opened_by c; calls = calls }))
  unfolding sign_by_policy
  sign_by_policy-Ended c w calls =
      let own = token_of-append c.objects (some req.auth_token) in
      let client = length c.objects in
      if_elim (Ended c) (req.policy.kind == "role")
        (λ role.
          closed c _ _
            (sign_csr-Sends api pem client mount req.policy.value req.csr req.policy.ttl
              (opened_by c) own)
            (inr (inl ((eq_iff _ _).0 role, refl))))
        λ _.
          if_elim (Ended c) (req.policy.kind == "sign-verbatim")
            (λ verbatim.
              closed c _ _
                (sign_csr_verbatim-Sends api pem client mount req.csr req.policy.ttl (opened_by c)
                  own)
                (inr (inr ((eq_iff _ _).0 verbatim, refl))))
            (λ _. closed c (opened_by c) [] (Sends-nothing (opened_by c)) (inl refl))

  clone-cases :
      {base : String} (c : Clients S)
      → token_of 0 c.objects ≡ some base
      → ((e : GoError) × (clone_with_token api 0 req.auth_token c ≡ (err e, c)))
        ⊎ (clone_with_token api 0 req.auth_token c ≡ (ok (length c.objects), opened_by c))
  unfolding clone_with_token
  clone-cases c opened = elim (Result-cases (api.cloned c.remote)) [
    | inl (e, p) ↦ inl (wrap "failed to clone client: " e, rw (opened, clone_with_token, p) refl)
    | inr (_, p) ↦ inr (rw (opened, clone_with_token, p) refl)
  ]

  -- Through the common implementation, a signing either leaves the objects and the server alone, or
  -- clones the base client, sends at most one request, with the requester's token, to the path and with
  -- the data that the policy asks for, and closes the clone, so that its token is gone; no nil client
  -- is used.
  pub process_csr_signing-SignedAs :
      {base : String} (w : World (Clients S))
      → token_of 0 w.remote.objects ≡ some base
      → SignedAs w.remote (process_csr_signing (common api pem) req default_mount w).1.remote
  unfolding process_csr_signing
  process_csr_signing-SignedAs w opened =
      if_elim (λ (x : Result Certificate × World (Clients S)). SignedAs w.remote x.1.remote)
        (req.auth_token == "") (λ _. idle refl)
        λ _. elim (clone-cases w.remote opened) [
          | inl (e, p) ↦ rw (ap (λ x. x.0) p) (idle (ap (λ x. x.1) p))
          | inr p ↦ rw (ap (λ x. x.0) p) (
              subst⁻¹
                (λ c. Ended w.remote (
                  sign_by_policy (common api pem) (length w.remote.objects) mount req
                    (record w { remote = c; calls = clone req.auth_token ∷ w.calls })))
                (ap (λ x. x.1) p)
                (sign_by_policy-Ended w.remote w (clone req.auth_token ∷ w.calls)))
        ]
