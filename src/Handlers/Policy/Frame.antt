-- ===== src/Handlers/Policy/Frame.antt =====
-- What a signing leaves as it was.
use est_service.Prelude.{Result, Result-cases, String, arith, if_elim, inl, inr, refl, ◌==◌}
use est_service.X509.{Certificate}
use est_service.Backend.{Backend, Handle}
use est_service.World.{World, call_clone}
use est_service.Auth.Frame.{Framed}
use est_service.Handlers.Policy.{EnrollmentRequest, mount_of, process_csr_signing, sign_by_policy}

module _ {R : Type 0} (b : Backend R) (req : EnrollmentRequest) where
  abbrev Frames : World R → Result Certificate × World R → Type 0
  Frames w x = Framed w x.1

  sign_by_policy-Framed :
      (client : Handle) (mount : String) (w : World R)
      → Framed w (sign_by_policy b client mount req w).1
  unfolding sign_by_policy
  sign_by_policy-Framed client mount w = ground arith

  -- A signing writes neither metrics nor audit entries itself, and never panics.
  pub process_csr_signing-Framed :
      (default_mount : String) (w : World R)
      → Framed w (process_csr_signing b req default_mount w).1
  unfolding process_csr_signing
  process_csr_signing-Framed default_mount w =
      if_elim (Frames w) (req.auth_token == "") (λ _. (refl, refl, refl))
        λ _. elim (Result-cases (b.clone_with_token req.auth_token w.remote).0) [
          | inl (e, p) ↦ rw p (refl, refl, refl)
          | inr (h, p) ↦ rw p (
              sign_by_policy-Framed h (mount_of req.policy default_mount)
                (call_clone b req.auth_token w).1)
        ]
