-- ===== src/Config/Load/Laws.antt =====
-- What a loaded configuration satisfies.
use est_service.Prelude.{Result, String, [], ap, bind_ok, context, err, ok, sym, ◌∙◌, ◌≡◌, ◌≢◌}
use est_service.Config.{Config, Host}
use est_service.Config.Defaults.Laws.{apply_defaults-algorithms}
use est_service.Config.Defaults.{apply_defaults}
use est_service.Config.Validate.{validate}
use est_service.Config.Validate.Laws.{IsInRange, IsValid, validate-IsValid}
use est_service.Config.Load.{load}

context_ok {ℓ} :
    {A : Type ℓ} (prefix : String) (m : Result A) {a : A} → context prefix m ≡ ok a → m ≡ ok a
context_ok prefix (ok a) h = h
context_ok prefix (err e) h = cc

-- What a configuration that `load` returns satisfies; `before` is what the defaults gave.
pub record IsLoaded (cfg : Config) : Type 0 where
  pub before : Config
  pub valid : IsValid before cfg
  pub algorithms : cfg.est.allowed_signature_algorithms ≢ []
  pub size : IsInRange cfg.est.max_size_bytes

-- A configuration that loads is the validated result of the defaults: its list of allowed algorithms
-- is not empty, and its limit of a CSR's size between 1 and 128 KB.
pub load-IsLoaded :
    (host : Host) (path : String) (cfg : Config) → load host path ≡ ok cfg → IsLoaded cfg
unfolding load
load-IsLoaded host path cfg h =
    let (text, _, h1) = bind_ok (context "failed to read config file: " (host.read_file path)) h in
    let (parsed, _, h2) =
      bind_ok (context "failed to parse config: " (host.unmarshal (host.expand_env text))) h1 in
    let (before, defaults, h3) = bind_ok (apply_defaults host parsed) h2 in
    let valid =
      validate-IsValid host before cfg
        (context_ok "invalid configuration: " (validate host before) h3) in
    record {
      before = before;
      valid = valid;
      algorithms = λ e.
          apply_defaults-algorithms host parsed before defaults
            (ap (λ c. c.allowed_signature_algorithms) (sym (ap (λ c. c.est) valid.unchanged)) ∙ e);
      size = rw (ap (λ c. c.est) valid.unchanged) valid.size;
    }
