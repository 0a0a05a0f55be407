-- ===== src/Config/Load.antt =====
-- `Load` of pkg/config/loader.go.
pub mod Laws
use est_service.Prelude.{Result, String, context, ◌>>=◌}
use est_service.Config.{Config, Host}
use est_service.Config.Defaults.{apply_defaults}
use est_service.Config.Validate.{validate}

-- `Load`
unfoldable pub load : Host → String → Result Config
load host path = do
  text ← context "failed to read config file: " (host.read_file path)
  cfg ← context "failed to parse config: " (host.unmarshal (host.expand_env text))
  cfg' ← apply_defaults host cfg
  context "invalid configuration: " (validate host cfg')
