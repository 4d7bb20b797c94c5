-- ===== src/Startup/Report/Settled.antt =====
-- The settings that the start-up goes on with.
use sql_gateway_poc.Base.{List, ◌≡◌}
use sql_gateway_poc.Base.Text.{Text}
use sql_gateway_poc.Config.Settings.{
  Environment, GatewaySettings, FieldError, Loaded, loaded, failed, create_gateway_settings,
}
use sql_gateway_poc.Startup.Steps.{EndsWith}
use sql_gateway_poc.Startup.Report.{settle_settings, load_settings_or_exit}

settings_loaded :
    {S : Type 0} (render : List FieldError → Text) (l : Loaded GatewaySettings) (s : S)
    (settings : GatewaySettings) (s' : S)
    → EndsWith (settle_settings render l) s settings s'
    → (l ≡ loaded settings) × (s ≡ s')
unfolding settle_settings
settings_loaded render (loaded given) s settings s' e = (cc, cc)
settings_loaded render (failed errors) s settings s' e = cc

module _ {S : Type 0} (render : List FieldError → Text) (environment : Environment) (s : S)
    (settings : GatewaySettings) where
  pub load_settings-EndsWith :
      (s' : S)
      → EndsWith (load_settings_or_exit render environment) s settings s'
      → (create_gateway_settings environment ≡ loaded settings) × (s ≡ s')
  unfolding load_settings_or_exit
  load_settings-EndsWith s' e =
      settings_loaded render (create_gateway_settings environment) s settings s' e
