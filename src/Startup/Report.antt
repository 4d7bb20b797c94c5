-- ===== src/Startup/Report.antt =====
-- The settings, or the report of what is wrong with the environment.
-- main.py
pub mod Names
pub mod Settled
use sql_gateway_poc.Base.{◌-◌, ◌&&◌, List, [], ◌∷◌, ◌++◌, map, leb, if◌then◌else◌}
use sql_gateway_poc.Base.Text.{Text, codes, text_eq}
use sql_gateway_poc.Config.Settings.{
  Environment, GatewaySettings, FieldError, missing, too_small, Loaded, loaded, failed,
  create_gateway_settings,
}
use sql_gateway_poc.Startup.Order.{text_ltb}
use sql_gateway_poc.Startup.Steps.{Step, value_step, stop, system_exit}

-- str.upper, exact on ASCII texts
unfoldable pub upper : Text → Text
upper = map (λ c. if leb b'a' c && leb c b'z' then c - 32 else c)

-- Puts a text in its place among ascending ones, unless it is there.
unfoldable pub insert_text : Text → List Text → List Text
unfolding text_ltb text_eq
insert_text s [] = s ∷ []
insert_text s (t ∷ texts) =
    let rest = insert_text s texts in
    if text_eq s t then t ∷ texts else if text_ltb s t then s ∷ t ∷ texts else t ∷ rest

-- sorted({...}), of the names of the fields that are missing
unfoldable pub missing_names : List FieldError → List Text
unfolding insert_text upper codes
missing_names [] = []
missing_names (missing name ∷ errors) = insert_text (upper (codes name)) (missing_names errors)
missing_names (too_small name ∷ errors) = missing_names errors

-- ", ".join(names)
unfoldable pub join_names : List Text → Text
join_names [] = []
join_names (name ∷ []) = name
join_names (name ∷ next ∷ names) = name ++ b',' ∷ b' ' ∷ join_names (next ∷ names)

unfoldable pub missing_report : List Text → Text
unfolding codes join_names
missing_report names =
    codes "\nStartup error: missing required environment variables: "
    ++ (join_names names
        ++ codes
            ".\nCopy .env.example to .env and fill in the values, or export the variables in the shell.\n\n")

unfoldable pub invalid_report : Text → Text
unfolding codes
invalid_report text = codes "\nStartup error: invalid settings.\n" ++ (text ++ 10 ∷ 10 ∷ [])

-- `if missing`, and what is printed to stderr
unfoldable pub report : Text → List Text → Text
unfolding missing_report invalid_report
report text [] = invalid_report text
report text (name ∷ names) = missing_report (name ∷ names)

-- _load_settings_or_exit; `render` is str() of the ValidationError.
module _ {S : Type 0} (render : List FieldError → Text) where
  settle_settings : Loaded GatewaySettings → Step S GatewaySettings
  unfolding report missing_names
  settle_settings (loaded settings) = value_step settings
  settle_settings (failed errors) =
      stop (system_exit 1 (report (render errors) (missing_names errors)))

  unfoldable pub load_settings_or_exit : Environment → Step S GatewaySettings
  unfolding settle_settings
  load_settings_or_exit environment = settle_settings (create_gateway_settings environment)
