-- ===== src/Samples/Startups.antt =====
-- A start-up with two controllers, on an import system that loads what it is asked for.
use sql_gateway_poc.Base.{true, none, some, List, [], ◌∷◌, ◌++◌, ◌≡◌, refl, inl, inr, subst}
use sql_gateway_poc.Base.Text.{Text, codes}
use sql_gateway_poc.Config.Settings.{
  Environment, GatewaySettings, FieldError, missing, too_small, loaded, create_gateway_settings,
}
use sql_gateway_poc.Startup.Steps.{Step, ended, EndsWith, value-EndsWith, ◌>>=◌}
use sql_gateway_poc.Startup.Report.{load_settings_or_exit, missing_names}
use sql_gateway_poc.Startup.Imports.{
  PythonClass, ModuleType, SourceFile, Python, import_submodules_recursively, load_adapter,
}
use sql_gateway_poc.Startup.Imports.Loaded.{
  IsLoaded, IsImporter, IsImported, import_submodules-IsImported,
}
use sql_gateway_poc.Startup.Controllers.{discover_controllers}
use sql_gateway_poc.Startup.Controllers.Sorted.{AreFound, discover_controllers-AreFound}
use sql_gateway_poc.Startup.Build.{Packages, Frameworks, build_app}
use sql_gateway_poc.Startup.Build.Order.{IsBuilt, build_app-IsBuilt}

startup : Unit {0}
unfolding codes
startup = tt

abbrev Modules : Type 0
Modules = List (Text × ModuleType)

abbrev injectable_class : Text → Text → PythonClass
injectable_class name module_name = record {
  name = name;
  module_name = module_name;
  is_registered = true;
}

-- Each file holds one controller, named after its module.
abbrev load : Text → Step Modules ModuleType
load name s =
    let m : ModuleType = record {
      name = name;
      path = none;
      classes = injectable_class name name ∷ [];
    } in
    (ended m, (name, m) ∷ s)

abbrev files : Text → List SourceFile
unfolding codes
files root =
    record { directories = []; stem = codes "__init__" }
    ∷ record { directories = codes "probes" ∷ []; stem = codes "b" }
    ∷ record { directories = codes "gateway" ∷ []; stem = codes "a" }
    ∷ []

abbrev python : Python Modules
python = record { import_module = load; sys_modules = λ s. s; rglob = files }

abbrev module_of : Text → ModuleType
module_of name = record { name = name; path = none; classes = injectable_class name name ∷ [] }

python-IsImporter : IsImporter python
python-IsImporter = record {
  loads = λ name s m s' e.
      subst (IsLoaded python name)
        (value-EndsWith (module_of name) m ((name, module_of name) ∷ s) s' e).1 (inl refl);
  keeps = λ name other s m s' e h.
      subst (IsLoaded python other)
        (value-EndsWith (module_of name) m ((name, module_of name) ∷ s) s' e).1 (inr h);
}

abbrev plain : Text → ModuleType
plain name = record { name = name; path = none; classes = [] }

abbrev controllers : ModuleType
unfolding codes
controllers = record { name = codes "c"; path = some (codes "src" ∷ []); classes = [] }

abbrev packages : Packages
unfolding codes
packages = record {
  application = plain (codes "application");
  controllers_package = controllers;
  infrastructure_config = plain (codes "infrastructure.config");
  infrastructure_observability = plain (codes "infrastructure.observability");
  main = plain (codes "main");
}

-- The router of a controller is its name, and an application the list of what was included.
abbrev frameworks : Frameworks Modules (List ModuleType) Text Text (List Text)
frameworks = record {
  create_sync_container = λ injectables s. (ended injectables, s);
  get = λ container c s. (ended c.name, s);
  router = some;
  new_app = λ title. [];
  include_router = λ app r. app ++ r ∷ [];
}

abbrev environment : Environment
unfolding codes
environment = record {
  database_adapter = some (codes "postgres");
  database_url = some (codes "postgresql://");
  query_timeout_ms = none;
  max_results = none;
  max_sample_rows_in_observability = none;
  observability_jsonl_path = none;
}

abbrev settings : GatewaySettings
unfolding codes
settings = record {
  database_adapter = codes "postgres";
  database_url = codes "postgresql://";
  query_timeout_ms = 5000;
  max_results = 1000;
  max_sample_rows_in_observability = 20;
  observability_jsonl_path = none;
}

abbrev render : List FieldError → Text
render errors = []

abbrev a_name : Text
unfolding codes
a_name = codes "c.gateway.a"

abbrev b_name : Text
unfolding codes
b_name = codes "c.probes.b"

abbrev imported : List ModuleType
imported = module_of a_name ∷ module_of b_name ∷ []

abbrev after_import : Modules → Modules
after_import s = (a_name, module_of a_name) ∷ (b_name, module_of b_name) ∷ s

imports : EndsWith (import_submodules_recursively python controllers) [] imported (after_import [])
unfolding import_submodules_recursively ◌>>=◌ codes
imports = refl

import_submodules-IsImported_example :
    IsImported python python-IsImporter controllers controllers.path imported (after_import [])
import_submodules-IsImported_example =
    import_submodules-IsImported python python-IsImporter controllers [] imported (after_import [])
      imports

discovers :
    EndsWith
      (discover_controllers python controllers)
      []
      (injectable_class a_name a_name ∷ injectable_class b_name b_name ∷ [])
      (after_import [])
unfolding discover_controllers import_submodules_recursively ◌>>=◌ codes
discovers = refl

discover_controllers-AreFound_example :
    (modules : List ModuleType) × EndsWith
      (import_submodules_recursively python controllers)
      []
      modules
      (after_import [])
    × AreFound modules (injectable_class a_name a_name ∷ injectable_class b_name b_name ∷ [])
discover_controllers-AreFound_example =
    discover_controllers-AreFound python controllers []
      (injectable_class a_name a_name ∷ injectable_class b_name b_name ∷ []) (after_import [])
      discovers

settings_load : create_gateway_settings environment ≡ loaded settings
unfolding create_gateway_settings environment settings
settings_load = refl

abbrev adapter_name : Text
unfolding codes
adapter_name = codes "infrastructure.persistence.postgres"

abbrev after_build : Modules
after_build = after_import ((adapter_name, module_of adapter_name) ∷ [])

built :
    EndsWith
      (build_app python frameworks packages render environment)
      []
      (a_name ∷ b_name ∷ [])
      after_build
unfolding build_app load_settings_or_exit create_gateway_settings load_adapter discover_controllers
    import_submodules_recursively ◌>>=◌ codes
built = refl

build_app-IsBuilt_example :
    IsBuilt python frameworks packages render environment [] (a_name ∷ b_name ∷ []) after_build
build_app-IsBuilt_example =
    build_app-IsBuilt python frameworks packages render environment [] (a_name ∷ b_name ∷ [])
      after_build built

abbrev errors : List FieldError
errors = missing "database_url" ∷ too_small "max_results" ∷ missing "database_adapter" ∷ []

missing_names_test : missing_names errors ≡ codes "DATABASE_ADAPTER" ∷ codes "DATABASE_URL" ∷ []
unfolding missing_names codes
missing_names_test = refl

abbrev bare_environment : Environment
bare_environment = record environment { database_url = none; max_results = none }
