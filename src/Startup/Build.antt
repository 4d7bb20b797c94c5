-- ===== src/Startup/Build.antt =====
-- The application: settings, adapter, container, and the routers of the controllers.
-- main.py
pub mod Order
use sql_gateway_poc.Base.{Option, none, some, List, [], ◌∷◌, ◌++◌, if◌then◌else◌}
use sql_gateway_poc.Base.Text.{Text, codes}
use sql_gateway_poc.Config.Settings.{Environment, FieldError}
use sql_gateway_poc.Startup.Steps.{Step, value_step, ◌>>=◌}
use sql_gateway_poc.Startup.Report.{load_settings_or_exit}
use sql_gateway_poc.Startup.Imports.{
  PythonClass, ModuleType, Python, import_submodules_recursively, load_adapter,
}
use sql_gateway_poc.Startup.Controllers.{discover_controllers}

-- The packages that main.py imports at its top, and main.py itself.
pub record Packages : Type 0 where
  pub application : ModuleType
  pub controllers_package : ModuleType
  pub infrastructure_config : ModuleType
  pub infrastructure_observability : ModuleType
  pub main : ModuleType

-- What main.py calls of wireup and FastAPI. `router` is the attribute of a controller, none where
-- it is absent or no APIRouter.
pub record Frameworks (S Container Controller Router App : Type 0) : Type 0 where
  pub create_sync_container : List ModuleType → Step S Container
  pub get : Container → PythonClass → Step S Controller
  pub router : Controller → Option Router
  pub new_app : Text → App
  pub include_router : App → Router → App

module _ {S Container Controller Router App : Type 0} (python : Python S)
    (frameworks : Frameworks S Container Controller Router App) (packages : Packages)
    (render : List FieldError → Text) where
  open frameworks use {create_sync_container, get, router, new_app, include_router}
  open packages use {
    application, controllers_package, infrastructure_config, infrastructure_observability, main,
  }

  -- if isinstance(router, APIRouter)
  include_if_router : App → Option Router → App
  include_if_router app none = app
  include_if_router app (some r) = include_router app r

  -- The loop over the controllers.
  include_controllers : Container → List PythonClass → App → Step S App
  unfolding include_if_router
  include_controllers container [] app = value_step app
  include_controllers container (controller_class ∷ classes) app = do
    instance_ ← get container controller_class
    include_controllers container classes (include_if_router app (router instance_))

  -- The list of modules that the container is created from.
  collect_injectables : ModuleType → Step S (List ModuleType)
  collect_injectables adapter_module = do
    of_application ← import_submodules_recursively python application
    of_observability ← import_submodules_recursively python infrastructure_observability
    of_config ← import_submodules_recursively python infrastructure_config
    of_adapter ← import_submodules_recursively python adapter_module
    value_step (of_application ++ (of_observability ++ (of_config ++ (of_adapter ++ main ∷ []))))

  -- build_app
  unfoldable pub build_app : Environment → Step S App
  unfolding collect_injectables include_controllers
  build_app environment = do
    settings ← load_settings_or_exit render environment
    adapter_module ← load_adapter python settings.database_adapter
    injectables ← collect_injectables adapter_module
    container ← create_sync_container injectables
    classes ← discover_controllers python controllers_package
    include_controllers container classes (new_app (codes "SQL Gateway"))
