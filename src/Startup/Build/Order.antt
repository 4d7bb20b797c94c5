-- ===== src/Startup/Build/Order.antt =====
-- What an application that was built consists of.
use sql_gateway_poc.Base.{Option, List, [], ◌∷◌, ◌++◌, ◌≡◌, sym, subst, map}
use sql_gateway_poc.Base.Text.{Text, codes}
use sql_gateway_poc.Config.Settings.{Environment, GatewaySettings, FieldError}
use sql_gateway_poc.Config.Settings.Bounds.{IsFrom, create_gateway_settings-IsFrom}
use sql_gateway_poc.Startup.Steps.{EndsWith, bind-EndsWith, value-EndsWith}
use sql_gateway_poc.Startup.Report.Settled.{load_settings-EndsWith}
use sql_gateway_poc.Startup.Imports.{
  PythonClass, ModuleType, Python, import_submodules_recursively, load_adapter,
}
use sql_gateway_poc.Startup.Controllers.Sorted.{AreFound, discover_controllers-AreFound}
use sql_gateway_poc.Startup.Build.{
  Packages, Frameworks, include_if_router, include_controllers, collect_injectables, build_app,
}

module _ {S Container Controller Router App : Type 0} (python : Python S)
    (frameworks : Frameworks S Container Controller Router App) (packages : Packages)
    (render : List FieldError → Text) where
  open frameworks use {create_sync_container, get, router, new_app}
  open packages use {
    application, controllers_package, infrastructure_config, infrastructure_observability, main,
  }

  -- The routers are included one after the other.
  abbrev pub include_all : App → List (Option Router) → App
  unfolding include_if_router
  include_all app [] = app
  include_all app (r ∷ routers) =
      include_all (include_if_router python frameworks packages render app r) routers

  -- Each controller came from the container for its class, one after the other.
  abbrev pub AreGot : Container → S → List PythonClass → List Controller → S → Type 0
  AreGot container s [] [] s' = s ≡ s'
  AreGot container s (c ∷ classes) (instance_ ∷ instances) s' =
      (s1 : S) × EndsWith (get container c) s instance_ s1
      × AreGot container s1 classes instances s'
  AreGot container s _ _ s' = ⊥

  include_controllers-IsOrdered :
      (container : Container) (classes : List PythonClass) (start : App) (s : S) (app : App)
      (s' : S)
      → EndsWith
          (include_controllers python frameworks packages render container classes start)
          s
          app
          s'
      → (instances : List Controller) × AreGot container s classes instances s'
        × (app ≡ include_all start (map router instances))
  unfolding include_controllers
  include_controllers-IsOrdered container [] start s app s' e =
      let (same, still) = value-EndsWith start app s s' e in ([], still, sym same)
  include_controllers-IsOrdered container (c ∷ classes) start s app s' e =
      let (instance_, s1, p, q) = bind-EndsWith _ _ s app s' e in
      let (instances, got, same) =
        include_controllers-IsOrdered container classes
          (include_if_router python frameworks packages render start (router instance_)) s1 app s'
          q in
      (instance_ ∷ instances, (s1, p, got), same)

  -- The modules that the container is created from: those of three packages and of the adapter,
  -- each imported after the other, and main itself.
  pub record AreInjectables (adapter_module : ModuleType) (s : S) (injectables : List ModuleType)
      (s' : S) : Type 0 where
    pub of_application : List ModuleType
    pub of_observability : List ModuleType
    pub of_config : List ModuleType
    pub of_adapter : List ModuleType
    pub after_application : S
    pub after_observability : S
    pub after_config : S
    pub from_application :
        EndsWith
          (import_submodules_recursively python application)
          s
          of_application
          after_application
    pub from_observability :
        EndsWith
          (import_submodules_recursively python infrastructure_observability)
          after_application
          of_observability
          after_observability
    pub from_config :
        EndsWith
          (import_submodules_recursively python infrastructure_config)
          after_observability
          of_config
          after_config
    pub from_adapter :
        EndsWith (import_submodules_recursively python adapter_module) after_config of_adapter s'
    pub together :
        injectables
        ≡ of_application ++ (of_observability ++ (of_config ++ (of_adapter ++ main ∷ [])))

  collect_injectables-AreInjectables :
      (adapter_module : ModuleType) (s : S) (injectables : List ModuleType) (s' : S)
      → EndsWith
          (collect_injectables python frameworks packages render adapter_module)
          s
          injectables
          s'
      → AreInjectables adapter_module s injectables s'
  unfolding collect_injectables
  collect_injectables-AreInjectables adapter_module s injectables s' e =
      let (of_application, s1, p1, q1) = bind-EndsWith _ _ s injectables s' e in
      let (of_observability, s2, p2, q2) = bind-EndsWith _ _ s1 injectables s' q1 in
      let (of_config, s3, p3, q3) = bind-EndsWith _ _ s2 injectables s' q2 in
      let (of_adapter, s4, p4, q4) = bind-EndsWith _ _ s3 injectables s' q3 in
      let all = of_application ++ (of_observability ++ (of_config ++ (of_adapter ++ main ∷ []))) in
      let (same, still) = value-EndsWith all injectables s4 s' q4 in
      record {
        of_application = of_application;
        of_observability = of_observability;
        of_config = of_config;
        of_adapter = of_adapter;
        after_application = s1;
        after_observability = s2;
        after_config = s3;
        from_application = p1;
        from_observability = p2;
        from_config = p3;
        from_adapter =
            subst (EndsWith (import_submodules_recursively python adapter_module) s3 of_adapter)
              still p4;
        together = sym same;
      }

  pub record IsBuilt (environment : Environment) (s : S) (app : App) (s' : S) : Type 0 where
    pub settings : GatewaySettings
    pub from_environment : IsFrom environment settings
    pub adapter_module : ModuleType
    pub after_adapter : S
    pub adapter_loaded :
        EndsWith (load_adapter python settings.database_adapter) s adapter_module after_adapter
    pub injectables : List ModuleType
    pub after_imports : S
    pub collected : AreInjectables adapter_module after_adapter injectables after_imports
    pub container : Container
    pub after_container : S
    pub created :
        EndsWith (create_sync_container injectables) after_imports container after_container
    pub modules : List ModuleType
    pub after_discovery : S
    pub imported :
        EndsWith
          (import_submodules_recursively python controllers_package)
          after_container
          modules
          after_discovery
    pub classes : List PythonClass
    pub found : AreFound modules classes
    pub instances : List Controller
    pub got : AreGot container after_discovery classes instances s'
    pub included : app ≡ include_all (new_app (codes "SQL Gateway")) (map router instances)

  -- When the start-up ends with an application, it has done this, in this order: the settings are
  -- those that the environment gives; the adapter that these name was imported; the modules below
  -- application, observability, config and the adapter were imported, and the container created
  -- from them and main; the modules below the package of the controllers were imported; and this
  -- container gave one instance for each injectable class that these own, in the order of the
  -- names. The application is a new one with the routers of these instances, in this order.
  pub build_app-IsBuilt :
      (environment : Environment) (s : S) (app : App) (s' : S)
      → EndsWith (build_app python frameworks packages render environment) s app s'
      → IsBuilt environment s app s'
  unfolding build_app
  build_app-IsBuilt environment s app s' e =
      let (settings, s1, p1, q1) = bind-EndsWith _ _ s app s' e in
      let (given, same) = load_settings-EndsWith render environment s settings s1 p1 in
      let (adapter, s2, p2, q2) = bind-EndsWith _ _ s1 app s' q1 in
      let (injectables, s3, p3, q3) = bind-EndsWith _ _ s2 app s' q2 in
      let (container, s4, p4, q4) = bind-EndsWith _ _ s3 app s' q3 in
      let (classes, s5, p5, q5) = bind-EndsWith _ _ s4 app s' q4 in
      let (modules, imported, found) =
        discover_controllers-AreFound python controllers_package s4 classes s5 p5 in
      let (instances, got, included) =
        include_controllers-IsOrdered container classes (new_app (codes "SQL Gateway")) s5 app s'
          q5 in
      record {
        settings = settings;
        from_environment = create_gateway_settings-IsFrom environment settings given;
        adapter_module = adapter;
        after_adapter = s2;
        adapter_loaded =
            subst (λ x. EndsWith (load_adapter python settings.database_adapter) x adapter s2)
              (sym same) p2;
        injectables = injectables;
        after_imports = s3;
        collected = collect_injectables-AreInjectables adapter s2 injectables s3 p3;
        container = container;
        after_container = s4;
        created = p4;
        modules = modules;
        after_discovery = s5;
        imported = imported;
        classes = classes;
        found = found;
        instances = instances;
        got = got;
        included = included;
      }
