-- ===== src/Startup/Imports.antt =====
-- Imports: every submodule of a package, and the package of the adapter.
-- main.py
pub mod Loaded
use sql_gateway_poc.Base.{
  ℕ, Bool, true, false, ◌&&◌, Option, none, some, List, [], ◌∷◌, ◌++◌, map, keep_if, ◌==◌,
  if◌then◌else◌,
}
use sql_gateway_poc.Base.Text.{Text, codes, text_eq}
use sql_gateway_poc.Startup.Steps.{
  Stop, import_error, adapter_import_failed, Ending, ended, stopped, Step, value_step, ◌>>=◌, ◌>>◌,
}

-- A class that is a member of a module: its __name__ and __module__, and whether it has a
-- __wireup_registration__.
pub record PythonClass : Type 0 where
  pub name : Text
  pub module_name : Text
  pub is_registered : Bool

-- A module: its __name__, its __path__ if it has one, and its members that are classes.
pub record ModuleType : Type 0 where
  pub name : Text
  pub path : Option (List Text)
  pub classes : List PythonClass

-- A file that rglob("*.py") finds: its directories below the root, and its name without ".py".
pub record SourceFile : Type 0 where
  pub directories : List Text
  pub stem : Text

-- What the start-up calls of Python: importlib.import_module, sys.modules, and Path.rglob("*.py").
pub record Python (S : Type 0) : Type 0 where
  pub import_module : Text → Step S ModuleType
  pub sys_modules : S → List (Text × ModuleType)
  pub rglob : Text → List SourceFile

-- ".".join(parts)
unfoldable pub join_by_dot : Text → List Text → Text
join_by_dot first [] = first
join_by_dot first (part ∷ parts) = first ++ b'.' ∷ join_by_dot part parts

-- The name of the module that a file under the root of a package holds.
unfoldable pub module_name_of : Text → SourceFile → Text
unfolding join_by_dot
module_name_of pkg file = join_by_dot pkg (file.directories ++ file.stem ∷ [])

-- py_file.name == "__init__.py"
unfoldable pub is_init : SourceFile → Bool
unfolding text_eq codes
is_init file = text_eq file.stem (codes "__init__")

-- name.startswith(prefix)
unfoldable pub starts_with : Text → Text → Bool
starts_with [] name = true
starts_with (c ∷ prefix) [] = false
starts_with (c ∷ prefix) (d ∷ name) = (c == d) && starts_with prefix name

module _ {S : Type 0} (python : Python S) where
  open python use {import_module, sys_modules, rglob}

  -- The loops over the files of a root and over the roots of a package.
  import_files : Text → List SourceFile → Step S Unit
  unfolding is_init module_name_of
  import_files pkg [] = value_step tt
  import_files pkg (file ∷ files) =
      let rest = import_files pkg files in
      if is_init file then rest else import_module (module_name_of pkg file) >> rest

  import_roots : Text → List Text → Step S Unit
  unfolding import_files
  import_roots pkg [] = value_step tt
  import_roots pkg (root ∷ roots) = import_files pkg (rglob root) >> import_roots pkg roots

  abbrev pub submodules : Text → S → List (Text × ModuleType)
  submodules pkg s = keep_if (λ (name, loaded). starts_with (pkg ++ b'.' ∷ []) name) (sys_modules s)

  loaded_submodules : Text → Step S (List ModuleType)
  unfolding starts_with keep_if
  loaded_submodules pkg s = (ended (map (λ (name, loaded). loaded) (submodules pkg s)), s)

  import_package : ModuleType → Option (List Text) → Step S (List ModuleType)
  unfolding import_roots loaded_submodules
  import_package pkg none = value_step (pkg ∷ [])
  import_package pkg (some roots) = import_roots pkg.name roots >> loaded_submodules pkg.name

  -- _import_submodules_recursively
  unfoldable pub import_submodules_recursively : ModuleType → Step S (List ModuleType)
  unfolding import_package
  import_submodules_recursively pkg = import_package pkg pkg.path

  -- _ADAPTER_PACKAGE_ROOT
  abbrev pub adapter_package_root : Text
  unfolding codes
  adapter_package_root = codes "infrastructure.persistence"

  -- _ADAPTER_PACKAGE_ROOT.replace(".", "/")
  unfoldable pub with_slashes : Text → Text
  with_slashes = map (λ c. if c == b'.' then b'/' else c)

  -- except ImportError
  unfoldable pub except_import_error : (Text → Stop) → Ending ModuleType → Ending ModuleType
  except_import_error handler (ended loaded) = ended loaded
  except_import_error handler (stopped (import_error text)) = stopped (handler text)
  except_import_error handler (stopped e) = stopped e

  -- _load_adapter
  unfoldable pub load_adapter : Text → Step S ModuleType
  unfolding except_import_error with_slashes
  load_adapter adapter_name s =
      let module_path = adapter_package_root ++ b'.' ∷ adapter_name in
      let (o, s') = import_module module_path s in
      (
        except_import_error
            (λ cause.
              adapter_import_failed module_path cause
                (with_slashes adapter_package_root ++ b'/' ∷ adapter_name))
            o,
        s',
      )
