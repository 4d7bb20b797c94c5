-- ===== src/Startup/Controllers.antt =====
-- The discovery of the controllers.
-- main.py
pub mod Sorted
use sql_gateway_poc.Base.{Bool, true, ◌&&◌, List, [], ◌∷◌, ◌++◌, keep_if, if◌then◌else◌}
use sql_gateway_poc.Base.Text.{Text, text_eq}
use sql_gateway_poc.Startup.Order.{text_ltb}
use sql_gateway_poc.Startup.Steps.{Step, value_step, ◌>>=◌}
use sql_gateway_poc.Startup.Imports.{PythonClass, ModuleType, Python, import_submodules_recursively}

-- The class is defined in the module, not imported into it, and it is @injectable.
unfoldable pub is_own : ModuleType → PythonClass → Bool
unfolding text_eq
is_own loaded obj = text_eq obj.module_name loaded.name && obj.is_registered

-- The loops over the modules and over their classes.
unfoldable pub own_classes : List ModuleType → List PythonClass
unfolding is_own keep_if
own_classes [] = []
own_classes (loaded ∷ modules) = keep_if (is_own loaded) loaded.classes ++ own_classes modules

-- sorted(classes, key=lambda cls: cls.__name__): the sort is stable.
insert_class : PythonClass → List PythonClass → List PythonClass
unfolding text_ltb
insert_class cls [] = cls ∷ []
insert_class cls (other ∷ classes) =
    let rest = insert_class cls classes in
    if text_ltb other.name cls.name then other ∷ rest else cls ∷ other ∷ classes

unfoldable pub sort_by_name : List PythonClass → List PythonClass
unfolding insert_class
sort_by_name [] = []
sort_by_name (cls ∷ classes) = insert_class cls (sort_by_name classes)

-- _discover_controllers
unfoldable pub discover_controllers :
    {S : Type 0} → Python S → ModuleType → Step S (List PythonClass)
unfolding sort_by_name own_classes
discover_controllers python pkg = do
  modules ← import_submodules_recursively python pkg
  value_step (sort_by_name (own_classes modules))
