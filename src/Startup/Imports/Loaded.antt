-- ===== src/Startup/Imports/Loaded.antt =====
-- What the import of a package's submodules leaves loaded.
use sql_gateway_poc.Base.{
  Bool, true, false, Option, none, some, List, [], ◌∷◌, ◌++◌, map, keep_if, ◌≡◌, inl, inr, refl,
  sym, arith, Bool-cases, All, subst,
}
use sql_gateway_poc.Base.Adds.{Some}
use sql_gateway_poc.Base.Text.{Text}
use sql_gateway_poc.Startup.Steps.{EndsWith, bind-EndsWith, value-EndsWith}
use sql_gateway_poc.Startup.Imports.{
  ModuleType, SourceFile, Python, join_by_dot, module_name_of, is_init, starts_with, import_files,
  import_roots, submodules, loaded_submodules, import_package, import_submodules_recursively,
}

-- A module of this name is in sys.modules.
abbrev pub IsLoaded : {S : Type 0} → Python S → Text → S → Type 0
IsLoaded python name s = Some (λ kv. kv.0 ≡ name) (python.sys_modules s)

-- The documented behaviour of import_module: what it imported is in sys.modules, and what was
-- there stays.
pub record IsImporter {S : Type 0} (python : Python S) : Type 0 where
  pub loads :
      (name : Text) (s : S) (loaded : ModuleType) (s' : S)
      → EndsWith (python.import_module name) s loaded s'
      → IsLoaded python name s'
  pub keeps :
      (name other : Text) (s : S) (loaded : ModuleType) (s' : S)
      → EndsWith (python.import_module name) s loaded s'
      → IsLoaded python other s
      → IsLoaded python other s'

-- Each file but those called __init__.py is loaded as a module.
abbrev pub AreLoaded : {S : Type 0} → Python S → Text → List SourceFile → S → Type 0
AreLoaded python pkg files s =
    All (λ file. is_init file ≡ false → IsLoaded python (module_name_of pkg file) s) files

starts_with-append : (prefix rest : Text) → starts_with prefix (prefix ++ rest) ≡ true
unfolding starts_with
starts_with-append [] rest = refl
starts_with-append (c ∷ prefix) rest = ground (arith, starts_with-append prefix rest)

dotted : (pkg s : Text) → starts_with (pkg ++ b'.' ∷ []) (pkg ++ b'.' ∷ s) ≡ true
unfolding starts_with
dotted [] s = refl
dotted (c ∷ pkg) s = ground (arith, dotted pkg s)

-- The name of a submodule begins with the prefix of its package.
name-IsDotted :
    (pkg : Text) (file : SourceFile)
    → starts_with (pkg ++ b'.' ∷ []) (module_name_of pkg file) ≡ true
unfolding module_name_of join_by_dot
name-IsDotted pkg file = go file.directories
  where
    go :
        (directories : List Text)
        → starts_with (pkg ++ b'.' ∷ []) (join_by_dot pkg (directories ++ file.stem ∷ [])) ≡ true
    go [] = dotted pkg file.stem
    go (d ∷ directories) = dotted pkg (join_by_dot d (directories ++ file.stem ∷ []))

-- A loaded name with the prefix has its module among the submodules.
Some-keep_if :
    (test : Text → Bool) (name : Text) (modules : List (Text × ModuleType))
    → test name ≡ true
    → Some (λ kv. kv.0 ≡ name) modules
    → Some (λ kv. kv.0 ≡ name) (keep_if (λ (key, loaded). test key) modules)
unfolding keep_if
Some-keep_if test name [] h o = absurd o
Some-keep_if test name ((key, loaded) ∷ modules) h (inl e) = rw (e, h) (inl refl)
Some-keep_if test name ((key, loaded) ∷ modules) h (inr o) = elim (Bool-cases (test key)) [
  | inl e ↦ rw e (inr (Some-keep_if test name modules h o))
  | inr e ↦ rw e (Some-keep_if test name modules h o)
]

All-keep_if :
    (test : Text → Bool) (modules : List (Text × ModuleType))
    → All (λ kv. test kv.0 ≡ true) (keep_if (λ (key, loaded). test key) modules)
unfolding keep_if
All-keep_if test [] = tt
All-keep_if test ((key, loaded) ∷ modules) = elim (Bool-cases (test key)) [
  | inl e ↦ rw e (e, All-keep_if test modules)
  | inr e ↦ rw e (All-keep_if test modules)
]

module _ {S : Type 0} (python : Python S) (importer : IsImporter python) where
  abbrev Keeps : S → S → Type 0
  Keeps s s' = (other : Text) → IsLoaded python other s → IsLoaded python other s'

  AreLoaded-Keeps :
      (pkg : Text) (files : List SourceFile) (s s' : S)
      → Keeps s s'
      → AreLoaded python pkg files s
      → AreLoaded python pkg files s'
  AreLoaded-Keeps pkg [] s s' keeps h = tt
  AreLoaded-Keeps pkg (file ∷ files) s s' keeps h =
      (λ e. keeps (module_name_of pkg file) (h.0 e), AreLoaded-Keeps pkg files s s' keeps h.1)

  import_files-loads :
      (pkg : Text) (files : List SourceFile) (s : S) (u : Unit) (s' : S)
      → EndsWith (import_files python pkg files) s u s'
      → AreLoaded python pkg files s' × Keeps s s'
  unfolding import_files
  import_files-loads pkg [] s u s' e =
      (tt, λ other h. subst (IsLoaded python other) (value-EndsWith tt u s s' e).1 h)
  import_files-loads pkg (file ∷ files) s u s' e = elim (Bool-cases (is_init file)) [
    | inl init ↦
        let (rest, keeps) = import_files-loads pkg files s u s' (rw init at e) in
        ((λ other. cc, rest), keeps)
    | inr other ↦
        let (loaded, s1, p, q) = bind-EndsWith _ _ s u s' (rw other at e) in
        let (rest, keeps) = import_files-loads pkg files s1 u s' q in
        let name = module_name_of pkg file in
        (
          (λ h. keeps name (importer.loads name s loaded s1 p), rest),
          λ o h. keeps o (importer.keeps name o s loaded s1 p h),
        )
  ]

  import_roots-loads :
      (pkg : Text) (roots : List Text) (s : S) (u : Unit) (s' : S)
      → EndsWith (import_roots python pkg roots) s u s'
      → All (λ root. AreLoaded python pkg (python.rglob root) s') roots × Keeps s s'
  unfolding import_roots
  import_roots-loads pkg [] s u s' e =
      (tt, λ other h. subst (IsLoaded python other) (value-EndsWith tt u s s' e).1 h)
  import_roots-loads pkg (root ∷ roots) s u s' e =
      let (v, s1, p, q) = bind-EndsWith _ _ s u s' e in
      let (first, kept) = import_files-loads pkg (python.rglob root) s v s1 p in
      let (rest, keeps) = import_roots-loads pkg roots s1 u s' q in
      (
        (AreLoaded-Keeps pkg (python.rglob root) s1 s' keeps first, rest),
        λ other h. keeps other (kept other h),
      )

  -- Each file of each root, but those called __init__.py, has its module among the submodules.
  abbrev pub AllImported : ModuleType → List Text → S → Type 0
  AllImported pkg roots s =
      All
        (λ root.
          All
            (λ file.
              is_init file ≡ false
              → Some (λ kv. kv.0 ≡ module_name_of pkg.name file) (submodules python pkg.name s))
            (python.rglob root))
        roots

  abbrev pub IsImported : ModuleType → Option (List Text) → List ModuleType → S → Type 0
  IsImported pkg none modules s = modules ≡ pkg ∷ []
  IsImported pkg (some roots) modules s =
      (modules ≡ map (λ (name, loaded). loaded) (submodules python pkg.name s))
      × All (λ kv. starts_with (pkg.name ++ b'.' ∷ []) kv.0 ≡ true) (submodules python pkg.name s)
      × AllImported pkg roots s

  files-imported :
      (pkg : Text) (files : List SourceFile) (s : S)
      → AreLoaded python pkg files s
      → All
          (λ file.
            is_init file ≡ false
            → Some (λ kv. kv.0 ≡ module_name_of pkg file) (submodules python pkg s))
          files
  files-imported pkg [] s h = tt
  files-imported pkg (file ∷ files) s h = (
    λ e.
        Some-keep_if (starts_with (pkg ++ b'.' ∷ [])) (module_name_of pkg file)
          (python.sys_modules s) (name-IsDotted pkg file) (h.0 e),
    files-imported pkg files s h.1,
  )

  roots-imported :
      (pkg : ModuleType) (roots : List Text) (s : S)
      → All (λ root. AreLoaded python pkg.name (python.rglob root) s) roots
      → AllImported pkg roots s
  roots-imported pkg [] s h = tt
  roots-imported pkg (root ∷ roots) s h =
      (files-imported pkg.name (python.rglob root) s h.0, roots-imported pkg roots s h.1)

  import_package-IsImported :
      (pkg : ModuleType) (path : Option (List Text)) (s : S) (modules : List ModuleType) (s' : S)
      → EndsWith (import_package python pkg path) s modules s'
      → IsImported pkg path modules s'
  unfolding import_package loaded_submodules
  import_package-IsImported pkg none s modules s' e = cc
  import_package-IsImported pkg (some roots) s modules s' e =
      let (u, s1, p, q) = bind-EndsWith _ _ s modules s' e in
      let (all, kept) = import_roots-loads pkg.name roots s u s1 p in
      let (m, same) =
        value-EndsWith (map (λ (name, loaded). loaded) (submodules python pkg.name s1)) modules s1
          s' q in
      subst (IsImported pkg (some roots) modules) same (
        sym m,
        All-keep_if (starts_with (pkg.name ++ b'.' ∷ [])) (python.sys_modules s1),
        roots-imported pkg roots s1 all,
      )

  -- If importing a module leaves it in sys.modules and drops none from there: when the import of a
  -- package's submodules ends, then for a package with a path it gives the modules whose names
  -- begin with the name of the package and a dot, and each Python file under the roots of the
  -- package, but those called __init__.py, is loaded as one of them; for a module without a path
  -- it gives that module alone.
  pub import_submodules-IsImported :
      (pkg : ModuleType) (s : S) (modules : List ModuleType) (s' : S)
      → EndsWith (import_submodules_recursively python pkg) s modules s'
      → IsImported pkg pkg.path modules s'
  unfolding import_submodules_recursively
  import_submodules-IsImported pkg s modules s' e =
      import_package-IsImported pkg pkg.path s modules s' e
