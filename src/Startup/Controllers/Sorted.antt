-- ===== src/Startup/Controllers/Sorted.antt =====
-- The controllers that are discovered, and their order.
use mathlib.Core.List.{Perm}
use mathlib.Core.List.Perm
use sql_gateway_poc.Base.{
  true, false, List, [], ◌∷◌, ◌++◌, keep_if, ◌≡◌, ◌↔◌, ◌⊎◌, inl, inr, refl, sym, subst, Bool-cases,
}
use sql_gateway_poc.Base.{&&-eq-true}
use sql_gateway_poc.Base.Text.{text_eq, text_eq_iff}
use sql_gateway_poc.Base.Adds.{Some, Occurs}
use sql_gateway_poc.Startup.Order.{text_ltb, text_ltb_asym}
use sql_gateway_poc.Startup.Steps.{EndsWith, bind-EndsWith, value-EndsWith}
use sql_gateway_poc.Startup.Imports.{PythonClass, ModuleType, Python, import_submodules_recursively}
use sql_gateway_poc.Startup.Controllers.{
  is_own, own_classes, insert_class, sort_by_name, discover_controllers,
}

-- No class has a name below that of the class before it.
abbrev pub IsOrdered : List PythonClass → Type 0
IsOrdered [] = Unit
IsOrdered (c ∷ []) = Unit
IsOrdered (c ∷ d ∷ classes) = (text_ltb d.name c.name ≡ false) × IsOrdered (d ∷ classes)

insert_behind :
    (cls c : PythonClass) (classes : List PythonClass)
    → text_ltb c.name cls.name ≡ true
    → IsOrdered (c ∷ classes)
    → IsOrdered (insert_class cls classes)
    → IsOrdered (c ∷ insert_class cls classes)
unfolding insert_class
insert_behind cls c [] below h k = (text_ltb_asym c.name cls.name below, tt)
insert_behind cls c (d ∷ classes) below h k = elim (Bool-cases (text_ltb d.name cls.name)) [
  | inl less ↦ simp less (h.0, rw less at k)
  | inr more ↦ simp more (text_ltb_asym c.name cls.name below, (refl, h.1))
]

IsOrdered-tail :
    (c : PythonClass) (classes : List PythonClass) → IsOrdered (c ∷ classes) → IsOrdered classes
IsOrdered-tail c [] h = tt
IsOrdered-tail c (d ∷ classes) h = h.1

insert_class-IsOrdered :
    (cls : PythonClass) (classes : List PythonClass)
    → IsOrdered classes
    → IsOrdered (insert_class cls classes)
unfolding insert_class
insert_class-IsOrdered cls [] h = tt
insert_class-IsOrdered cls (c ∷ classes) h = elim (Bool-cases (text_ltb c.name cls.name)) [
  | inl less ↦ simp less (
      insert_behind cls c classes less h
        (insert_class-IsOrdered cls classes (IsOrdered-tail c classes h)))
  | inr more ↦ simp more (refl, h)
]

sort_by_name-IsOrdered : (classes : List PythonClass) → IsOrdered (sort_by_name classes)
unfolding sort_by_name
sort_by_name-IsOrdered [] = tt
sort_by_name-IsOrdered (c ∷ classes) =
    insert_class-IsOrdered c (sort_by_name classes) (sort_by_name-IsOrdered classes)

insert_class-perm :
    (cls : PythonClass) (classes : List PythonClass)
    → Perm (insert_class cls classes) (cls ∷ classes)
unfolding insert_class
insert_class-perm cls [] = Perm.refl _
insert_class-perm cls (c ∷ classes) = elim (Bool-cases (text_ltb c.name cls.name)) [
  | inl less ↦
      simp less (Perm.trans (Perm.cons c (insert_class-perm cls classes)) (Perm.swap cls c classes))
  | inr more ↦ simp more (Perm.refl (cls ∷ c ∷ classes))
]

sort_by_name-perm : (classes : List PythonClass) → Perm (sort_by_name classes) classes
unfolding sort_by_name
sort_by_name-perm [] = Perm.refl []
sort_by_name-perm (c ∷ classes) =
    Perm.trans (insert_class-perm c (sort_by_name classes))
      (Perm.cons c (sort_by_name-perm classes))

-- A member of the module that is defined there and injectable.
abbrev pub Owns : PythonClass → ModuleType → Type 0
Owns c loaded = Occurs c loaded.classes × (c.module_name ≡ loaded.name) × (c.is_registered ≡ true)

is_own_iff :
    (loaded : ModuleType) (c : PythonClass)
    → (is_own loaded c ≡ true) ↔ ((c.module_name ≡ loaded.name) × (c.is_registered ≡ true))
unfolding is_own
is_own_iff loaded c =
    let same = text_eq_iff c.module_name loaded.name in
    (
      λ h.
          let (a, b) = &&-eq-true (text_eq c.module_name loaded.name) c.is_registered h in
          (same.0 a, b),
      λ (a, b). rw (same.1 a, b) refl,
    )

Occurs-append :
    (c : PythonClass) (xs ys : List PythonClass) → Occurs c (xs ++ ys) ↔ (Occurs c xs ⊎ Occurs c ys)
Occurs-append c [] ys = (λ h. inr h, λ h. elim h [ inl o ↦ absurd o | inr o ↦ o ])
Occurs-append c (x ∷ xs) ys = (
  λ h. elim h [
    | inl e ↦ inl (inl e)
    | inr o ↦ elim ((Occurs-append c xs ys).0 o) [ inl p ↦ inl (inr p) | inr p ↦ inr p ]
  ],
  λ h. elim h [
    | inl (inl e) ↦ inl e
    | inl (inr o) ↦ inr ((Occurs-append c xs ys).1 (inl o))
    | inr o ↦ inr ((Occurs-append c xs ys).1 (inr o))
  ],
)

Occurs-keep_if :
    (loaded : ModuleType) (c : PythonClass) (classes : List PythonClass)
    → Occurs c (keep_if (is_own loaded) classes) ↔ (Occurs c classes × (is_own loaded c ≡ true))
unfolding keep_if
Occurs-keep_if loaded c [] = (λ h. absurd h, λ h. absurd h.0)
Occurs-keep_if loaded c (d ∷ classes) = elim (Bool-cases (is_own loaded d)) [
  | inl own ↦ simp own (
    λ h. elim h [
      | inl e ↦ (inl e, subst (λ x. is_own loaded x ≡ true) (sym e) own)
      | inr o ↦ let (p, q) = (Occurs-keep_if loaded c classes).0 o in (inr p, q)
    ],
    λ (o, q). elim o [ inl e ↦ inl e | inr p ↦ inr ((Occurs-keep_if loaded c classes).1 (p, q)) ],
  )
  | inr other ↦ simp other (
    λ h. let (p, q) = (Occurs-keep_if loaded c classes).0 h in (inr p, q),
    λ (o, q). elim o [
      | inl e ↦ (let owned : is_own loaded d ≡ true = subst (λ x. is_own loaded x ≡ true) e q in cc)
      | inr p ↦ (Occurs-keep_if loaded c classes).1 (p, q)
    ],
  )
]

own_classes_iff :
    (c : PythonClass) (modules : List ModuleType)
    → Occurs c (own_classes modules) ↔ Some (Owns c) modules
unfolding own_classes
own_classes_iff c [] = (λ h. h, λ h. h)
own_classes_iff c (loaded ∷ modules) =
    let kept = Occurs-keep_if loaded c loaded.classes in
    let both = Occurs-append c (keep_if (is_own loaded) loaded.classes) (own_classes modules) in
    let rest = own_classes_iff c modules in
    (
      λ h. elim (both.0 h) [
        | inl o ↦
            let (member, own) = kept.0 o in
            let (same, registered) = (is_own_iff loaded c).0 own in inl (member, same, registered)
        | inr o ↦ inr (rest.0 o)
      ],
      λ h. both.1 (elim h [
        | inl (member, same, registered) ↦
            inl (kept.1 (member, (is_own_iff loaded c).1 (same, registered)))
        | inr o ↦ inr (rest.1 o)
      ]),
    )

-- The classes found in some modules: in order, and each class as often as the modules own it.
pub record AreFound (modules : List ModuleType) (classes : List PythonClass) : Type 0 where
  pub ordered : IsOrdered classes
  pub same : Perm classes (own_classes modules)
  pub owned : (c : PythonClass) → Occurs c (own_classes modules) ↔ Some (Owns c) modules

-- When the discovery ends, its classes are ordered by their names, and are, with repetitions,
-- those that the modules of the package own: a class is owned by a module that has it as a
-- member, if it is injectable and its __module__ is the name of the module.
pub discover_controllers-AreFound :
    {S : Type 0} (python : Python S) (pkg : ModuleType) (s : S) (classes : List PythonClass)
    (s' : S)
    → EndsWith (discover_controllers python pkg) s classes s'
    → (modules : List ModuleType) × EndsWith (import_submodules_recursively python pkg) s modules s'
      × AreFound modules classes
unfolding discover_controllers
discover_controllers-AreFound python pkg s classes s' e =
    let (modules, s1, p, q) = bind-EndsWith _ _ s classes s' e in
    let (c, t) = value-EndsWith (sort_by_name (own_classes modules)) classes s1 s' q in
    (
      modules,
      subst (EndsWith (import_submodules_recursively python pkg) s modules) t p,
      subst (AreFound modules) c (record {
        ordered = sort_by_name-IsOrdered (own_classes modules);
        same = sort_by_name-perm (own_classes modules);
        owned = λ cls. own_classes_iff cls modules;
      }),
    )
