-- ===== src/Sql/Registry/History.antt =====
-- The registry after any sequence of registrations and lookups: the rules of a dialect are the
-- instances of what was registered, whether or not they come from the cache.
use text.Mathlib.Text.{◌==◌}
use text.Mathlib.TextEquality.{eq_iff}
use mathlib.Core.List.{append-nil, append_assoc}
use sql_gateway_poc.Base.{
  some, List, [], ◌∷◌, ◌++◌, String, ◌≡◌, refl, sym, ap, ◌∙◌, arith, if◌then◌else◌, Option-cases,
  inl, inr,
}
use sql_gateway_poc.Base.Dict.{Dict, lookup, lookup-insert}
use sql_gateway_poc.Sql.Registry.{
  SqlValidationRule, RuleClass, RuleRegistry, empty_registry, shared_dialect_key, classes_for,
  append_class, append_to_all, sql_rule, instantiate, rules_for,
}

-- What may happen to the registry: a decorated class is defined, or a validator asks for rules.
pub data RegistryCall (Node : Type 0) : Type 0 where
  register : List String → RuleClass Node → RegistryCall Node
  ask : String → RegistryCall Node

module _ {Node : Type 0} where
  unfoldable pub perform : RegistryCall Node → RuleRegistry Node → RuleRegistry Node
  perform (register dialects cls) r = sql_rule dialects cls r
  perform (ask dialect) r = (rules_for dialect r).1

  unfoldable pub after : List (RegistryCall Node) → RuleRegistry Node → RuleRegistry Node
  after [] r = r
  after (call ∷ calls) r = after calls (perform call r)

  -- The specification: the classes registered under a key, in order.
  copies : String → RuleClass Node → List String → List (RuleClass Node)
  copies key cls [] = []
  copies key cls (d ∷ ds) = (if d == key then cls ∷ [] else []) ++ copies key cls ds

  entered : String → RuleClass Node → List String → List (RuleClass Node)
  unfolding copies
  entered key cls [] = copies key cls (shared_dialect_key ∷ [])
  entered key cls (d ∷ ds) = copies key cls (d ∷ ds)

  unfoldable pub registered : String → List (RegistryCall Node) → List (RuleClass Node)
  unfolding entered
  registered key [] = []
  registered key (register dialects cls ∷ calls) = entered key cls dialects ++ registered key calls
  registered key (ask dialect ∷ calls) = registered key calls

  classes_for-append_class :
      (cls : RuleClass Node) (d key : String) (classes : Dict (List (RuleClass Node)))
      → classes_for key (append_class cls d classes)
        ≡ classes_for key classes ++ (if d == key then cls ∷ [] else [])
  unfolding append_class
  classes_for-append_class cls d key classes = ground (
    arith,
    lookup-insert d key (classes_for d classes ++ cls ∷ []) classes,
    eq_iff d key,
    append-nil (classes_for key classes),
  )

  classes_for-append_to_all :
      (cls : RuleClass Node) (key : String) (ds : List String)
      (classes : Dict (List (RuleClass Node)))
      → classes_for key (append_to_all cls ds classes)
        ≡ classes_for key classes ++ copies key cls ds
  unfolding append_to_all copies
  classes_for-append_to_all cls key [] classes = sym (append-nil _)
  classes_for-append_to_all cls key (d ∷ ds) classes =
      classes_for-append_to_all cls key ds (append_class cls d classes)
      ∙ ap (λ l. l ++ copies key cls ds) (classes_for-append_class cls d key classes)
      ∙ append_assoc (classes_for key classes) (if d == key then cls ∷ [] else [])
          (copies key cls ds)

  -- What a lookup of a dialect has to give.
  expected : String → RuleRegistry Node → List (SqlValidationRule Node)
  expected d r =
      instantiate
        (classes_for shared_dialect_key r.classes_by_dialect ++ classes_for d r.classes_by_dialect)

  record IsCoherent (r : RuleRegistry Node) : Type 0 where
    cached :
        (d : String) (rules : List (SqlValidationRule Node))
        → lookup d r.instance_cache ≡ some rules
        → rules ≡ expected d r

  rules_for-IsCoherent :
      (d : String) (r : RuleRegistry Node) → IsCoherent r → (rules_for d r).0 ≡ expected d r
  unfolding rules_for expected
  rules_for-IsCoherent d r h = elim (Option-cases (lookup d r.instance_cache)) [
    | inl e ↦ rw (e, rules_for)
    | inr (rules, e) ↦ rw (e, rules_for) (h.cached d rules e)
  ]

  classes-rules_for :
      (d : String) (r : RuleRegistry Node)
      → (rules_for d r).1.classes_by_dialect ≡ r.classes_by_dialect
  unfolding rules_for
  classes-rules_for d r = ground arith

  expected-rules_for :
      (d key : String) (r : RuleRegistry Node) → expected d (rules_for key r).1 ≡ expected d r
  unfolding expected
  expected-rules_for d key r =
      ap (λ cs. instantiate (classes_for shared_dialect_key cs ++ classes_for d cs))
        (classes-rules_for key r)

  cached-rules_for :
      (key d : String) (r : RuleRegistry Node) (rules : List (SqlValidationRule Node))
      → IsCoherent r
      → lookup d (rules_for key r).1.instance_cache ≡ some rules
      → rules ≡ expected d r
  unfolding rules_for expected
  cached-rules_for key d r rules h e = elim (Option-cases (lookup key r.instance_cache)) [
    | inl new ↦ ground (
      arith,
      lookup-insert key d (expected key r) r.instance_cache,
      eq_iff key d,
      h.cached d rules,
    )
    | inr (old, given) ↦ h.cached d rules (ground (arith, e))
  ]

  perform-IsCoherent :
      (call : RegistryCall Node) (r : RuleRegistry Node)
      → IsCoherent r
      → IsCoherent (perform call r)
  unfolding perform sql_rule lookup
  perform-IsCoherent (register [] cls) r h = record { cached = λ d rules e. cc }
  perform-IsCoherent (register (k ∷ ks) cls) r h = record { cached = λ d rules e. cc }
  perform-IsCoherent (ask key) r h = record {
    cached = λ d rules e. rw expected-rules_for (cached-rules_for key d r rules h e);
  }

  classes-perform :
      (call : RegistryCall Node) (key : String) (r : RuleRegistry Node)
      → classes_for key (perform call r).classes_by_dialect
        ≡ classes_for key r.classes_by_dialect ++ registered key (call ∷ [])
  unfolding perform sql_rule registered
  classes-perform (register [] cls) key r =
      simp append-nil (classes_for-append_class cls shared_dialect_key key r.classes_by_dialect)
  classes-perform (register (k ∷ ks) cls) key r =
      simp append-nil (classes_for-append_to_all cls key (k ∷ ks) r.classes_by_dialect)
  classes-perform (ask d) key r = simp (append-nil, classes-rules_for)

  after-IsCoherent :
      (calls : List (RegistryCall Node)) (r : RuleRegistry Node)
      → IsCoherent r
      → IsCoherent (after calls r)
  unfolding after
  after-IsCoherent [] r h = h
  after-IsCoherent (call ∷ calls) r h =
      after-IsCoherent calls (perform call r) (perform-IsCoherent call r h)

  registered-cons :
      (key : String) (call : RegistryCall Node) (calls : List (RegistryCall Node))
      → registered key (call ∷ calls) ≡ registered key (call ∷ []) ++ registered key calls
  unfolding registered
  registered-cons key (register dialects cls) calls =
      ap (λ l. l ++ registered key calls) (sym (append-nil (entered key cls dialects)))
  registered-cons key (ask d) calls = refl

  classes-after :
      (calls : List (RegistryCall Node)) (key : String) (r : RuleRegistry Node)
      → classes_for key (after calls r).classes_by_dialect
        ≡ classes_for key r.classes_by_dialect ++ registered key calls
  unfolding after
  classes-after [] key r = unfold registered in sym (append-nil _)
  classes-after (call ∷ calls) key r =
      classes-after calls key (perform call r)
      ∙ simp (classes-perform, append_assoc)
          (ap (λ l. classes_for key r.classes_by_dialect ++ l)
            (sym (registered-cons key call calls)))

-- After any sequence of registrations and lookups that starts from an empty registry, a lookup of a
-- dialect gives an instance of each class registered for all dialects, and then one of each class
-- registered for this dialect, in the order of registration; so the cache never serves an outdated
-- tuple.
pub rules_for-after :
    {Node : Type 0} (calls : List (RegistryCall Node)) (dialect : String)
    → (rules_for dialect (after calls empty_registry)).0
      ≡ instantiate (registered shared_dialect_key calls ++ registered dialect calls)
unfolding expected classes_for lookup
rules_for-after calls dialect =
    rules_for-IsCoherent dialect (after calls empty_registry)
      (after-IsCoherent calls empty_registry (record { cached = λ d rules e. cc }))
    ∙ simp classes-after
