-- ===== src/Observability/Page/Events/Settings.antt =====
-- The filters that are on after clicks on them.
use sql_gateway_poc.Base.{
  Bool, true, false, List, [], ◌∷◌, ◌≡◌, refl, ap, arith, Bool-cases, inl, inr, any, if◌then◌else◌,
}
use sql_gateway_poc.Core.Dtos.{DecisionEnum, allowed, rejected, db_error}
use sql_gateway_poc.Observability.Page.{Page, same_decision, is_active}
use sql_gateway_poc.Observability.Page.Events.{
  add_filter, delete_filter, apply_filters, change_filter, PageEvent, message, change,
}

same_decision-eq : (d e : DecisionEnum) → same_decision d e ≡ true → d ≡ e
same_decision-eq allowed allowed h = refl
same_decision-eq rejected rejected h = refl
same_decision-eq db_error db_error h = refl
same_decision-eq _ _ h = cc

same_decision_comm : (d e : DecisionEnum) → same_decision d e ≡ same_decision e d
same_decision_comm allowed allowed = refl
same_decision_comm allowed rejected = refl
same_decision_comm allowed db_error = refl
same_decision_comm rejected allowed = refl
same_decision_comm rejected rejected = refl
same_decision_comm rejected db_error = refl
same_decision_comm db_error allowed = refl
same_decision_comm db_error rejected = refl
same_decision_comm db_error db_error = refl

is_active-add_filter :
    (o d : DecisionEnum) (filters : List DecisionEnum)
    → is_active d (add_filter o filters) ≡ (if same_decision o d then true else is_active d filters)
unfolding add_filter is_active any
is_active-add_filter o d filters = elim (Bool-cases (same_decision o d)) [
  | inl same ↦
      let e : o ≡ d = same_decision-eq o d same in
      elim (Bool-cases (is_active o filters)) [
        | inl active ↦
            ground (arith, same, same_decision_comm o d, active, ap (λ x. is_active x filters) e)
        | inr inactive ↦ ground (arith, same, same_decision_comm o d, inactive)
      ]
  | inr other ↦ elim (Bool-cases (is_active o filters)) [
    | inl active ↦ ground (arith, other, active)
    | inr inactive ↦ ground (arith, other, same_decision_comm o d, inactive)
  ]
]

is_active-delete_filter :
    (o d : DecisionEnum) (filters : List DecisionEnum)
    → is_active d (delete_filter o filters)
      ≡ (if same_decision o d then false else is_active d filters)
unfolding delete_filter is_active any
is_active-delete_filter o d [] = ground arith
is_active-delete_filter o d (x ∷ filters) =
    let rest = is_active-delete_filter o d filters in
    elim (Bool-cases (same_decision o x)) [
      | inl same ↦
          let e = ap (same_decision d) (same_decision-eq o x same) in
          ground (arith, same, e, same_decision_comm o d, rest)
      | inr other ↦ elim (Bool-cases (same_decision o d)) [
        | inl same ↦
            let e = ap (λ z. same_decision z x) (same_decision-eq o d same) in
            ground (arith, other, same, e, rest)
        | inr apart ↦ ground (arith, other, apart, rest)
      ]
    ]

-- Whether the filter of an outcome is on after some events: as it was set last.
abbrev pub last_setting : DecisionEnum → Bool → List PageEvent → Bool
last_setting d on [] = on
last_setting d on (message data_ ∷ events) = last_setting d on events
last_setting d on (change outcome checked ∷ events) =
    last_setting d (if same_decision outcome d then checked else on) events

pub change_filter-is_active :
    (o d : DecisionEnum) (checked : Bool) (p : Page)
    → is_active d (change_filter o checked p).active_filters
      ≡ (if same_decision o d then checked else is_active d p.active_filters)
unfolding change_filter apply_filters
change_filter-is_active o d true p = is_active-add_filter o d p.active_filters
change_filter-is_active o d false p = is_active-delete_filter o d p.active_filters
