-- ===== src/Samples/Queries.antt =====
-- The theorems on the validator, the registry and the scrubber, at work on the sample statements.
use mathlib.Core.List.{Perm}
use mathlib.Core.List.Perm
use sql_gateway_poc.Base.{
  ℕ, true, none, List, [], ◌∷◌, ◌++◌, map, ◌≡◌, ◌↔◌, refl, ◌≤◌, arith, ==_iff, All, length,
}
use sql_gateway_poc.Base.Text.{Text, codes, text_eq, strip, first_line, IsOneLine}
use sql_gateway_poc.Base.{subst}
use sql_gateway_poc.Base.Exec.{Outcome, returned}
use sql_gateway_poc.Core.Values.{str}
use sql_gateway_poc.Sql.Registry.{empty_registry, sql_rule, rules_for, instantiate}
use sql_gateway_poc.Sql.Registry.History.{
  RegistryCall, ask, perform, after, registered, rules_for-after,
}
use sql_gateway_poc.Sql.Rules.{
  allowed_root_statement, no_forbidden_constructs, no_select_into, no_data_modifying_cte,
  no_dangerous_functions, bounded_write,
}
use sql_gateway_poc.Sql.Rules.Safe.{IsSafe}
use sql_gateway_poc.Sql.Validator.{validate, apply_rules, non_null, compact_first_line}
use sql_gateway_poc.Sql.Validator.Verdict.{IsSingle, Allows, AcceptedByRules, validate_iff}
use sql_gateway_poc.Sql.Validator.Detail.{detail_bounds}
use sql_gateway_poc.Sql.Ast.{literal}
use sql_gateway_poc.Sql.Scrubber.{
  scrub, redaction_marker, contains, replace_all_literals, collect_sensitive_literal_ids,
}
use sql_gateway_poc.Sql.Scrubber.Edits.{scrub_edits, IsNumbered, IsRedaction, IsSensitive}
use sql_gateway_poc.Postgres.Validator.{postgres, rule_classes, imports, validate_postgres}
use sql_gateway_poc.Postgres.Validator.Safety.{validate_postgres_iff}
use sql_gateway_poc.Base.Dict.{lookup, insert}
use sql_gateway_poc.Core.Dtos.{ValidationResultDto, allow, reject}
use sql_gateway_poc.Sql.Sensitive.{
  is_sensitive_column_name, word, fold_case, search_any, matches_here,
}
use sql_gateway_poc.Base.Adds.{Some}
use sql_gateway_poc.Sql.Sensitive.Words.{sensitive_words, StandsIn, is_sensitive_column_name_iff}
use sql_gateway_poc.Base.Decimal.{decimal}
use sql_gateway_poc.Samples.Trees.{token_value}
use sql_gateway_poc.Sql.Scrubber.Edits.{AreDistinct, replace_all_literals_distinguishes}
use sql_gateway_poc.Base.{any}
use sql_gateway_poc.Http.Gateway.Messages.{IsExplained, rejection-IsExplained}
use sql_gateway_poc.Base.Exec.Ensures.{Ensures}
use sql_gateway_poc.UseCases.ExecuteQuery.{execute}
use sql_gateway_poc.UseCases.ExecuteQuery.Calls.{log_guard, log_recorder, quiet_clocks}
use sql_gateway_poc.App.{postgres_guard, recorder_beside, clocks_beside}
use sql_gateway_poc.App.Barrier.{IsReady, IsBarred, unsafe-IsBarred}
use sql_gateway_poc.App.Service.{answer_query}
use sql_gateway_poc.App.Service.Untouched.{
  watched, IsFresh, IsTurnedDown, answer_query-IsTurnedDown,
}
use sql_gateway_poc.Samples.Services.{environs, settings}
use sql_gateway_poc.Samples.Ports.{open_guard, silent_recorder, ticking_clocks}
use sql_gateway_poc.Samples.Trees.{
  trees, select_text, root_of, name_of, update_root, update_text, delete_text, keep, walk,
}

abbrev imported : List (RegistryCall ℕ)
imported = imports trees (rule_classes trees)

imported_shared : registered "_shared_" imported ≡ []
unfolding registered
imported_shared = refl

imported_all_perm : Perm (registered postgres imported) (rule_classes trees)
unfolding registered
imported_all_perm = Perm.refl (rule_classes trees)

validate_postgres_iff_example :
    Allows (validate_postgres trees (str update_text) (after imported empty_registry)).0
    ↔ IsSingle trees postgres (IsSafe trees) (str update_text)
validate_postgres_iff_example =
    validate_postgres_iff trees imported imported_shared imported_all_perm (str update_text)

-- The UPDATE passes; the DELETE without a WHERE and the SELECT that reads a file do not.
verdict : Text → Outcome ValidationResultDto
verdict t = (validate_postgres trees (str t) (after imported empty_registry)).0

verdict_update : verdict update_text ≡ returned allow
unfolding verdict validate_postgres validate after registered perform sql_rule rules_for lookup
    update_text delete_text select_text root_of name_of text_eq codes strip first_line apply_rules
    non_null allowed_root_statement no_forbidden_constructs no_select_into no_data_modifying_cte
    no_dangerous_functions bounded_write insert
verdict_update = refl

verdict_delete : verdict delete_text ≡ returned (reject "unbounded_write" none)
unfolding verdict validate_postgres validate after registered perform sql_rule rules_for lookup
    update_text delete_text select_text root_of name_of text_eq codes strip first_line apply_rules
    non_null allowed_root_statement no_forbidden_constructs no_select_into no_data_modifying_cte
    no_dangerous_functions bounded_write insert
verdict_delete = refl

-- A registration between two lookups of the same dialect.
abbrev calls : List (RegistryCall ℕ)
calls = imported ++ ask postgres ∷ []

rules_for-after_example :
    (rules_for postgres (after calls empty_registry)).0
    ≡ instantiate (registered "_shared_" calls ++ registered postgres calls)
rules_for-after_example = rules_for-after calls postgres

validate_iff_example :
    Allows (validate trees postgres (str delete_text) (after imported empty_registry)).0
    ↔ IsSingle trees postgres
        (AcceptedByRules trees postgres (after imported empty_registry))
        (str delete_text)
validate_iff_example = validate_iff trees postgres (after imported empty_registry) (str delete_text)

detail_bounds_example :
    (length (compact_first_line update_text 20) ≤ 20)
    × IsOneLine (compact_first_line update_text 20)
detail_bounds_example = detail_bounds update_text 20 (omega arith)

scrub_edits_example :
    let edits =
      replace_all_literals trees update_root (collect_sensitive_literal_ids trees update_root) in
    (map (λ e. e.0) edits ≡ keep literal (walk update_root))
    × IsNumbered 1 edits
    × All (λ e. IsRedaction e.1 ↔ IsSensitive trees update_root e.0) edits
scrub_edits_example = scrub_edits trees ==_iff update_root

is_sensitive_column_name_iff_example :
    (is_sensitive_column_name (codes "Api-Key_1") ≡ true)
    ↔ Some (λ w. StandsIn w (codes "Api-Key_1")) (map codes sensitive_words)
is_sensitive_column_name_iff_example = is_sensitive_column_name_iff (codes "Api-Key_1")

-- The token is redacted, the id becomes a placeholder.
scrubbed_update : Outcome Text
scrubbed_update = scrub trees postgres (str update_text)

scrubbed_update_lem : scrubbed_update ≡ returned (codes " [REDACTED:$1] $2")
unfolding scrubbed_update scrub replace_all_literals collect_sensitive_literal_ids redaction_marker
    is_sensitive_column_name search_any decimal update_text delete_text select_text root_of name_of
    text_eq codes fold_case matches_here any contains word
scrubbed_update_lem = refl

abbrev refusal : ValidationResultDto
refusal = reject "unbounded_write" none

delete_is_refused :
    (validate_postgres trees (str delete_text) (after imported empty_registry)).0 ≡ returned refusal
delete_is_refused = unfold verdict in verdict_delete

rejection-IsExplained_example : IsExplained refusal
rejection-IsExplained_example =
    rejection-IsExplained trees imported imported_shared imported_all_perm (str delete_text) refusal
      delete_is_refused refl

delete_is_unsafe : ¬ IsSingle trees postgres (IsSafe trees) (str delete_text)
delete_is_unsafe safe =
    let allows : Allows (returned refusal) = subst Allows delete_is_refused (
      (validate_postgres_iff trees imported imported_shared imported_all_perm (str delete_text)).1
        safe) in
    cc allows

unsafe-IsBarred_example :
    Ensures
      (IsReady trees imported)
      (execute
        (log_guard (postgres_guard trees open_guard.executor))
        (log_recorder (recorder_beside trees silent_recorder))
        (quiet_clocks (clocks_beside trees ticking_clocks))
        2
        (str delete_text)
        [])
      IsBarred
unsafe-IsBarred_example =
    unsafe-IsBarred trees imported imported_shared imported_all_perm open_guard.executor
      silent_recorder ticking_clocks 2 (str delete_text) [] delete_is_unsafe

answer_query-IsTurnedDown_example :
    Ensures
      (IsFresh trees environs settings imported)
      (answer_query trees (watched environs) settings (str delete_text))
      (IsTurnedDown trees environs settings)
answer_query-IsTurnedDown_example =
    answer_query-IsTurnedDown trees environs settings imported imported_shared imported_all_perm
      (str delete_text) delete_is_unsafe

replace_all_literals_distinguishes_example :
    AreDistinct (replace_all_literals trees update_root (token_value ∷ []))
replace_all_literals_distinguishes_example =
    replace_all_literals_distinguishes trees update_root (token_value ∷ [])
