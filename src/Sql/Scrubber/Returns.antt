-- ===== src/Sql/Scrubber/Returns.antt =====
-- The scrubber returns where sqlglot raises only SqlglotError.
use sql_gateway_poc.Base.{Option, none, some, String}
use sql_gateway_poc.Base.Text.{Text}
use sql_gateway_poc.Core.Values.{QueryPayload, str, dict, list}
use sql_gateway_poc.Sql.Ast.{
  Sqlglot, Parsed, parsed, sqlglot_error, other_exception, IsKnown, IsParser,
}
use sql_gateway_poc.Sql.Validator.Returns.{IsReturned}
use sql_gateway_poc.Sql.Scrubber.{scrub_parsed, written, scrub}

module _ (sqlglot : Sqlglot) (dialect : String) (parser : IsParser sqlglot dialect) where
  open sqlglot use {Node, parse_one}

  written-IsReturned : (o : Option Text) → IsReturned (written sqlglot o)
  unfolding written
  written-IsReturned none = tt
  written-IsReturned (some redacted) = tt

  scrub_parsed-IsReturned :
      (p : Parsed (Option Node)) → IsKnown p → IsReturned (scrub_parsed sqlglot dialect p)
  unfolding scrub_parsed
  scrub_parsed-IsReturned (parsed none) h = tt
  scrub_parsed-IsReturned (parsed (some statement)) h = written-IsReturned _
  scrub_parsed-IsReturned (sqlglot_error message) h = tt
  scrub_parsed-IsReturned (other_exception name) h = h

  pub scrub-IsReturned : (query : QueryPayload) → IsReturned (scrub sqlglot dialect query)
  unfolding scrub
  scrub-IsReturned (str t) = scrub_parsed-IsReturned (parse_one dialect t) (parser.parse_one t)
  scrub-IsReturned (dict d) = tt
  scrub-IsReturned (list l) = tt
