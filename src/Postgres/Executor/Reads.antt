-- ===== src/Postgres/Executor/Reads.antt =====
-- How many rows a read returns, and when it says that there are more.
use mathlib.Core.List.{map}
use sql_gateway_poc.Base.{
  ℕ, zero, suc, ◌+◌, ◌≤◌, ◌<◌, true, List, [], ◌∷◌, ◌≡◌, ◌↔◌, refl, ap, subst, arith, length, take,
  length-take, length-map,
}
use sql_gateway_poc.Base.Text.{Text}
use sql_gateway_poc.Core.Values.{Cell}
use sql_gateway_poc.Postgres.Executor.{read_outcome}
use sql_gateway_poc.Postgres.Executor.Cells.{coerce_cell_to_json_safe}

take-take : {A : Type 0} (n : ℕ) (xs : List A) → take n (take (suc n) xs) ≡ take n xs
take-take zero xs = refl
take-take (suc n) [] = refl
take-take (suc n) (x ∷ xs) = ap (λ l. x ∷ l) (take-take n xs)

take-take-add : {A : Type 0} (n : ℕ) (xs : List A) → take n (take (n + 1) xs) ≡ take n xs
take-take-add n xs =
    let e : suc n ≡ n + 1 = omega arith in
    subst (λ m. take n (take m xs) ≡ take n xs) e (take-take n xs)

-- Where the database has `rows` and the driver hands out the `max_results` + 1 first of them at
-- most: the outcome succeeds and holds the first `max_results` rows, coerced; it is marked as
-- truncated exactly if the database has more.
pub read_outcome_truncates :
    (max_results : ℕ) (column_names : List Text) (rows : List (List Cell))
    → let o = read_outcome max_results column_names (take (max_results + 1) rows) in
      (o.rows ≡ map (λ row. map coerce_cell_to_json_safe row) (take max_results rows))
      × (length o.rows ≤ max_results)
      × ((o.rows_were_truncated ≡ true) ↔ (max_results < length rows))
unfolding read_outcome
read_outcome_truncates n column_names rows =
    let coerce = λ (row : List Cell). map coerce_cell_to_json_safe row in
    (
      ap (λ l. map coerce l) (take-take-add n rows),
      omega (
        arith,
        length-map coerce (take n (take (n + 1) rows)),
        length-take n (take (n + 1) rows),
      ),
      (
        λ h. ground (arith, length-take (n + 1) rows),
        λ h. ground (arith, length-take (n + 1) rows),
      ),
    )
