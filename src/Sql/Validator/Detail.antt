-- ===== src/Sql/Validator/Detail.antt =====
-- The detail of a parse error: one line, of bounded length.
use sql_gateway_poc.Base.{
  ℕ, ◌-◌, ◌≤◌, ◌<◌, false, [], ◌∷◌, ◌≡◌, ◌⊎◌, refl, arith, leb, length, take, length-append,
  length-take, All-append, All-take, Bool-cases, inl, inr,
}
use sql_gateway_poc.Base.Text.{
  Text, first_line, split, join_by_space, is_space, IsOneLine, collapse-IsOneLine,
}
use sql_gateway_poc.Sql.Validator.{compact_first_line}

length-compact_first_line :
    (message : Text) (limit : ℕ) → 0 < limit → length (compact_first_line message limit) ≤ limit
unfolding compact_first_line
length-compact_first_line message limit h =
    let line = join_by_space (split (first_line message)) in
    ground (arith, length-append (take (limit - 1) line) (8230 ∷ []), length-take (limit - 1) line)

ellipsis-IsOneLine : IsOneLine (8230 ∷ [])
unfolding is_space
ellipsis-IsOneLine = (inl refl, tt)

compact_first_line-IsOneLine :
    (message : Text) (limit : ℕ) → IsOneLine (compact_first_line message limit)
unfolding compact_first_line
compact_first_line-IsOneLine message limit =
    let words = split (first_line message) in
    let line = join_by_space words in
    elim (Bool-cases (leb (length line) limit)) [
      | inl fits ↦ rw fits (collapse-IsOneLine (first_line message))
      | inr long ↦ rw long (
          All-append (λ c. (is_space c ≡ false) ⊎ (c ≡ 32)) (take (limit - 1) line) (8230 ∷ [])
            (All-take _ (limit - 1) line (collapse-IsOneLine (first_line message)))
            ellipsis-IsOneLine)
    ]

-- Whatever the parser's message, the detail that the agent reads has at most `limit` characters and
-- no white space but single-character blanks: no line break, no tab.
pub detail_bounds :
    (message : Text) (limit : ℕ)
    → 0 < limit
    → (length (compact_first_line message limit) ≤ limit)
      × IsOneLine (compact_first_line message limit)
detail_bounds message limit h =
    (length-compact_first_line message limit h, compact_first_line-IsOneLine message limit)
