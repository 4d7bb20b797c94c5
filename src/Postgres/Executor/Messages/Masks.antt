-- ===== src/Postgres/Executor/Messages/Masks.antt =====
-- What a sanitised message cannot show.
use sql_gateway_poc.Base.{
  ℕ, ◌≤◌, Bool, true, false, ◌&&◌, [], ◌∷◌, ◌++◌, ◌≡◌, refl, sym, ap, ◌∙◌, arith, ◌==◌, any, All,
  take, length, length-take,
}
use sql_gateway_poc.Base.Text.{Text, strip}
use sql_gateway_poc.Postgres.Executor.Messages.{
  max_error_message_length, starts_value, mask_values, mask_quotes, sanitize_error_message,
}

-- A value without a closing parenthesis.
abbrev pub IsOpen : Text → Type 0
IsOpen = All (λ c. (c == b')') ≡ false)

-- The message with a value in parentheses after an equals sign.
abbrev pub with_value : Text → Text → Text → Text
with_value pre value post = pre ++ b'=' ∷ b'(' ∷ (value ++ b')' ∷ post)

closes : (value post : Text) → any (λ e. e == b')') (value ++ b')' ∷ post) ≡ true
unfolding any
closes [] post = refl
closes (c ∷ value) post = ground (arith, closes value post)

closes_after : (pre value post : Text) → any (λ e. e == b')') (with_value pre value post) ≡ true
unfolding any
closes_after [] value post = closes value post
closes_after (c ∷ pre) value post = ground (arith, closes_after pre value post)

starts_alike :
    (c : ℕ) (pre v w post : Text)
    → starts_value c (with_value pre v post) ≡ starts_value c (with_value pre w post)
unfolding starts_value
starts_alike c [] v w post = ground arith
starts_alike c (d ∷ pre) v w post =
    ap (λ b. (c == b'=') && (d == b'(') && b)
      (closes_after pre v post ∙ sym (closes_after pre w post))

within :
    (value post : Text)
    → IsOpen value
    → mask_values true (value ++ b')' ∷ post) ≡ mask_values false post
unfolding mask_values
within [] post h = refl
within (c ∷ value) post h = rw h.0 (within value post h.1)

-- Both modes of the mask pass over the value.
same_mask :
    (inside : Bool) (pre v w post : Text)
    → IsOpen v
    → IsOpen w
    → mask_values inside (with_value pre v post) ≡ mask_values inside (with_value pre w post)
unfolding mask_values starts_value
same_mask true [] v w post hv hw = within v post hv ∙ sym (within w post hw)
same_mask false [] v w post hv hw =
    rw (closes v post, closes w post)
      (ap (λ t. b'=' ∷ b'(' ∷ 8230 ∷ b')' ∷ t) (within v post hv ∙ sym (within w post hw)))
same_mask true (c ∷ pre) v w post hv hw =
    ground (arith, same_mask true pre v w post hv hw, same_mask false pre v w post hv hw)
same_mask false (c ∷ pre) v w post hv hw = ground (
  arith,
  starts_alike c pre v w post,
  same_mask true pre v w post hv hw,
  same_mask false pre v w post hv hw,
)

sanitized :
    (pre v post : Text)
    → sanitize_error_message (with_value pre v post)
      ≡ take max_error_message_length
          (strip (mask_quotes 0 (mask_values false (with_value pre v post))))
unfolding sanitize_error_message
sanitized [] v post = refl
sanitized (c ∷ pre) v post = refl

sanitized-length :
    (message : Text) → length (sanitize_error_message message) ≤ max_error_message_length
unfolding sanitize_error_message
sanitized-length [] = omega arith
sanitized-length (c ∷ message) = omega (
  arith,
  length-take max_error_message_length (strip (mask_quotes 0 (mask_values false (c ∷ message)))),
)

-- A sanitised message, of any message, has at most 200 characters; and in a message with a value in
-- parentheses after an equals sign that has no closing parenthesis itself, whatever stands before
-- and after it, the value leaves no trace: any other such value in its place gives the same result.
pub sanitize_error_message_hides :
    (message pre v w post : Text)
    → IsOpen v
    → IsOpen w
    → (length (sanitize_error_message message) ≤ max_error_message_length)
      × (sanitize_error_message (with_value pre v post)
          ≡ sanitize_error_message (with_value pre w post))
sanitize_error_message_hides message pre v w post hv hw = (
  sanitized-length message,
  sanitized pre v post
      ∙ ap (λ t. take max_error_message_length (strip (mask_quotes 0 t)))
          (same_mask false pre v w post hv hw)
      ∙ sym (sanitized pre w post),
)
