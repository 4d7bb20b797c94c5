-- ===== src/Startup/Order.antt =====
-- The order of Python's texts, by code points.
use sql_gateway_poc.Base.{Bool, true, false, ◌&&◌, ◌||◌, [], ◌∷◌, ◌≡◌, refl, arith, ltb, ◌==◌}
use sql_gateway_poc.Base.Text.{Text, text_eq}

-- s < t
unfoldable pub text_ltb : Text → Text → Bool
text_ltb s [] = false
text_ltb [] (d ∷ t) = true
text_ltb (c ∷ s) (d ∷ t) = let rest = text_ltb s t in ltb c d || ((c == d) && rest)

pub text_ltb_total : (s t : Text) → text_eq s t ≡ false → text_ltb s t ≡ false → text_ltb t s ≡ true
unfolding text_ltb text_eq
text_ltb_total [] [] e h = cc
text_ltb_total [] (d ∷ t) e h = cc
text_ltb_total (c ∷ s) [] e h = refl
text_ltb_total (c ∷ s) (d ∷ t) e h = ground (arith, text_ltb_total s t)

pub text_ltb_asym : (s t : Text) → text_ltb s t ≡ true → text_ltb t s ≡ false
unfolding text_ltb
text_ltb_asym [] [] h = cc
text_ltb_asym [] (d ∷ t) h = refl
text_ltb_asym (c ∷ s) [] h = cc
text_ltb_asym (c ∷ s) (d ∷ t) h = ground (arith, text_ltb_asym s t)
