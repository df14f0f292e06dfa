-- ===== src/Prelude/TextOrder.antt =====
-- Go's `<` on strings is a strict linear order.
use mathlib.Core.Bool.{true, false}
use mathlib.Core.List.{[], ◌∷◌}
use mathlib.Core.Path.{◌≡◌, refl}
use native.Mathlib.Omega.{arith}
use network_enricher.Prelude.Texts.{Text, text_lt}

pub text_lt_irrefl : (a : Text) → text_lt a a ≡ false
unfolding text_lt
text_lt_irrefl [] = refl
text_lt_irrefl (x ∷ a) = ground (arith, text_lt_irrefl a)

pub text_lt_trans : (a b c : Text) → text_lt a b ≡ true → text_lt b c ≡ true → text_lt a c ≡ true
unfolding text_lt
text_lt_trans [] [] c p q = absurd (ground arith)
text_lt_trans [] (y ∷ b) [] p q = absurd (ground arith)
text_lt_trans [] (y ∷ b) (z ∷ c) p q = refl
text_lt_trans (x ∷ a) [] c p q = absurd (ground arith)
text_lt_trans (x ∷ a) (y ∷ b) [] p q = absurd (ground arith)
text_lt_trans (x ∷ a) (y ∷ b) (z ∷ c) p q = ground (arith, text_lt_trans a b c)

pub text_lt_connex : (a b : Text) → text_lt a b ≡ false → text_lt b a ≡ false → a ≡ b
unfolding text_lt
text_lt_connex [] [] p q = refl
text_lt_connex [] (y ∷ b) p q = absurd (ground arith)
text_lt_connex (x ∷ a) [] p q = absurd (ground arith)
text_lt_connex (x ∷ a) (y ∷ b) p q = ground (arith, text_lt_connex a b)
