-- ===== src/Prelude/Splits.antt =====
-- `strings.Split` of what was joined by the separator.
use mathlib.Core.Bool.{true, false}
use mathlib.Core.List.{List, [], ◌∷◌, ◌++◌}
use mathlib.Core.Logic.{◌≢◌, inl, inr}
use mathlib.Core.Path.{◌≡◌, refl, ap, ◌∙◌}
use native.Mathlib.Omega.{arith}
use Prim.Native.Nat.{ℕ}
use network_enricher.Prelude.Lists.{All}
use network_enricher.Prelude.Tests.{◌==◌, Bool-cases}
use network_enricher.Prelude.Texts.{Text, split_byte}

abbrev pub IsFree : ℕ → Text → Type 0
IsFree b s = All (λ c. c ≢ b) s

split_byte_nonempty : (b : ℕ) (s : Text) → (f : Text) × (fs : List Text) × (split_byte b s ≡ f ∷ fs)
unfolding split_byte
split_byte_nonempty b [] = ([], [], refl)
split_byte_nonempty b (c ∷ s) =
    let (f, fs, e) = split_byte_nonempty b s in
    elim (Bool-cases (c == b)) [
      | inl k ↦ ([], split_byte b s, rw k refl)
      | inr k ↦ (c ∷ f, fs, rw (k, e) refl)
    ]

-- At a separator the two sides are split on their own.
pub split_byte-append :
    (b : ℕ) (s t : Text) → split_byte b (s ++ (b ∷ t)) ≡ split_byte b s ++ split_byte b t
unfolding split_byte
split_byte-append b [] t = let e : (b == b) ≡ true = ground arith in rw e refl
split_byte-append b (c ∷ s) t =
    let ih = split_byte-append b s t in
    let (f, fs, e) = split_byte_nonempty b s in
    elim (Bool-cases (c == b)) [ inl k ↦ rw (k, ih) refl | inr k ↦ rw (k, ih, e) refl ]

pub split_byte_one : (b : ℕ) (s : Text) → IsFree b s → split_byte b s ≡ s ∷ []
unfolding split_byte
split_byte_one b [] h = refl
split_byte_one b (c ∷ s) h =
    let k : (c == b) ≡ false = let n = h.0 in ground (arith, n) in
    rw (k, split_byte_one b s h.1) refl

-- `strings.Join` of one cell at least.
unfoldable pub join_byte : ℕ → Text → List Text → Text
join_byte b f [] = f
join_byte b f (g ∷ fs) = f ++ (b ∷ join_byte b g fs)

pub split_byte-join_byte :
    (b : ℕ) (f : Text) (fs : List Text)
    → IsFree b f
    → All (IsFree b) fs
    → split_byte b (join_byte b f fs) ≡ f ∷ fs
unfolding join_byte
split_byte-join_byte b f [] h hs = split_byte_one b f h
split_byte-join_byte b f (g ∷ fs) h hs =
    split_byte-append b f (join_byte b g fs)
    ∙ rw (split_byte_one b f h) (ap (◌∷◌ f) (split_byte-join_byte b g fs hs.0 hs.1))
