-- ===== src/Prelude/Lists.antt =====
-- Lists measured and cut by native numbers, and the predicates on all and on some elements.
use Prim.Native.Nat.{ℕ, zero, suc, ◌+◌, ◌-◌, min}
use mathlib.Core.Path.{◌≡◌, refl, ap}
use mathlib.Core.Logic.{◌⊎◌, inl, inr}
use mathlib.Core.List.{List, [], ◌∷◌, ◌++◌}
use mathlib.Core.Option.{Option, none, some}
use native.Mathlib.Omega.{arith}

module _ {ℓ} {A : Type ℓ} where
  abbrev pub length : List A → ℕ
  length [] = 0
  length (x ∷ xs) = suc (length xs)

  abbrev pub take : ℕ → List A → List A
  take zero xs = []
  take (suc n) [] = []
  take (suc n) (x ∷ xs) = x ∷ take n xs

  abbrev pub drop : ℕ → List A → List A
  drop zero xs = xs
  drop (suc n) [] = []
  drop (suc n) (x ∷ xs) = drop n xs

module _ {ℓ} {A : Type ℓ} where
  pub length-append : (xs ys : List A) → length (xs ++ ys) ≡ length xs + length ys
  length-append [] ys = omega arith
  length-append (x ∷ xs) ys = omega (arith, length-append xs ys)

  pub length-drop : (n : ℕ) (xs : List A) → length (drop n xs) ≡ length xs - n
  length-drop zero xs = omega arith
  length-drop (suc n) [] = omega arith
  length-drop (suc n) (x ∷ xs) = omega (arith, length-drop n xs)

  pub length-take : (n : ℕ) (xs : List A) → length (take n xs) ≡ min n (length xs)
  length-take zero xs = omega arith
  length-take (suc n) [] = omega arith
  length-take (suc n) (x ∷ xs) = omega (arith, length-take n xs)

  pub take-append-drop : (n : ℕ) (xs : List A) → take n xs ++ drop n xs ≡ xs
  take-append-drop zero xs = refl
  take-append-drop (suc n) [] = refl
  take-append-drop (suc n) (x ∷ xs) = ap (◌∷◌ x) (take-append-drop n xs)

value_or {ℓ} : {A : Type ℓ} → A → Option A → A
value_or d none = d
value_or d (some a) = a

pub some_inj {ℓ} : {A : Type ℓ} {a b : A} → some a ≡ some b → a ≡ b
unfolding value_or
some_inj {a = a} p = ap (value_or a) p

-- The predicate holds at every element.
abbrev pub All {ℓ κ} : {A : Type ℓ} → (A → Type κ) → List A → Type κ
All P [] = Unit
All P (x ∷ xs) = P x × All P xs

-- The predicate holds at some element.
abbrev pub Any {ℓ} : {A : Type ℓ} → (A → Type 0) → List A → Type 0
Any P [] = ⊥
Any P (x ∷ xs) = P x ⊎ Any P xs

pub All-map {ℓ κ μ} :
    {A : Type ℓ} {P : A → Type κ} {Q : A → Type μ}
    → ((a : A) → P a → Q a)
    → (xs : List A) → All P xs
    → All Q xs
All-map f [] h = tt
All-map f (x ∷ xs) h = (f x h.0, All-map f xs h.1)

module _ {A B C : Type 0} where
  pub or_regroup : (A ⊎ B) ⊎ C → A ⊎ (B ⊎ C)
  or_regroup (inl (inl a)) = inl a
  or_regroup (inl (inr b)) = inr (inl b)
  or_regroup (inr c) = inr (inr c)

  pub or_regroup_back : A ⊎ (B ⊎ C) → (A ⊎ B) ⊎ C
  or_regroup_back (inl a) = inl (inl a)
  or_regroup_back (inr (inl b)) = inl (inr b)
  or_regroup_back (inr (inr c)) = inr c

module _ {A B : Type 0} where
  pub or_drop : (A ⊎ ⊥) ⊎ B → A ⊎ B
  or_drop (inl (inl a)) = inl a
  or_drop (inl (inr f)) = absurd f
  or_drop (inr b) = inr b

  pub or_add : A ⊎ B → (A ⊎ ⊥) ⊎ B
  or_add (inl a) = inl (inl a)
  or_add (inr b) = inr b

pub either {ℓ} : {A B : Type 0} {X : Type ℓ} → (A → X) → (B → X) → A ⊎ B → X
either f g (inl a) = f a
either f g (inr b) = g b
