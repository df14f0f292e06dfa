-- ===== src/Prelude/Sets.antt =====
-- Go's `map[K]struct{}` as a list of distinct keys, over a decided equality.
use Prim.Native.Nat.{◌<◌}
use mathlib.Core.Bool.{Bool, true, false, ◌&&◌, ◌||◌}
use mathlib.Core.List.{List, [], ◌∷◌}
use mathlib.Core.Logic.{◌↔◌, ◌⊎◌, ◌≢◌, inl, inr}
use mathlib.Core.Option.{Option, none, some}
use mathlib.Core.Path.{◌≡◌, refl, sym, ap, subst}
use native.Mathlib.Omega.{arith}
use network_enricher.Prelude.Lists.{Any, All, length}
use network_enricher.Prelude.Tests.{if◌then◌else◌, Bool-cases}
use network_enricher.Prelude.Texts.{Text, text_eq, text_eq_iff}

pub record Eq (A : Type 0) : Type 0 where
  pub eq : A → A → Bool
  pub eq_iff : (a b : A) → (eq a b ≡ true) ↔ (a ≡ b)

instance abbrev pub text_has_eq : Eq Text
text_has_eq = record { eq = text_eq; eq_iff = text_eq_iff }

abbrev pub In : {A : Type 0} → A → List A → Type 0
In a xs = Any (λ x. a ≡ x) xs

module _ {A : Type 0} (P : A → Type 0) where
  pub All-mem : (xs : List A) → All P xs → (a : A) → In a xs → P a
  All-mem [] h a i = absurd i
  All-mem (x ∷ xs) h a (inl e) = subst P (sym e) h.0
  All-mem (x ∷ xs) h a (inr i) = All-mem xs h.1 a i

  pub All-All-mem : (xss : List (List A)) → All (All P) xss → (a : A) → Any (In a) xss → P a
  All-All-mem [] h a i = absurd i
  All-All-mem (xs ∷ xss) h a (inl i) = All-mem xs h.0 a i
  All-All-mem (xs ∷ xss) h a (inr i) = All-All-mem xss h.1 a i

pub All-of_In : {A : Type 0} (P : A → Type 0) (xs : List A) → ((x : A) → In x xs → P x) → All P xs
All-of_In P [] f = tt
All-of_In P (x ∷ xs) f = (f x (inl refl), All-of_In P xs (λ y i. f y (inr i)))

module _ {A : Type 0} where
  unfoldable pub filter : (A → Bool) → List A → List A
  filter p [] = []
  filter p (x ∷ xs) = let rest = filter p xs in if p x then x ∷ rest else rest

  pub mem_of_filter :
      (p : A → Bool) (a : A) (xs : List A) → In a (filter p xs) → In a xs × (p a ≡ true)
  unfolding filter
  mem_of_filter p a [] i = absurd i
  mem_of_filter p a (x ∷ xs) i = elim (Bool-cases (p x)) [
    | inl k ↦ kept k (mem_of_filter p a xs) (rw k at i)
    | inr k ↦ let (m, q) = mem_of_filter p a xs (rw k at i) in (inr m, q)
  ]
    where
      kept :
          p x ≡ true
          → (In a (filter p xs) → In a xs × (p a ≡ true))
          → (a ≡ x) ⊎ In a (filter p xs)
          → In a (x ∷ xs) × (p a ≡ true)
      kept k ih (inl e) = (inl e, rw e k)
      kept k ih (inr r) = (inr (ih r).0, (ih r).1)

  pub filter_of_mem :
      (p : A → Bool) (a : A) (xs : List A) → p a ≡ true → In a xs → In a (filter p xs)
  unfolding filter
  filter_of_mem p a [] h i = i
  filter_of_mem p a (x ∷ xs) h (inl e) = let k : p x ≡ true = rw (← e) h in rw k (inl e)
  filter_of_mem p a (x ∷ xs) h (inr i) = elim (Bool-cases (p x)) [
    | inl k ↦ rw k (inr (filter_of_mem p a xs h i))
    | inr k ↦ rw k (filter_of_mem p a xs h i)
  ]

module _ {A : Type 0} ⦃e : Eq A⦄ where
  unfoldable pub member : A → List A → Bool
  member a [] = false
  member a (x ∷ xs) = e.eq a x || member a xs

  -- `set[a] = struct{}{}`
  unfoldable pub put : A → List A → List A
  unfolding member
  put a xs = if member a xs then xs else a ∷ xs

  abbrev pub Distinct : List A → Type 0
  Distinct [] = Unit
  Distinct (x ∷ xs) = (member x xs ≡ false) × Distinct xs

  pub eq_refl : (a : A) → e.eq a a ≡ true
  eq_refl a = (e.eq_iff a a).1 refl

  member-put : (b a : A) (xs : List A) → member b (put a xs) ≡ (e.eq b a || member b xs)
  unfolding put member
  member-put b a xs = elim (Bool-cases (member a xs)) [
    | inl k ↦ rw k (ground (arith, e.eq_iff b a))
    | inr k ↦ rw k
  ]

  In-of_member : (a : A) (xs : List A) → member a xs ≡ true → In a xs
  unfolding member
  In-of_member a [] h = absurd (ground arith)
  In-of_member a (x ∷ xs) h = elim (Bool-cases (e.eq a x)) [
    | inl k ↦ inl ((e.eq_iff a x).0 k)
    | inr k ↦ inr (In-of_member a xs (ground arith))
  ]

  pub In-put : (a : A) (xs : List A) → In a (put a xs)
  unfolding put
  In-put a xs = elim (Bool-cases (member a xs)) [
    | inl k ↦ rw k (In-of_member a xs k)
    | inr k ↦ rw k (inl refl)
  ]

  pub In-put_keep : (a b : A) (xs : List A) → In a xs → In a (put b xs)
  unfolding put
  In-put_keep a b xs i = elim (Bool-cases (member b xs)) [ inl k ↦ rw k i | inr k ↦ rw k (inr i) ]

  pub put-Distinct : (a : A) (xs : List A) → Distinct xs → Distinct (put a xs)
  unfolding put
  put-Distinct a xs d = elim (Bool-cases (member a xs)) [ inl k ↦ rw k d | inr k ↦ rw k (k, d) ]

  pub member-filter :
      (p : A → Bool) (a : A) (xs : List A) → member a (filter p xs) ≡ (member a xs && p a)
  unfolding member filter
  member-filter p a [] = refl
  member-filter p a (x ∷ xs) = elim (Bool-cases (p x)) [
    | inl k ↦ rw k (ground (arith, member-filter p a xs, e.eq_iff a x))
    | inr k ↦ rw k (ground (arith, member-filter p a xs, e.eq_iff a x))
  ]

  pub filter-Distinct : (p : A → Bool) (xs : List A) → Distinct xs → Distinct (filter p xs)
  unfolding filter
  filter-Distinct p [] d = tt
  filter-Distinct p (x ∷ xs) d = elim (Bool-cases (p x)) [
    | inl k ↦ rw k (rw (member-filter p x xs, d.0), filter-Distinct p xs d.1)
    | inr k ↦ rw k (filter-Distinct p xs d.1)
  ]

module _ {A : Type 0} ⦃e : Eq A⦄ where
  pub lt-length_of_members :
      (a b : A) (xs : List A) → a ≢ b → member a xs ≡ true → member b xs ≡ true → 1 < length xs
  unfolding member
  lt-length_of_members a b [] n h k = absurd (ground arith)
  lt-length_of_members a b (x ∷ []) n h k = absurd (n (ground (arith, e.eq_iff a x, e.eq_iff b x)))
  lt-length_of_members a b (x ∷ y ∷ xs) n h k = omega arith

-- The keys that the elements of a list put into an empty set.
module _ {A : Type 0} ⦃e : Eq A⦄ where
  put_some : Option A → List A → List A
  unfolding put
  put_some none xs = xs
  put_some (some a) xs = put a xs

  member-put_some :
      (b : A) (o : Option A) (xs : List A)
      → member b (put_some o xs) ≡ true
      → (o ≡ some b) ⊎ (member b xs ≡ true)
  unfolding put_some
  member-put_some b none xs h = inr h
  member-put_some b (some a) xs h = elim (Bool-cases (e.eq b a)) [
    | inl k ↦ inl (ap some (sym ((e.eq_iff b a).0 k)))
    | inr k ↦ inr (rw (member-put b a xs, k) at h)
  ]

  put_some-keeps :
      (b : A) (o : Option A) (xs : List A) → member b xs ≡ true → member b (put_some o xs) ≡ true
  unfolding put_some
  put_some-keeps b none xs h = h
  put_some-keeps b (some a) xs h = rw (member-put b a xs, h) (ground arith)

  put_some-Distinct : (o : Option A) (xs : List A) → Distinct xs → Distinct (put_some o xs)
  unfolding put_some
  put_some-Distinct none xs d = d
  put_some-Distinct (some a) xs d = put-Distinct a xs d

module _ {R A : Type 0} ⦃e : Eq A⦄ where
  unfoldable pub collect : (R → Option A) → List R → List A
  unfolding put_some
  collect f [] = []
  collect f (x ∷ xs) = put_some (f x) (collect f xs)

  pub collect_sound :
      (f : R → Option A) (a : A) (xs : List R)
      → member a (collect f xs) ≡ true
      → (x : R) × In x xs × (f x ≡ some a)
  unfolding collect
  collect_sound f a [] h = absurd (unfold member in ground arith)
  collect_sound f a (x ∷ xs) h = elim (member-put_some a (f x) (collect f xs) h) [
    | inl k ↦ (x, inl refl, k)
    | inr k ↦ let (y, i, o) = collect_sound f a xs k in (y, inr i, o)
  ]

  pub collect_complete :
      (f : R → Option A) (a : A) (x : R) (xs : List R)
      → In x xs
      → f x ≡ some a
      → member a (collect f xs) ≡ true
  unfolding collect put_some
  collect_complete f a x [] i o = absurd i
  collect_complete f a x (y ∷ xs) (inl p) o =
      rw (← p, o, put_some, member-put a a (collect f xs), eq_refl a)
  collect_complete f a x (y ∷ xs) (inr i) o =
      put_some-keeps a (f y) (collect f xs) (collect_complete f a x xs i o)

  pub collect-Distinct : (f : R → Option A) (xs : List R) → Distinct (collect f xs)
  unfolding collect
  collect-Distinct f [] = tt
  collect-Distinct f (x ∷ xs) = put_some-Distinct (f x) (collect f xs) (collect-Distinct f xs)
