-- ===== src/LogFile/Lines.antt =====
-- The lines of a text that is cut behind a newline: filepoller.go reads a file in such pieces.
use network_enricher.Prelude.{
  ℕ, zero, suc, ◌+◌, ◌≤◌, ◌<◌, ◌≡◌, ◌⊎◌, refl, ap, ◌∙◌, inl, inr, Bool, Bool-cases, not, arith,
  Option, none, some, some_inj, List, [], ◌∷◌, ◌++◌, map, take, drop, length, Text, is_empty,
  trim_left_by, trim_right_by, last_index_byte, split_byte, ◌==◌,
}
use network_enricher.Prelude.Sets.{filter}
use network_enricher.Prelude.Splits.{split_byte-append}
use network_enricher.LogFile.{lines_of}

pub take_all : (n : ℕ) (s : Text) → length s ≤ n → take n s ≡ s
take_all zero [] l = refl
take_all zero (c ∷ s) l = absurd (omega arith)
take_all (suc n) [] l = refl
take_all (suc n) (c ∷ s) l = ap (◌∷◌ c) (take_all n s (omega arith))

-- The text is empty or ends in a newline.
abbrev pub IsComplete : Text → Type 0
IsComplete s = (s ≡ []) ⊎ ((p : Text) × (s ≡ p ++ (10 ∷ [])))

module _ {A : Type 0} where
  pub append_assoc : (xs ys zs : List A) → (xs ++ ys) ++ zs ≡ xs ++ (ys ++ zs)
  append_assoc [] ys zs = refl
  append_assoc (x ∷ xs) ys zs = ap (◌∷◌ x) (append_assoc xs ys zs)

  pub filter-append :
      (p : A → Bool) (xs ys : List A) → filter p (xs ++ ys) ≡ filter p xs ++ filter p ys
  unfolding filter
  filter-append p [] ys = refl
  filter-append p (x ∷ xs) ys = elim (Bool-cases (p x)) [
    | inl k ↦ rw (k, filter-append p xs ys) refl
    | inr k ↦ rw (k, filter-append p xs ys) refl
  ]

  pub take_nil : (n : ℕ) → take {A = A} n [] ≡ []
  take_nil zero = refl
  take_nil (suc n) = refl

  pub take-take : (m n : ℕ) (xs : List A) → m ≤ n → take m (take n xs) ≡ take m xs
  take-take zero n xs l = refl
  take-take (suc m) zero xs l = absurd (omega arith)
  take-take (suc m) (suc n) [] l = refl
  take-take (suc m) (suc n) (x ∷ xs) l = ap (◌∷◌ x) (take-take m n xs (omega arith))

  pub take-append : (m : ℕ) (xs ys : List A) → m ≤ length xs → take m (xs ++ ys) ≡ take m xs
  take-append zero xs ys l = refl
  take-append (suc m) [] ys l = absurd (omega arith)
  take-append (suc m) (x ∷ xs) ys l = ap (◌∷◌ x) (take-append m xs ys (omega arith))

  pub take-add : (m n : ℕ) (xs : List A) → take (m + n) xs ≡ take m xs ++ take n (drop m xs)
  take-add zero n xs = let e : 0 + n ≡ n = omega arith in rw e refl
  take-add (suc m) n [] = let e : suc m + n ≡ suc (m + n) = omega arith in rw (e, take_nil n) refl
  take-add (suc m) n (x ∷ xs) =
      let e : suc m + n ≡ suc (m + n) = omega arith in rw (e, take-add m n xs) refl

map-append : {A B : Type 0} (f : A → B) (xs ys : List A) → map f (xs ++ ys) ≡ map f xs ++ map f ys
map-append f [] ys = refl
map-append f (x ∷ xs) ys = ap (◌∷◌ (f x)) (map-append f xs ys)

unfoldable pub nonblank : List Text → List Text
unfolding filter trim_right_by
nonblank fs = filter (λ line. not (is_empty line)) (map (trim_right_by (λ c. c == 13)) fs)

nonblank-append : (xs ys : List Text) → nonblank (xs ++ ys) ≡ nonblank xs ++ nonblank ys
unfolding nonblank
nonblank-append xs ys = rw (map-append (trim_right_by (λ c. c == 13)) xs ys) (
    filter-append (λ line. not (is_empty line)) (map (trim_right_by (λ c. c == 13)) xs)
      (map (trim_right_by (λ c. c == 13)) ys))

pub append_nil : {A : Type 0} (xs : List A) → xs ++ [] ≡ xs
append_nil [] = refl
append_nil (x ∷ xs) = ap (◌∷◌ x) (append_nil xs)

pub lines_of_nothing : lines_of [] ≡ []
unfolding lines_of split_byte filter trim_right_by trim_left_by
lines_of_nothing = refl

-- A newline at the end adds no line.
pub lines_of_newline : (p : Text) → lines_of (p ++ (10 ∷ [])) ≡ nonblank (split_byte 10 p)
unfolding lines_of nonblank split_byte filter trim_right_by trim_left_by
lines_of_newline p =
    ap nonblank (split_byte-append 10 p [])
    ∙ nonblank-append (split_byte 10 p) ([] ∷ [])
    ∙ append_nil (nonblank (split_byte 10 p))

pub lines_of-append : (s t : Text) → IsComplete s → lines_of (s ++ t) ≡ lines_of s ++ lines_of t
unfolding lines_of nonblank split_byte filter trim_right_by trim_left_by
lines_of-append s t (inl e) = rw e refl
lines_of-append s t (inr (p, e)) =
    rw (e, lines_of_newline p, append_assoc p (10 ∷ []) t)
      (ap nonblank (split_byte-append 10 p t) ∙ nonblank-append (split_byte 10 p) (split_byte 10 t))

-- What is behind the last newline of a text, if it has one.
pub last_newline :
    (s : Text) (i : ℕ)
    → last_index_byte 10 s ≡ some i
    → (i < length s) × ((p : Text) × (take (suc i) s ≡ p ++ (10 ∷ [])))
unfolding last_index_byte
last_newline [] i h = cc
last_newline (c ∷ s) i h = later (last_index_byte 10 s) refl (last_newline s)
  where
    later :
        (o : Option ℕ)
        → last_index_byte 10 s ≡ o
        → ((j : ℕ)
            → last_index_byte 10 s ≡ some j
            → (j < length s) × ((p : Text) × (take (suc j) s ≡ p ++ (10 ∷ []))))
        → (i < length (c ∷ s)) × ((p : Text) × (take (suc i) (c ∷ s) ≡ p ++ (10 ∷ [])))
    later (some j) e ih =
        let k : some (suc j) ≡ some i = rw e at h in
        let (l, (p, q)) = ih j e in rw (← some_inj k) (omega (arith, l), (c ∷ p, ap (◌∷◌ c) q))
    later none e ih = elim (Bool-cases (c == 10)) [
      | inl k ↦
          (let z : some 0 ≡ some i = rw (e, k) at h in
            rw (← some_inj z) (omega arith, ([], ap (λ x. x ∷ []) (ground (arith, k)))))
      | inr k ↦ (let z : none ≡ some i = rw (e, k) at h in cc)
    ]

pub no_newline-take :
    (n : ℕ) (s : Text) → last_index_byte 10 s ≡ none → last_index_byte 10 (take n s) ≡ none
unfolding last_index_byte
no_newline-take zero s h = refl
no_newline-take (suc n) [] h = refl
no_newline-take (suc n) (c ∷ s) h = later (last_index_byte 10 s) refl (no_newline-take n s)
  where
    later :
        (o : Option ℕ)
        → last_index_byte 10 s ≡ o
        → (last_index_byte 10 s ≡ none → last_index_byte 10 (take n s) ≡ none)
        → last_index_byte 10 (c ∷ take n s) ≡ none
    later (some j) e ih = let k : some (suc j) ≡ none = rw e at h in cc
    later none e ih = rw (last_index_byte, ih e) (rw (last_index_byte, e) at h)
