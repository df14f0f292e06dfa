-- ===== src/Worker/Mixes.antt =====
-- Lists that are two lists mixed, and the bound on the rows that the writer of the worker loop drops.
use network_enricher.Prelude.{
  ℕ, ◌+◌, ◌-◌, ◌≤◌, ◌<◌, zero, suc, ◌≡◌, ◌⊎◌, refl, ap, inl, inr, arith, List, [], ◌∷◌, ◌++◌,
}

-- Rows are dropped from a buffer that is left at its cap, and each is counted.
pub within :
    (d gone old count count' rows rows' delivered buffered cap : ℕ)
    → (0 < d → buffered ≡ cap)
    → gone ≤ d
    → d + count ≤ count'
    → old ≤ count
    → old ≤ rows - cap
    → rows ≤ rows'
    → delivered + buffered + count' ≡ rows'
    → old + gone ≤ rows' - cap
within zero gone old count count' rows rows' delivered buffered cap f g k b h m c = omega arith
within (suc d) gone old count count' rows rows' delivered buffered cap f g k b h m c =
    let e = f (omega arith) in omega arith

module _ {A : Type 0} where
  -- The third list is the first two, each in its order, mixed.
  abbrev pub Mixes : List A → List A → List A → Type 0
  Mixes xs ys [] = (xs ≡ []) × (ys ≡ [])
  Mixes xs ys (z ∷ zs) =
      ((rest : List A) × (xs ≡ z ∷ rest) × Mixes rest ys zs)
      ⊎ ((rest : List A) × (ys ≡ z ∷ rest) × Mixes xs rest zs)

  Mixes-left : (xs : List A) → Mixes xs [] xs
  Mixes-left [] = (refl, refl)
  Mixes-left (x ∷ xs) = inl (xs, refl, Mixes-left xs)

  pub Mixes-then :
      (xs ys zs : List A) (us vs ws : List A)
      → Mixes xs ys zs
      → Mixes us vs ws
      → Mixes (xs ++ us) (ys ++ vs) (zs ++ ws)
  Mixes-then xs ys [] us vs ws (a, b) m = rw (a, b) m
  Mixes-then xs ys (z ∷ zs) us vs ws (inl (rest, e, k)) m =
      inl (rest ++ us, ap (λ l. l ++ us) e, Mixes-then rest ys zs us vs ws k m)
  Mixes-then xs ys (z ∷ zs) us vs ws (inr (rest, e, k)) m =
      inr (rest ++ vs, ap (λ l. l ++ vs) e, Mixes-then xs rest zs us vs ws k m)

  pub Mixes-behind : (xs ys : List A) → Mixes xs ys (xs ++ ys)
  Mixes-behind [] [] = (refl, refl)
  Mixes-behind [] (y ∷ ys) = inr (ys, refl, Mixes-behind [] ys)
  Mixes-behind (x ∷ xs) ys = inl (xs, refl, Mixes-behind xs ys)
