-- ===== src/DnsStore/Victims.antt =====
-- The hard cap of dnsstore.go: the victims are entries of the map, and there is one at least.
use network_enricher.Prelude.{
  ℕ, zero, suc, ◌+◌, ◌-◌, ◌*◌, ◌/◌, ◌≡◌, refl, subst, some_inj, Bool-cases, not, ◌||◌, arith,
  Option, none, some, [], ◌∷◌, ◌++◌, length, All, before, ltb, leb, ◌==◌, inl, inr,
}
use network_enricher.DnsStore.Heap.{
  Victim, VictimHeap, at, set_at, swap, swapped, less, up, child, down, push, fix, replace_root,
}

module _ {K : Type 0} (P : Victim K → Type 0) where
  at-All : (i : ℕ) (h : VictimHeap K) (v : Victim K) → All P h → at i h ≡ some v → P v
  unfolding at
  at-All i [] v a e = absurd (ground arith)
  at-All zero (x ∷ h) v a e = subst P (some_inj e) a.0
  at-All (suc i) (x ∷ h) v a e = at-All i h v a.1 e

  set_at-All : (i : ℕ) (x : Victim K) (h : VictimHeap K) → P x → All P h → All P (set_at i x h)
  unfolding set_at
  set_at-All i x [] p a = tt
  set_at-All zero x (v ∷ h) p a = (p, a.1)
  set_at-All (suc i) x (v ∷ h) p a = (a.0, set_at-All i x h p a.1)

  swap-All : (i j : ℕ) (h : VictimHeap K) → All P h → All P (swap i j h)
  unfolding swap swapped
  swap-All i j h a = go (at i h) (at j h) (λ v e. at-All i h v a e) (λ v e. at-All j h v a e)
    where
      go :
          (x y : Option (Victim K))
          → ((v : Victim K) → x ≡ some v → P v)
          → ((v : Victim K) → y ≡ some v → P v)
          → All P (swapped i j h x y)
      go none y p q = a
      go (some v) none p q = a
      go (some v) (some w) p q =
          set_at-All j v (set_at i w h) (p v refl) (set_at-All i w h (q w refl) a)

  up-All : (fuel j : ℕ) (h : VictimHeap K) → All P h → All P (up fuel j h)
  unfolding up
  up-All zero j h a = a
  up-All (suc fuel) j h a = elim (Bool-cases ((j - 1) / 2 == j || not (less j ((j - 1) / 2) h))) [
    | inl q ↦ rw q a
    | inr q ↦
        rw q (up-All fuel ((j - 1) / 2) (swap ((j - 1) / 2) j h) (swap-All ((j - 1) / 2) j h a))
  ]

  down-All : (fuel i n : ℕ) (h : VictimHeap K) → All P h → All P (down fuel i n h).0
  unfolding down
  down-All zero i n h a = a
  down-All (suc fuel) i n h a =
      elim (Bool-cases (leb n (2 * i + 1) || not (less (child i n h) i h))) [
        | inl q ↦ rw q a
        | inr q ↦
            rw q (
              down-All fuel (child i n h) n (swap i (child i n h) h) (swap-All i (child i n h) h a))
      ]

  append-All : (h : VictimHeap K) (v : Victim K) → All P h → P v → All P (h ++ v ∷ [])
  append-All [] v a p = (p, tt)
  append-All (x ∷ h) v a p = (a.0, append-All h v a.1 p)

  pub push-All : (v : Victim K) (h : VictimHeap K) → P v → All P h → All P (push v h)
  unfolding push
  push-All v h p a = up-All (length h + 1) (length h) (h ++ v ∷ []) (append-All h v a p)

  fix-All : (i : ℕ) (h : VictimHeap K) → All P h → All P (fix i h)
  unfolding fix
  fix-All i h a =
      let d = down-All (length h) i (length h) h a in
      elim (Bool-cases (ltb i (down (length h) i (length h) h).1)) [
        | inl q ↦ rw q d
        | inr q ↦ rw q (up-All (i + 1) i (down (length h) i (length h) h).0 d)
      ]

  pub replace_root-All :
      (v : Victim K) (h : VictimHeap K) → P v → All P h → All P (replace_root v h)
  unfolding replace_root
  replace_root-All v [] p a = a
  replace_root-All v (root ∷ h) p a = elim (Bool-cases (before v.deadline root.deadline)) [
    | inl q ↦ rw q (fix-All 0 (v ∷ h) (p, a.1))
    | inr q ↦ rw q a
  ]
