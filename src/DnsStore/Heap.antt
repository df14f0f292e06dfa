-- ===== src/DnsStore/Heap.antt =====
-- The heap of dnsstore.go, an array under `container/heap`: the latest deadline is at the root.
use network_enricher.Prelude.{
  ℕ, zero, suc, ◌+◌, ◌-◌, ◌*◌, ◌/◌, Bool, false, not, ◌&&◌, ◌||◌, Option, none, some, List, [], ◌∷◌,
  ◌++◌, length, Time, before, after, ltb, leb, ◌==◌, if◌then◌else◌,
}

pub record Victim (K : Type 0) : Type 0 where
  pub key : K
  pub deadline : Time

abbrev pub VictimHeap : Type 0 → Type 0
VictimHeap K = List (Victim K)

module _ {K : Type 0} where
  unfoldable pub at : ℕ → VictimHeap K → Option (Victim K)
  at i [] = none
  at zero (v ∷ h) = some v
  at (suc i) (v ∷ h) = at i h

  -- `h[i] = x`
  unfoldable pub set_at : ℕ → Victim K → VictimHeap K → VictimHeap K
  set_at i x [] = []
  set_at zero x (v ∷ h) = x ∷ h
  set_at (suc i) x (v ∷ h) = v ∷ set_at i x h

  unfoldable pub swapped :
      ℕ → ℕ → VictimHeap K → Option (Victim K) → Option (Victim K) → VictimHeap K
  unfolding set_at
  swapped i j h none y = h
  swapped i j h (some x) none = h
  swapped i j h (some x) (some y) = set_at j x (set_at i y h)

  -- `Swap`; the package calls it within the array only.
  unfoldable pub swap : ℕ → ℕ → VictimHeap K → VictimHeap K
  unfolding at swapped
  swap i j h = swapped i j h (at i h) (at j h)

  -- `Less`
  unfoldable pub less : ℕ → ℕ → VictimHeap K → Bool
  unfolding at
  less i j h = elim (at i h) [
    | none ↦ false
    | some x ↦ elim (at j h) [ none ↦ false | some y ↦ after x.deadline y.deadline ]
  ]

  -- `up` of container/heap. The index is less from one turn to the next.
  unfoldable pub up : ℕ → ℕ → VictimHeap K → VictimHeap K
  unfolding swap less
  up zero j h = h
  up (suc fuel) j h =
      let i = (j - 1) / 2 in
      let rest = up fuel i (swap i j h) in if i == j || not (less j i h) then h else rest

  -- The child that `down` compares with.
  unfoldable pub child : ℕ → ℕ → VictimHeap K → ℕ
  unfolding less
  child i n h = let j1 = 2 * i + 1 in if ltb (j1 + 1) n && less (j1 + 1) j1 h then j1 + 1 else j1

  -- `down` of container/heap: the heap, and the index it ends at.
  unfoldable pub down : ℕ → ℕ → ℕ → VictimHeap K → VictimHeap K × ℕ
  unfolding swap less child
  down zero i n h = (h, i)
  down (suc fuel) i n h =
      let j = child i n h in
      let rest = down fuel j n (swap i j h) in
      if leb n (2 * i + 1) || not (less j i h) then (h, i) else rest

  -- `heap.Push`
  unfoldable pub push : Victim K → VictimHeap K → VictimHeap K
  unfolding up
  push v h = up (length h + 1) (length h) (h ++ v ∷ [])

  -- `heap.Fix(h, i)`
  unfoldable pub fix : ℕ → VictimHeap K → VictimHeap K
  unfolding down up
  fix i h =
      let (h', k) = down (length h) i (length h) h in
      let lifted = up (i + 1) i h' in if ltb i k then h' else lifted

  -- The else branch of the loop: a victim with an earlier deadline takes the place of the root.
  unfoldable pub replace_root : Victim K → VictimHeap K → VictimHeap K
  unfolding at set_at fix
  replace_root v h = elim (at 0 h) [
    | none ↦ h
    | some root ↦ if before v.deadline root.deadline then fix 0 (set_at 0 v h) else h
  ]
