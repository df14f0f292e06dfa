-- ===== src/Trace/Fold.antt =====
-- The batch fold of dhcpBindingAt and radiusBindingAt, over rows `R`, candidates `C` and the
-- entities `K` that a closing row names.
pub mod Sorting
pub mod Batch
pub mod Verdict
use network_enricher.Prelude.{
  ℕ, zero, suc, ◌+◌, ◌≤◌, ◌<◌, ◌≡◌, List, [], ◌∷◌, ◌++◌, Bool, true, false, not, Option, none, some,
  length, Time, Duration, before, ltb, ◌==◌, if◌then◌else◌,
}
use network_enricher.Prelude.Sets.{Eq, In, member, collect, filter}

-- What the fold reads of a row.
pub record Rows (R C K : Type 0) : Type 0 where
  pub time : R → Time
  pub opens : R → Option C
  pub closes : R → Option K
  pub entity : C → K

-- `cands` and `deadline`.
pub record State (C : Type 0) : Type 0 where
  pub cands : List C
  pub deadline : Time

module _ {R C K : Type 0} ⦃ec : Eq C⦄ ⦃ek : Eq K⦄ (rows : Rows R C K) where
  open rows use {time, opens, closes, entity}

  -- `sort.SliceStable` by `Time.Before`: a row goes in front of the first later one.
  unfoldable pub insert_sorted : R → List R → List R
  insert_sorted e [] = e ∷ []
  insert_sorted e (x ∷ xs) =
      let rest = insert_sorted e xs in if ltb (time x) (time e) then x ∷ rest else e ∷ x ∷ xs

  unfoldable pub sort_stable : List R → List R
  sort_stable [] = []
  sort_stable (e ∷ es) = insert_sorted e (sort_stable es)

  -- The slices `f[i:j]` of the outer loop: the longest runs of rows of equal time.
  unfoldable pub join_batch : R → List (List R) → List (List R)
  join_batch e [] = (e ∷ []) ∷ []
  join_batch e ([] ∷ bs) = (e ∷ []) ∷ bs
  join_batch e ((x ∷ b) ∷ bs) =
      if time x == time e then (e ∷ x ∷ b) ∷ bs else (e ∷ []) ∷ (x ∷ b) ∷ bs

  unfoldable pub batches : List R → List (List R)
  batches [] = []
  batches (e ∷ es) = join_batch e (batches es)

  -- The inner loop: the maps `open` and `closes` of a batch.
  unfoldable pub open_set : List R → List C
  open_set b = collect opens b

  unfoldable pub close_set : List R → List K
  close_set b = collect closes b

  unfoldable pub batch_time : List R → Time
  batch_time [] = 0
  batch_time (e ∷ es) = time e

  -- `if len(open) > 0 { cands = open; deadline = ... }`
  unfoldable pub reopen : Duration → Time → List C → State C → State C
  reopen horizon t [] st = st
  reopen horizon t (c ∷ cs) st = record { cands = c ∷ cs; deadline = t + horizon }

  -- One round of the outer loop.
  unfoldable pub apply_batch : Duration → State C → List R → State C
  apply_batch horizon st b =
      let st' = reopen horizon (batch_time b) (open_set b) st in
      record st' { cands = filter (λ c. not (member (entity c) (close_set b))) st'.cands }

  unfoldable pub fold_batches : Duration → State C → List (List R) → State C
  fold_batches horizon st [] = st
  fold_batches horizon st (b ∷ bs) = fold_batches horizon (apply_batch horizon st b) bs

  -- The state behind the loop, for the rows that were filtered in.
  unfoldable pub fold_rows : Duration → List R → State C
  fold_rows horizon f =
      fold_batches horizon (record { cands = []; deadline = 0 }) (batches (sort_stable f))
