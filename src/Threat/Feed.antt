-- ===== src/Threat/Feed.antt =====
-- What threat.go tells of an address after a refresh.
use network_enricher.Prelude.{
  ◌≡◌, refl, sym, ◌∙◌, Bool-cases, true, false, arith, Option, none, some, List, [], ◌∷◌, Text,
  text_eq, text_eq_iff, if◌then◌else◌, inl, inr,
}
use network_enricher.Threat.{without, assign, lookup, parse_line, add_row, load_lines, refresh}

lookup-without :
    (ip k : Text) (m : List (Text × Text))
    → lookup ip (without k m) ≡ (if text_eq ip k then none else lookup ip m)
unfolding lookup without
lookup-without ip k [] = ground arith
lookup-without ip k ((j, l) ∷ m) =
    ground (arith, lookup-without ip k m, text_eq_iff ip k, text_eq_iff k j, text_eq_iff ip j)

lookup-assign :
    (ip k l : Text) (m : List (Text × Text))
    → lookup ip (assign k l m) ≡ (if text_eq ip k then some l else lookup ip m)
unfolding assign lookup
lookup-assign ip k l m = ground (arith, lookup-without ip k m)

-- The label that a row gives the address.
unfoldable pub label_in : Text → Option (Text × Text) → Option Text
label_in ip none = none
label_in ip (some (k, l)) = if text_eq ip k then some l else none

abbrev pub first_of : Option Text → Option Text → Option Text
first_of none d = d
first_of (some l) d = some l

-- The label of the last row for the address, if there is one.
unfoldable pub last_label : Text → List Text → Option Text
unfolding label_in
last_label ip [] = none
last_label ip (l ∷ ls) = first_of (last_label ip ls) (label_in ip (parse_line l))

first_of_assoc : (a b c : Option Text) → first_of (first_of a b) c ≡ first_of a (first_of b c)
first_of_assoc none b c = refl
first_of_assoc (some l) b c = refl

lookup-add_row :
    (ip : Text) (r : Option (Text × Text)) (m : List (Text × Text))
    → lookup ip (add_row r m) ≡ first_of (label_in ip r) (lookup ip m)
unfolding add_row label_in
lookup-add_row ip none m = refl
lookup-add_row ip (some (k, l)) m = elim (Bool-cases (text_eq ip k)) [
  | inl q ↦ rw (lookup-assign ip k l m, q) refl
  | inr q ↦ rw (lookup-assign ip k l m, q) refl
]

lookup-load_lines :
    (ip : Text) (ls : List Text) (m : List (Text × Text))
    → lookup ip (load_lines ls m) ≡ first_of (last_label ip ls) (lookup ip m)
unfolding load_lines last_label
lookup-load_lines ip [] m = refl
lookup-load_lines ip (l ∷ ls) m =
    lookup-load_lines ip ls (add_row (parse_line l) m)
    ∙ rw (lookup-add_row ip (parse_line l) m) (sym (first_of_assoc (last_label ip ls) _ _))

first_of-none : (o : Option Text) → first_of o none ≡ o
first_of-none none = refl
first_of-none (some l) = refl

-- After a refresh that does not fail, whatever the table was before, `Lookup` tells of an address
-- the label of the last row of the feed for it, and nothing if there is none; after one that fails
-- it tells what it told before.
pub refresh-lookup :
    (ip : Text) (ls : List Text) (old : List (Text × Text))
    → (lookup ip (refresh false ls old) ≡ last_label ip ls)
      × (lookup ip (refresh true ls old) ≡ lookup ip old)
unfolding refresh
refresh-lookup ip ls old =
    (lookup-load_lines ip ls [] ∙ unfold lookup in first_of-none (last_label ip ls), refl)
