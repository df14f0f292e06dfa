-- ===== src/Threat.antt =====
-- threat.go: the lines of the feed, the table, and Lookup. The HTTP client and the scanner give the
-- lines, and whether they failed.
pub mod Feed
use network_enricher.Prelude.{
  ℕ, Bool, true, false, ◌||◌, Option, none, some, List, [], ◌∷◌, Text, codes, text_eq, is_empty,
  trim_space, has_prefix, split_byte, if◌then◌else◌,
}

-- `ips[ip] = label`, on an association list.
unfoldable pub without : Text → List (Text × Text) → List (Text × Text)
without ip [] = []
without ip ((k, l) ∷ m) = let rest = without ip m in if text_eq ip k then rest else (k, l) ∷ rest

unfoldable pub assign : Text → Text → List (Text × Text) → List (Text × Text)
unfolding without
assign ip label m = (ip, label) ∷ without ip m

unfoldable pub lookup : Text → List (Text × Text) → Option Text
lookup ip [] = none
lookup ip ((k, l) ∷ m) = if text_eq ip k then some l else lookup ip m

-- The address and the label of a row. The fields up to the fourth are those of `SplitN(_, ",", 5)`.
unfoldable pub row_of : List Text → Option (Text × Text)
unfolding trim_space
row_of [] = none
row_of (ip ∷ port ∷ seen ∷ label ∷ more) = some (trim_space ip, trim_space label)
row_of (ip ∷ more) = some (trim_space ip, codes "botnet_c2")

unfoldable pub parse_line : Text → Option (Text × Text)
unfolding trim_space has_prefix split_byte row_of
parse_line raw =
    let line = trim_space raw in
    if is_empty line || has_prefix line (codes "#") then none else row_of (split_byte 44 line)

unfoldable pub add_row : Option (Text × Text) → List (Text × Text) → List (Text × Text)
unfolding assign
add_row none m = m
add_row (some (ip, label)) m = assign ip label m

unfoldable pub load_lines : List Text → List (Text × Text) → List (Text × Text)
unfolding add_row parse_line
load_lines [] m = m
load_lines (l ∷ ls) m = load_lines ls (add_row (parse_line l) m)

-- `refresh`: a failed download or scan leaves the table as it is.
unfoldable pub refresh : Bool → List Text → List (Text × Text) → List (Text × Text)
unfolding load_lines
refresh failed ls old = if failed then old else load_lines ls []
