-- ===== src/Pseudonym/Notations.antt =====
-- The forms of a hardware address in pseudonym.go.
use network_enricher.Prelude.{
  ℕ, ◌≡◌, ◌⊎◌, refl, inl, inr, Bool, Bool-cases, true, ◌&&◌, ◌||◌, arith, Option, none, some, [],
  ◌∷◌, length, take, All, Text, index_byte, leb, ◌==◌, is_digit,
}
use network_enricher.Pseudonym.{hex_rune, hex_only, whole_mac, mac_before, normalize_mac, cons_some}

abbrev pub is_lower_hex : ℕ → Bool
is_lower_hex c = is_digit c || (leb 97 c && leb c 102)

abbrev pub IsMac : Text → Type 0
IsMac s = (length s ≡ 12) × All (λ c. is_lower_hex c ≡ true) s

lowered : (r : ℕ) → (c : ℕ) → hex_rune r ≡ some c → is_lower_hex c ≡ true
unfolding hex_rune
lowered r c h = ground arith

cons_some-All :
    (o : Option ℕ) (s : Text)
    → ((c : ℕ) → o ≡ some c → is_lower_hex c ≡ true)
    → All (λ c. is_lower_hex c ≡ true) s
    → All (λ c. is_lower_hex c ≡ true) (cons_some o s)
cons_some-All none s f h = h
cons_some-All (some c) s f h = (f c refl, h)

hex_only-All : (s : Text) → All (λ c. is_lower_hex c ≡ true) (hex_only s)
unfolding hex_only
hex_only-All [] = tt
hex_only-All (r ∷ s) = cons_some-All (hex_rune r) (hex_only s) (lowered r) (hex_only-All s)

whole_mac-IsMac : (s : Text) → (whole_mac (hex_only s) ≡ []) ⊎ IsMac (whole_mac (hex_only s))
whole_mac-IsMac s = elim (Bool-cases (length (hex_only s) == 12)) [
  | inl q ↦ rw q (inr (ground arith, hex_only-All s))
  | inr q ↦ rw q (inl refl)
]

mac_before-IsMac : (o : Option ℕ) (mac : Text) → (mac_before o mac ≡ []) ⊎ IsMac (mac_before o mac)
unfolding mac_before
mac_before-IsMac none mac = whole_mac-IsMac mac
mac_before-IsMac (some i) mac = elim (Bool-cases (length (hex_only (take i mac)) == 12)) [
  | inl q ↦ rw q (inr (ground arith, hex_only-All (take i mac)))
  | inr q ↦ rw q (whole_mac-IsMac mac)
]

-- What `normalizeMAC` makes of any text is empty, or twelve lower-case hexadecimal digits.
pub normalize_mac-IsMac : (mac : Text) → (normalize_mac mac ≡ []) ⊎ IsMac (normalize_mac mac)
unfolding normalize_mac
normalize_mac-IsMac mac = mac_before-IsMac (index_byte 58 mac) mac
