-- ===== src/Pseudonym.antt =====
-- The normalizers of pseudonym.go, on ASCII text, and the tokenizers over them. The keyed digest is
-- an argument of those that use it.
pub mod Notations
use network_enricher.Prelude.{
  ℕ, suc, ◌+◌, Bool, true, false, ◌&&◌, ◌||◌, Option, none, some, List, [], ◌∷◌, ◌++◌, length, take,
  drop, Text, codes, is_empty, trim_space, trim_suffix, to_lower, index_byte, last_index_byte, leb,
  ◌==◌, if◌then◌else◌, is_digit,
}

-- A rune of `hexOnly`, lowered; `none` is dropped.
unfoldable pub hex_rune : ℕ → Option ℕ
hex_rune r =
    if is_digit r || (leb 97 r && leb r 102)
    then some r
    else (if leb 65 r && leb r 70 then some (r + 32) else none)

abbrev cons_some : Option ℕ → Text → Text
cons_some none s = s
cons_some (some r) s = r ∷ s

unfoldable pub hex_only : Text → Text
unfolding hex_rune
hex_only [] = []
hex_only (r ∷ s) = cons_some (hex_rune r) (hex_only s)

abbrev whole_mac : Text → Text
whole_mac h = if length h == 12 then h else []

-- The part before the first colon, if it is a whole address by itself.
unfoldable pub mac_before : Option ℕ → Text → Text
unfolding hex_only
mac_before none mac = whole_mac (hex_only mac)
mac_before (some i) mac =
    if length (hex_only (take i mac)) == 12 then hex_only (take i mac) else whole_mac (hex_only mac)

unfoldable pub normalize_mac : Text → Text
unfolding mac_before index_byte
normalize_mac mac = mac_before (index_byte 58 mac) mac

abbrev after_last : Option ℕ → Text → Text
after_last none u = u
after_last (some i) u = drop (suc i) u

abbrev before_first : Option ℕ → Text → Text
before_first none u = u
before_first (some i) u = take i u

unfoldable pub normalize_user : Text → Text
unfolding trim_space index_byte last_index_byte
normalize_user user =
    let u = trim_space user in
    let bare = after_last (last_index_byte 92 u) u in
    to_lower (before_first (index_byte 64 bare) bare)

unfoldable pub normalize_host : Text → Text
unfolding trim_space trim_suffix
normalize_host host = to_lower (trim_suffix (trim_space host) (codes "."))

-- identityTokenizer.
pub record Tokenizer : Type 0 where
  pub mac_token : Text → Text
  pub user_token : Text → Text
  pub host_token : Text → Text

pub upstream_tokenizer : Tokenizer
upstream_tokenizer = record {
  mac_token = λ mac. mac;
  user_token = λ user. user;
  host_token = λ host. host;
}

-- The digest of a normalized name, unless that is empty.
unfoldable pub token_of : (Text → Text) → Text → Text
token_of digest n = if is_empty n then [] else digest n

-- `digest` is the first half of the hexadecimal HMAC-SHA256 under the key.
unfoldable pub keyed_tokenizer : (Text → Text) → Tokenizer
unfolding token_of normalize_mac normalize_user normalize_host
keyed_tokenizer digest = record {
  mac_token = λ mac. token_of digest (normalize_mac mac);
  user_token = λ user. token_of digest (normalize_user user);
  host_token = λ host. token_of digest (normalize_host host);
}
