-- ===== src/Bind/Scanners.antt =====
-- dnsQueryRe, dnsResponseRe and dnsAnswerRe of dnslog.go. A scanner takes what to do with the rest,
-- and tries the next possibility where that fails, in the order of Go's `regexp`: a repetition is
-- long first, the lazy one short first, and the leftmost match counts.
use network_enricher.Prelude.{
  ℕ, zero, suc, ◌-◌, Bool, not, ◌||◌, Option, none, some, List, [], ◌∷◌, ◌++◌, length, Text, codes,
  is_digit, ◌==◌, if◌then◌else◌,
}

-- `\s`
abbrev pub re_space : ℕ → Bool
re_space c = c == 32 || c == 9 || c == 10 || c == 12 || c == 13

abbrev pub re_word : ℕ → Bool
re_word c = not (re_space c)

pub record Prefix : Type 0 where
  pub client : Text
  pub port : Text
  pub name : Text
  pub qtype : Text

pub record Answer : Type 0 where
  pub ttl : Text
  pub rtype : Text
  pub rdata : Text

module _ {R : Type 0} where
  abbrev or_else : Option R → Option R → Option R
  or_else none o = o
  or_else (some r) o = some r

  unfoldable pub literal : Text → (Text → Option R) → Text → Option R
  literal [] k s = k s
  literal (p ∷ ps) k [] = none
  literal (p ∷ ps) k (c ∷ s) = let rest = literal ps k s in if c == p then rest else none

  -- The bytes taken so far are `taken`; none, or more of them, follow.
  unfoldable pub more : (ℕ → Bool) → Text → (Text → Text → Option R) → Text → Option R
  more p taken k [] = k taken []
  more p taken k (c ∷ s) =
      let longer = more p (taken ++ c ∷ []) k s in
      if p c then or_else longer (k taken (c ∷ s)) else k taken (c ∷ s)

  unfoldable pub fewer : (ℕ → Bool) → Text → (Text → Text → Option R) → Text → Option R
  fewer p taken k [] = k taken []
  fewer p taken k (c ∷ s) =
      let longer = fewer p (taken ++ c ∷ []) k s in
      or_else (k taken (c ∷ s)) (if p c then longer else none)

  -- `(x+)`, `(x+?)`, `x+` and `x*` of a class `x`.
  unfoldable pub some_of : (ℕ → Bool) → (Text → Text → Option R) → Text → Option R
  unfolding more
  some_of p k [] = none
  some_of p k (c ∷ s) = if p c then more p (c ∷ []) k s else none

  unfoldable pub few_of : (ℕ → Bool) → (Text → Text → Option R) → Text → Option R
  unfolding fewer
  few_of p k [] = none
  few_of p k (c ∷ s) = if p c then fewer p (c ∷ []) k s else none

  unfoldable pub skip_some : (ℕ → Bool) → (Text → Option R) → Text → Option R
  unfolding some_of
  skip_some p k = some_of p (λ taken s. k s)

  unfoldable pub skip_any : (ℕ → Bool) → (Text → Option R) → Text → Option R
  unfolding more
  skip_any p k = more p [] (λ taken s. k s)

  -- `(?:@\S+\s+)?`
  unfoldable pub view_option : (Text → Option R) → Text → Option R
  unfolding literal skip_some
  view_option k s = or_else (literal (codes "@") (skip_some re_word (skip_some re_space k)) s) (k s)

-- dnsQueryRe and dnsResponseRe at the front of a text, for the keyword of each.
unfoldable pub prefix_here : Text → Text → Option Prefix
unfolding literal skip_some skip_any some_of few_of view_option
prefix_here keyword = literal (codes "client") (
    skip_some re_space (
      view_option (
        few_of re_word (λ client. literal (codes "#") (
          some_of is_digit (λ port. skip_some re_space (
            literal (codes "(") (
              skip_any (λ c. not (c == 41))
                (literal (codes "):") (
                  skip_any re_space (
                    literal keyword (
                      skip_some re_space (
                        some_of re_word (λ name. skip_some re_space (
                          skip_some re_word (
                            skip_some re_space (
                              some_of re_word (λ qtype rest. some (record {
                                client = client;
                                port = port;
                                name = name;
                                qtype = qtype;
                              })))))))))))))))))))

unfoldable pub find_prefix : Text → Text → Option Prefix
unfolding prefix_here
find_prefix keyword [] = none
find_prefix keyword (c ∷ s) = or_else (prefix_here keyword (c ∷ s)) (find_prefix keyword s)

-- `(A|AAAA)`
unfoldable pub address_type : (Text → Text → Option (Answer × Text)) → Text → Option (Answer × Text)
unfolding literal
address_type k s =
    or_else (literal (codes "A") (k (codes "A")) s) (literal (codes "AAAA") (k (codes "AAAA")) s)

-- dnsAnswerRe at the front of a text, and what follows the match.
unfoldable pub answer_here : Text → Option (Answer × Text)
unfolding literal skip_some some_of address_type
answer_here = skip_some re_word (
    skip_some re_space (
      some_of is_digit (λ ttl. skip_some re_space (
        literal (codes "IN") (
          skip_some re_space (
            address_type (λ rtype. skip_some re_space (
              some_of re_word (λ rdata rest.
                some (record { ttl = ttl; rtype = rtype; rdata = rdata }, rest))))))))))

-- The first `n` bytes belong to the match before. A match has one byte at least.
unfoldable pub answers_from : ℕ → Text → List Answer
unfolding answer_here
answers_from n [] = []
answers_from (suc n) (c ∷ s) = answers_from n s
answers_from zero (c ∷ s) = elim (answer_here (c ∷ s)) [
  | none ↦ answers_from zero s
  | some (a, rest) ↦ a ∷ answers_from (length s - length rest) s
]

-- `FindAllStringSubmatch`
unfoldable pub find_answers : Text → List Answer
unfolding answers_from
find_answers = answers_from 0
