-- ===== src/LogFile/RoundTrip.antt =====
-- Lines that a server writes to a log come back from the scans of filepoller.go.
use network_enricher.Prelude.{
  ℕ, zero, suc, ◌≤◌, ◌≡◌, ◌≢◌, refl, sym, ap, ◌∙◌, inl, inr, Bool, Bool-cases, true, false, arith,
  Option, none, some, List, [], ◌∷◌, ◌++◌, map, All, take, drop, length, length-append, reverse,
  Text, is_empty, trim_left_by, trim_right_by, last_index_byte, split_byte, leb, ◌==◌,
  if◌then◌else◌,
}
use mathlib.Core.List.{reverse-append}
use network_enricher.Prelude.Sets.{filter}
use network_enricher.Prelude.Splits.{split_byte_one}
use network_enricher.LogFile.{lines_of}
use network_enricher.LogFile.Lines.{
  IsComplete, append_assoc, append_nil, take_nil, take_all, lines_of_nothing, nonblank,
  lines_of_newline, lines_of-append,
}
use network_enricher.LogFile.Progress.{scans, HasShortLines, scans_reach_end}

-- A line of a log: not empty, no newline in it, no carriage return at its end.
pub record IsLine (l : Text) : Type 0 where
  pub some_text : is_empty l ≡ false
  pub one_line : All (λ c. c ≢ 10) l
  pub no_return : trim_right_by (λ c. c == 13) l ≡ l

-- Each line with `\n`, or `\r\n` behind it.
unfoldable pub written : List (Text × Bool) → Text
written [] = []
written ((l, crlf) ∷ ls) = (l ++ (if crlf then 13 ∷ [] else [])) ++ (10 ∷ written ls)

trim_return :
    (l : Text) → trim_right_by (λ c. c == 13) (l ++ (13 ∷ [])) ≡ trim_right_by (λ c. c == 13) l
unfolding trim_right_by trim_left_by
trim_return l = ap (λ r. reverse (trim_left_by (λ c. c == 13) r)) (reverse-append l (13 ∷ []))

no_newline-append :
    (s t : Text) → All (λ c. c ≢ 10) s → All (λ c. c ≢ 10) t → All (λ c. c ≢ 10) (s ++ t)
no_newline-append [] t h k = k
no_newline-append (c ∷ s) t h k = (h.0, no_newline-append s t h.1 k)

line_read :
    (l : Text) (crlf : Bool)
    → IsLine l
    → nonblank (split_byte 10 (l ++ (if crlf then 13 ∷ [] else []))) ≡ l ∷ []
unfolding nonblank filter
line_read l true h =
    rw
      (
        split_byte_one 10 (l ++ (13 ∷ []))
            (no_newline-append l (13 ∷ []) h.one_line ((λ e. absurd (omega arith)), tt)),
        trim_return l,
        h.no_return,
        h.some_text,
      )
      refl
line_read l false h =
    rw (append_nil l, split_byte_one 10 l h.one_line, h.no_return, h.some_text) refl

lines_of-written :
    (ls : List (Text × Bool)) → All (λ l. IsLine l.0) ls → lines_of (written ls) ≡ map (λ l. l.0) ls
unfolding written
lines_of-written [] h = lines_of_nothing
lines_of-written ((l, crlf) ∷ ls) h =
    let w = l ++ (if crlf then 13 ∷ [] else []) in
    ap lines_of (sym (append_assoc w (10 ∷ []) (written ls)))
    ∙ lines_of-append (w ++ (10 ∷ [])) (written ls) (inr (w, refl))
    ∙ rw (lines_of_newline w, line_read l crlf h.0) (ap (◌∷◌ l) (lines_of-written ls h.1))

written-IsComplete : (ls : List (Text × Bool)) → IsComplete (written ls)
unfolding written
written-IsComplete [] = inl refl
written-IsComplete ((l, crlf) ∷ ls) = inr (behind (written-IsComplete ls))
  where
    w : Text
    w = l ++ (if crlf then 13 ∷ [] else [])

    behind : IsComplete (written ls) → (p : Text) × (w ++ (10 ∷ written ls) ≡ p ++ (10 ∷ []))
    behind (inl e) = (w, ap (λ t. w ++ (10 ∷ t)) e)
    behind (inr (p, e)) =
        (w ++ (10 ∷ p), ap (λ t. w ++ (10 ∷ t)) e ∙ sym (append_assoc w (10 ∷ p) (10 ∷ [])))

ends_in_newline : (p : Text) → last_index_byte 10 (p ++ (10 ∷ [])) ≢ none
unfolding last_index_byte
ends_in_newline [] = λ e. cc
ends_in_newline (c ∷ p) = later (last_index_byte 10 (p ++ (10 ∷ []))) refl (ends_in_newline p)
  where
    later :
        (o : Option ℕ)
        → last_index_byte 10 (p ++ (10 ∷ [])) ≡ o
        → last_index_byte 10 (p ++ (10 ∷ [])) ≢ none
        → last_index_byte 10 (c ∷ (p ++ (10 ∷ []))) ≢ none
    later none e n = absurd (n e)
    later (some i) e n = λ z. let k : some (suc i) ≡ none = rw (last_index_byte, e) at z in cc

drop-append : (n : ℕ) (p t : Text) → n ≤ length p → drop n (p ++ t) ≡ drop n p ++ t
drop-append zero p t l = refl
drop-append (suc n) [] t l = absurd (omega arith)
drop-append (suc n) (c ∷ p) t l = drop-append n p t (omega arith)

-- Behind the last newline of a complete file there is nothing.
all_taken :
    (content : Text) (off : ℕ)
    → IsComplete content
    → last_index_byte 10 (drop off content) ≡ none
    → take off content ≡ content
all_taken content off (inl e) n = rw e (take_nil off)
all_taken content off (inr (p, e)) n = elim (Bool-cases (leb off (length p))) [
  | inl k ↦ absurd (
      ends_in_newline (drop off p) (
        ap (last_index_byte 10)
          (sym (drop-append off p (10 ∷ []) (ground (arith, k))) ∙ ap (drop off) (sym e))
        ∙ n))
  | inr k ↦ take_all off content (
      let l = length-append p (10 ∷ []) in
      let c : length content ≡ length (p ++ (10 ∷ [])) = ap length e in ground (arith, k))
]

-- The lines of a log, each with a newline behind it or a carriage return and a newline, come back
-- from the scans in their order, when none is longer than what one scan reads.
pub scans-written :
    (limit : ℕ) (ls : List (Text × Bool))
    → All (λ l. IsLine l.0) ls
    → HasShortLines limit (written ls)
    → (scans limit (written ls) (length (written ls)) 0 []).1 ≡ map (λ l. l.0) ls
scans-written limit ls h s =
    let (e, r) = scans_reach_end limit (written ls) s in
    r
    ∙ ap lines_of (
        all_taken (written ls) (scans limit (written ls) (length (written ls)) 0 []).0
          (written-IsComplete ls) e)
    ∙ lines_of-written ls h
