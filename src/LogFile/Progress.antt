-- ===== src/LogFile/Progress.antt =====
-- Repeated scans of filepoller.go come to the end of a file, however large it is.
use network_enricher.Prelude.{
  ℕ, zero, suc, ◌+◌, ◌≤◌, ◌<◌, ◌≡◌, ◌⊎◌, ◌≢◌, refl, sym, ◌∙◌, subst, inl, inr, Bool-cases, false,
  arith, Option, none, some, List, [], ◌++◌, take, drop, length, length-drop, Text, last_index_byte,
  ltb, leb, ◌==◌,
}
use network_enricher.LogFile.{lines_of, read_tail, read_from, read_sized, read_appended_file}
use network_enricher.LogFile.Lines.{append_nil, take_all, last_newline, no_newline-take}
use network_enricher.LogFile.Tail.{
  IsFollowed, nothing-IsFollowed, read_appended_file-IsFollowed, still,
}

module _ (limit : ℕ) (content : Text) where
  -- `n` scans of a file that nobody writes: the offset, and the lines handed over.
  unfoldable pub scans : ℕ → ℕ → List Text → ℕ × List Text
  unfolding read_appended_file
  scans zero off handed = (off, handed)
  scans (suc n) off handed =
      let r = read_appended_file limit off (still content) in scans n r.offset (handed ++ r.lines)

  -- No line is longer than what one scan reads.
  abbrev pub HasShortLines : Type 0
  HasShortLines =
      (off : ℕ)
      → last_index_byte 10 (drop off content) ≢ none
      → last_index_byte 10 (take limit (drop off content)) ≢ none

  -- The lines from the offset on are all handed over.
  abbrev pub IsAtEnd : ℕ → Type 0
  IsAtEnd off = last_index_byte 10 (drop off content) ≡ none

  keeps_going :
      (off : ℕ) (handed : List Text)
      → IsFollowed content off handed
      → IsFollowed content
          (read_appended_file limit off (still content)).offset
          (handed ++ (read_appended_file limit off (still content)).lines)
  keeps_going off handed f =
      subst
        (λ c.
          IsFollowed c
            (read_appended_file limit off
              (record { size = some (length content); content = some c })).offset
            (handed
              ++ (read_appended_file limit off
                  (record { size = some (length content); content = some c })).lines))
        (append_nil content)
        (read_appended_file-IsFollowed limit content [] (length content) off handed f (omega arith))

  empty_tail : (off : ℕ) → length content ≤ off → IsAtEnd off
  empty_tail off l = go (last_index_byte 10 (drop off content)) refl
    where
      go : (o : Option ℕ) → last_index_byte 10 (drop off content) ≡ o → o ≡ none
      go none e = refl
      go (some i) e =
          let k = (last_newline (drop off content) i e).0 in
          let d = length-drop off content in absurd (omega arith)

  stays_at_end :
      (off : ℕ)
      → off ≤ length content
      → IsAtEnd off
      → (read_appended_file limit off (still content)).offset ≡ off
  unfolding read_appended_file read_sized read_from read_tail
  stays_at_end off l e =
      let k : ltb (length content) off ≡ false = ground (arith, l) in
      elim (Bool-cases (length content == off)) [
        | inl c ↦ rw (k, c) refl
        | inr c ↦ rw (k, c, no_newline-take limit (drop off content) e) refl
      ]

  pub small-HasShortLines : length content ≤ limit → HasShortLines
  small-HasShortLines l off n =
      let d = length-drop off content in
      let e = take_all limit (drop off content) (omega arith) in rw e n

  module _ (h : HasShortLines) where
    goes_on :
        (off j : ℕ)
        → off < length content
        → last_index_byte 10 (take limit (drop off content)) ≡ some j
        → off < (read_appended_file limit off (still content)).offset
    unfolding read_appended_file read_sized read_from read_tail
    goes_on off j l e =
        let k : ltb (length content) off ≡ false = ground (arith, l) in
        let c : (length content == off) ≡ false = ground (arith, l) in rw (k, c, e) (omega arith)

    scan_progress :
        (off : ℕ)
        → off ≤ length content
        → IsAtEnd off ⊎ (off < (read_appended_file limit off (still content)).offset)
    scan_progress off w = elim (Bool-cases (leb (length content) off)) [
      | inl c ↦ inl (empty_tail off (ground (arith, c)))
      | inr c ↦
          go (ground (arith, c)) (last_index_byte 10 (drop off content)) refl
            (last_index_byte 10 (take limit (drop off content))) refl
    ]
      where
        go :
            off < length content
            → (o : Option ℕ) → last_index_byte 10 (drop off content) ≡ o
            → (q : Option ℕ) → last_index_byte 10 (take limit (drop off content)) ≡ q
            → IsAtEnd off ⊎ (off < (read_appended_file limit off (still content)).offset)
        go l none e q r = inl e
        go l (some i) e none r = absurd (h off (λ z. let k : none ≡ some i = sym z ∙ e in cc) r)
        go l (some i) e (some j) r = inr (goes_on off j l r)

    scans_lem :
        (n off : ℕ) (handed : List Text)
        → IsFollowed content off handed
        → IsAtEnd off ⊎ (length content ≤ off + n)
        → IsFollowed content (scans n off handed).0 (scans n off handed).1
          × IsAtEnd (scans n off handed).0
    unfolding scans
    scans_lem zero off handed f (inl e) = (f, e)
    scans_lem zero off handed f (inr l) = (f, empty_tail off (omega arith))
    scans_lem (suc n) off handed f o =
        scans_lem n (read_appended_file limit off (still content)).offset
          (handed ++ (read_appended_file limit off (still content)).lines)
          (keeps_going off handed f) (closer o (scan_progress off f.within))
      where
        at_end : IsAtEnd off → IsAtEnd (read_appended_file limit off (still content)).offset
        at_end e = rw (stays_at_end off f.within e) e

        closer :
            IsAtEnd off ⊎ (length content ≤ off + suc n)
            → IsAtEnd off ⊎ (off < (read_appended_file limit off (still content)).offset)
            → IsAtEnd (read_appended_file limit off (still content)).offset
              ⊎ (length content ≤ (read_appended_file limit off (still content)).offset + n)
        closer (inl e) p = inl (at_end e)
        closer (inr l) (inl e) = inl (at_end e)
        closer (inr l) (inr p) = inr (omega arith)

    -- As many scans as the file has bytes hand over each of its complete lines, once and in order,
    -- when no line is longer than what one scan reads.
    pub scans_reach_end :
        IsAtEnd (scans (length content) 0 []).0
        × ((scans (length content) 0 []).1
            ≡ lines_of (take (scans (length content) 0 []).0 content))
    scans_reach_end =
        let (f, e) =
          scans_lem (length content) 0 [] (nothing-IsFollowed content) (inr (omega arith)) in
        (e, f.exact)
