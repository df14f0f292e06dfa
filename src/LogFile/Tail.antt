-- ===== src/LogFile/Tail.antt =====
-- A followed file: the scans of readAppendedFile, in filepoller.go, hand over each of its complete
-- lines once, in order.
use network_enricher.Prelude.{
  ℕ, suc, ◌+◌, ◌≤◌, ◌<◌, ◌≡◌, ◌⊎◌, refl, sym, inl, inr, Bool, Bool-cases, true, false, arith,
  Option, none, some, List, [], ◌∷◌, ◌++◌, take, drop, length, length-take, length-append, ◌≢◌,
  length-drop, Text, last_index_byte, ltb, ◌==◌,
}
use network_enricher.LogFile.{
  Look, lines_of, complete_lines, read_tail, read_from, read_sized, read_appended_file,
}
use network_enricher.LogFile.Lines.{
  IsComplete, append_assoc, append_nil, take-take, take-append, take-add, lines_of-append,
  last_newline,
}

-- The file holds `content`, `off` is the stored offset, and `handed` are the lines handed over
-- since the file was last begun anew: those of the bytes in front of `off`, a whole number of lines.
pub record IsFollowed (content : Text) (off : ℕ) (handed : List Text) : Type 0 where
  pub within : off ≤ length content
  pub whole : IsComplete (take off content)
  pub exact : handed ≡ lines_of (take off content)

IsComplete-append : (s t : Text) → IsComplete s → IsComplete t → IsComplete (s ++ t)
IsComplete-append s t h (inl e) = rw (e, append_nil s) h
IsComplete-append s t h (inr (p, e)) = inr (s ++ p, rw e (sym (append_assoc s p (10 ∷ []))))

pub nothing-IsFollowed : (content : Text) → IsFollowed content 0 []
unfolding lines_of
nothing-IsFollowed content = record { within = omega arith; whole = inl refl; exact = refl }

-- A tail that is read from a followed offset.
module _ (limit : ℕ) (content : Text) (off : ℕ) (handed : List Text)
    (f : IsFollowed content off handed) where
  read_on :
      (i : ℕ)
      → last_index_byte 10 (take limit (drop off content)) ≡ some i
      → IsFollowed content
          (off + suc i)
          (handed ++ lines_of (take (suc i) (take limit (drop off content))))
  read_on i e =
      let (l, (p, q)) = last_newline (take limit (drop off content)) i e in
      let m = length-take limit (drop off content) in
      let d = length-drop off content in
      let here : take (off + suc i) content
          ≡ take off content ++ take (suc i) (take limit (drop off content)) =
        rw (take-take (suc i) limit (drop off content) (omega arith))
          (take-add off (suc i) content) in
      record {
        within = omega arith;
        whole = rw here (
            IsComplete-append (take off content) (take (suc i) (take limit (drop off content)))
              f.whole (inr (p, q)));
        exact =
            rw (here, f.exact)
              (sym (
                lines_of-append (take off content) (take (suc i) (take limit (drop off content)))
                  f.whole));
      }

  tail-IsFollowed :
      (truncated : Bool)
      → IsFollowed content
          (read_tail limit off off truncated (some content)).offset
          (handed ++ (read_tail limit off off truncated (some content)).lines)
  unfolding read_tail
  tail-IsFollowed truncated = go (last_index_byte 10 (take limit (drop off content))) refl
    where
      go :
          (o : Option ℕ)
          → last_index_byte 10 (take limit (drop off content)) ≡ o
          → IsFollowed content
              (complete_lines off truncated (take limit (drop off content)) o off).offset
              (handed ++ (complete_lines off truncated (take limit (drop off content)) o off).lines)
      go none e = rw (append_nil handed) f
      go (some i) e = read_on i e

widen :
    (old more : Text) (off : ℕ) (handed : List Text)
    → IsFollowed old off handed
    → IsFollowed (old ++ more) off handed
widen old more off handed f =
    let e = take-append off old more f.within in
    let l = length-append old more in
    let w = f.within in record { within = omega arith; whole = rw e f.whole; exact = rw e f.exact }

-- A file that only grew since the last scan, and may have grown after `os.Stat` too: the scan goes
-- on behind the last line that was handed over.
pub read_appended_file-IsFollowed :
    (limit : ℕ) (old more : Text) (size off : ℕ) (handed : List Text)
    → IsFollowed old off handed
    → length old ≤ size
    → IsFollowed
        (old ++ more)
        (read_appended_file limit off
          (record { size = some size; content = some (old ++ more) })).offset
        (handed
          ++ (read_appended_file limit off
              (record { size = some size; content = some (old ++ more) })).lines)
unfolding read_appended_file read_sized read_from
read_appended_file-IsFollowed limit old more size off handed f l =
    let w = widen old more off handed f in
    let k : ltb size off ≡ false = let m = f.within in ground (arith, m, l) in
    elim (Bool-cases (size == off)) [
      | inl c ↦ rw (k, c, append_nil handed) w
      | inr c ↦ rw (k, c) (tail-IsFollowed limit (old ++ more) off handed w false)
    ]

abbrev pub still : Text → Look
still content = record { size = some (length content); content = some content }

restart :
    (limit : ℕ) (content : Text) (off : ℕ)
    → last_index_byte 10 (take limit content) ≢ none
    → read_tail limit off 0 true (some content) ≡ read_tail limit 0 0 true (some content)
unfolding read_tail
restart limit content off n = go (last_index_byte 10 (take limit content)) n
  where
    go :
        (o : Option ℕ)
        → o ≢ none
        → complete_lines off true (take limit content) o 0
          ≡ complete_lines 0 true (take limit content) o 0
    go none n = absurd (n refl)
    go (some i) n = refl

-- The offset and the lines of a scan of a shortened file.
abbrev pub IsRestart : ℕ → Text → ℕ → ℕ → List Text → Type 0
IsRestart limit content off offset lines =
    ((last_index_byte 10 (take limit content) ≢ none) × IsFollowed content offset lines)
    ⊎ ((last_index_byte 10 (take limit content) ≡ none) × (offset ≡ off) × (lines ≡ []))

-- The caller is told of a file that is shorter than the stored offset but not empty. If there is a
-- newline in what the scan reads of it, it is begun anew: the lines come from the first on. If there
-- is none, no line is handed over, and the old offset stays, which is behind the end of the file.
pub read_appended_file-restarts :
    (limit : ℕ) (content : Text) (size off : ℕ)
    → 0 < size
    → size < off
    → ((read_appended_file limit off
          (record { size = some size; content = some content })).truncated
        ≡ true)
      × IsRestart limit content off
          (read_appended_file limit off
            (record { size = some size; content = some content })).offset
          (read_appended_file limit off (record { size = some size; content = some content })).lines
unfolding read_appended_file read_sized read_from read_tail
read_appended_file-restarts limit content size off z l =
    let k : ltb size off ≡ true = ground (arith, l) in
    let e : (size == 0) ≡ false = ground (arith, z) in
    rw (k, e) (is_told, outcome (last_index_byte 10 (take limit content)) refl)
  where
    told : (o : Option ℕ) → (complete_lines off true (take limit content) o 0).truncated ≡ true
    told none = refl
    told (some i) = refl

    is_told : (read_tail limit off 0 true (some content)).truncated ≡ true
    is_told = told (last_index_byte 10 (take limit content))

    outcome :
        (o : Option ℕ)
        → last_index_byte 10 (take limit content) ≡ o
        → IsRestart limit content off
            (read_tail limit off 0 true (some content)).offset
            (read_tail limit off 0 true (some content)).lines
    outcome none q = inr (q, rw q refl, rw q refl)
    outcome (some i) q =
        let n : last_index_byte 10 (take limit content) ≢ none = λ p. cc in
        inl (
          n,
          (rw (restart limit content off n)
              (tail-IsFollowed limit content 0 [] (nothing-IsFollowed content) true)),
        )

-- A scan that finds a followed file empty tells the caller, but it keeps the old offset. When the
-- next scan finds the file longer than before, it takes the new content for appended: it hands over
-- what the first scan of a file without the bytes in front of the offset would.
pub emptied_file_is_skipped :
    (limit : ℕ) (content : Text) (off : ℕ)
    → 0 < off
    → off < length content
    → ((read_appended_file limit off (still [])).truncated ≡ true)
      × ((read_appended_file limit off (still [])).offset ≡ off)
      × ((read_appended_file limit off (still content)).lines
          ≡ (read_appended_file limit 0 (still (drop off content))).lines)
unfolding read_appended_file read_sized read_from read_tail
emptied_file_is_skipped limit content off z l =
    let d = length-drop off content in
    let a : ltb 0 off ≡ true = ground (arith, z) in
    let b : ltb (length content) off ≡ false = ground (arith, l) in
    let c : (length content == off) ≡ false = ground (arith, l) in
    let e : ltb (length (drop off content)) 0 ≡ false = ground arith in
    let g : (length (drop off content) == 0) ≡ false = ground (arith, d, l) in
    rw (a, b, c, e, g) (refl, refl, same (last_index_byte 10 (take limit (drop off content))))
  where
    same :
        (o : Option ℕ)
        → (complete_lines off false (take limit (drop off content)) o off).lines
          ≡ (complete_lines 0 false (take limit (drop off content)) o 0).lines
    same none = refl
    same (some i) = refl
