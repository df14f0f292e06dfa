-- ===== src/EventBuffer.antt =====
-- capTail and the buffers of chEventWriter (identity.go) and chDNSWriter (dnsstore.go). Whether
-- ClickHouse takes a batch is a Boolean of each attempt: `sendDHCP`, `sendRadius` and `sendDNS`
-- hand the whole buffer over, and only their error is looked at.
use network_enricher.Prelude.{
  ℕ, ◌-◌, ◌≤◌, ◌≡◌, refl, sym, List, [], ◌∷◌, ◌++◌, Bool, Bool-cases, true, false, arith, length,
  take, drop, length-drop, length-take, take-append-drop, leb, if◌then◌else◌, inl, inr,
}
use mathlib.Core.List.{append-nil}

module _ {ℓ} {A : Type ℓ} where
  unfoldable pub cap_tail : List A → ℕ → List A
  cap_tail s n = if leb (length s) n then s else drop (length s - n) s

  -- One `if len(buf) > 0` block of `flush`: the new buffer, and what was delivered.
  unfoldable pub flush_buffer : Bool → ℕ → List A → List A × List A
  flush_buffer accepted max_buffer [] = ([], [])
  flush_buffer accepted max_buffer (e ∷ es) =
      if accepted then ([], e ∷ es) else (cap_tail (e ∷ es) max_buffer, [])

  -- What became of a buffer: its oldest events dropped, the next ones delivered, the rest kept.
  pub record Ledger (max_buffer : ℕ) (old sent kept : List A) : Type ℓ where
    pub dropped : List A
    pub splits : old ≡ dropped ++ (sent ++ kept)
    pub drops : length dropped ≤ length old - max_buffer

  cap_tail-Ledger : (n : ℕ) (s : List A) → Ledger n s [] (cap_tail s n)
  unfolding cap_tail
  cap_tail-Ledger n s = elim (Bool-cases (leb (length s) n)) [
    | inl short ↦ rw short (record { dropped = []; splits = refl; drops = omega arith })
    | inr long ↦ rw long (record {
      dropped = take (length s - n) s;
      splits = sym (take-append-drop (length s - n) s);
      drops = omega (arith, length-take (length s - n) s);
    })
  ]

  -- A flush loses no event but the oldest ones of a refused buffer, as many as it is over the cap.
  pub flush_buffer-Ledger :
      (accepted : Bool) (n : ℕ) (s : List A)
      → Ledger n s (flush_buffer accepted n s).1 (flush_buffer accepted n s).0
  unfolding flush_buffer
  flush_buffer-Ledger accepted n [] = record { dropped = []; splits = refl; drops = omega arith }
  flush_buffer-Ledger true n (e ∷ es) = record {
    dropped = [];
    splits = sym (append-nil (e ∷ es));
    drops = omega arith;
  }
  flush_buffer-Ledger false n (e ∷ es) = cap_tail-Ledger n (e ∷ es)

  pub length-cap_tail : (s : List A) (n : ℕ) → length (cap_tail s n) ≤ n
  unfolding cap_tail
  length-cap_tail s n = ground (arith, length-drop (length s - n) s)

  -- A flush adds nothing.
  pub flush_buffer_le :
      (accepted : Bool) (n : ℕ) (s : List A) → length (flush_buffer accepted n s).0 ≤ length s
  unfolding flush_buffer cap_tail
  flush_buffer_le accepted n [] = omega arith
  flush_buffer_le true n (e ∷ es) = omega arith
  flush_buffer_le false n (e ∷ es) = ground (arith, length-drop (length (e ∷ es) - n) (e ∷ es))

  pub flush_buffer-bounded :
      (accepted : Bool) (n : ℕ) (s : List A) → length (flush_buffer accepted n s).0 ≤ n
  unfolding flush_buffer
  flush_buffer-bounded accepted n [] = omega arith
  flush_buffer-bounded true n (e ∷ es) = omega arith
  flush_buffer-bounded false n (e ∷ es) = length-cap_tail (e ∷ es) n

  pub flush_buffer-accepted : (n : ℕ) (s : List A) → (flush_buffer true n s).0 ≡ []
  unfolding flush_buffer
  flush_buffer-accepted n [] = refl
  flush_buffer-accepted n (e ∷ es) = refl
