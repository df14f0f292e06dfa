-- ===== src/DnsStore/Binding.antt =====
-- What a key is bound to after the writes of dnsstore.go.
use network_enricher.Prelude.{
  ◌≡◌, ◌⊎◌, ◌↔◌, refl, sym, ap, ◌∙◌, Bool, Bool-cases, true, false, not, ◌&&◌, arith, Option, none,
  some, List, [], ◌∷◌, Text, text_eq_iff, text_lt, Time, before, ◌==◌, if◌then◌else◌, inl, inr,
}
use network_enricher.Prelude.TextOrder.{text_lt_irrefl, text_lt_trans, text_lt_connex}
use network_enricher.DnsStore.{
  DnsEvent, DnsKey, DnsBinding, Entry, key_eq, find, remove, store, place, write, supersedes,
  key_of, binding_of, validity,
}

pub key_eq_iff : (k l : DnsKey) → (key_eq k l ≡ true) ↔ (k ≡ l)
unfolding key_eq
key_eq_iff k l =
    ground (arith, text_eq_iff k.client_ip l.client_ip, text_eq_iff k.answer_ip l.answer_ip)

pub key_eq_refl : (k : DnsKey) → key_eq k k ≡ true
key_eq_refl k = (key_eq_iff k k).1 refl

pub find-remove :
    (k l : DnsKey) (es : List Entry)
    → find k (remove l es) ≡ (if key_eq k l then none else find k es)
unfolding find remove
find-remove k l [] = ground arith
find-remove k l ((m, b) ∷ es) =
    ground (arith, find-remove k l es, key_eq_iff l m, key_eq_iff k m, key_eq_iff k l)

pub find-store :
    (k l : DnsKey) (b : DnsBinding) (es : List Entry)
    → find k (store l b es) ≡ (if key_eq k l then some b else find k es)
unfolding store find
find-store k l b es = ground (arith, find-remove k l es)

-- The binding of the event's key after `write`.
abbrev pub updated : DnsEvent → Option DnsBinding → DnsBinding
updated e none = binding_of e
updated e (some b) = if supersedes e b then binding_of e else b

find-place :
    (k : DnsKey) (e : DnsEvent) (o : Option DnsBinding) (es : List Entry)
    → find (key_of e) es ≡ o
    → find k (place e o es) ≡ (if key_eq k (key_of e) then some (updated e o) else find k es)
unfolding place
find-place k e none es h = find-store k (key_of e) (binding_of e) es
find-place k e (some b) es h = elim (Bool-cases (supersedes e b)) [
  | inl s ↦ rw s (find-store k (key_of e) (binding_of e) es)
  | inr s ↦ rw s (kept (Bool-cases (key_eq k (key_of e))))
]
  where
    kept :
        (key_eq k (key_of e) ≡ true) ⊎ (key_eq k (key_of e) ≡ false)
        → find k es ≡ (if key_eq k (key_of e) then some b else find k es)
    kept (inl q) = rw q (rw (← h) (ap (λ x. find x es) ((key_eq_iff _ _).0 q)))
    kept (inr q) = rw q refl

pub find-write :
    (k : DnsKey) (e : DnsEvent) (es : List Entry)
    → find k (write e es)
      ≡ (if key_eq k (key_of e) then some (updated e (find (key_of e) es)) else find k es)
unfolding write
find-write k e es = find-place k e (find (key_of e) es) es refl

-- The order of times, then hostnames, by which a binding is replaced.
abbrev pub above : Time → Text → Time → Text → Bool
above t h t' h' = not (before t t') && not (t == t' && not (text_lt h' h))

above_trans :
    (t t' t'' : Time) (h h' h'' : Text)
    → above t h t' h' ≡ true
    → above t' h' t'' h'' ≡ true
    → above t h t'' h'' ≡ true
above_trans t t' t'' h h' h'' p q = ground (arith, text_lt_trans h'' h' h)

above_irrefl : (t : Time) (h : Text) → above t h t h ≡ false
above_irrefl t h = ground (arith, text_lt_irrefl h)

above_connex :
    (t t' : Time) (h h' : Text)
    → above t h t' h' ≡ false
    → above t' h' t h ≡ false
    → (t ≡ t') × (h ≡ h')
above_connex t t' h h' p q = ground (arith, text_lt_connex h h')

supersedes_lem :
    (e : DnsEvent) (b : DnsBinding)
    → supersedes e b ≡ above e.event_time e.qname b.event_time b.hostname
unfolding supersedes
supersedes_lem e b = refl

-- Equal instants and hostnames come with equal validities.
abbrev pub Agree : DnsEvent → DnsEvent → Type 0
Agree e f = e.event_time ≡ f.event_time → e.qname ≡ f.qname → validity e ≡ validity f

binding_of_tie :
    (e f : DnsEvent)
    → Agree e f
    → above e.event_time e.qname f.event_time f.qname ≡ false
    → above f.event_time f.qname e.event_time e.qname ≡ false
    → binding_of e ≡ binding_of f
unfolding binding_of
binding_of_tie e f a p q =
    let (t, h) = above_connex e.event_time f.event_time e.qname f.qname p q in
    let v = a t h in rw (t, h, v) refl

above_asym :
    (e f : DnsEvent)
    → above e.event_time e.qname f.event_time f.qname ≡ true
    → above f.event_time f.qname e.event_time e.qname ≡ false
above_asym e f p = ground (
  arith,
  above_irrefl e.event_time e.qname,
  above_trans e.event_time f.event_time e.event_time e.qname f.qname e.qname,
)

duel :
    (e f : DnsEvent) → Agree e f → updated f (some (binding_of e)) ≡ updated e (some (binding_of f))
unfolding binding_of
duel e f a =
    rw (supersedes_lem f (binding_of e), supersedes_lem e (binding_of f))
      (go (Bool-cases (above e.event_time e.qname f.event_time f.qname))
        (Bool-cases (above f.event_time f.qname e.event_time e.qname)))
  where
    E : Bool
    E = above e.event_time e.qname f.event_time f.qname

    F : Bool
    F = above f.event_time f.qname e.event_time e.qname

    go :
        (E ≡ true) ⊎ (E ≡ false)
        → (F ≡ true) ⊎ (F ≡ false)
        → (if F then binding_of f else binding_of e) ≡ (if E then binding_of e else binding_of f)
    go (inl p) q = rw (p, above_asym e f p) refl
    go (inr p) (inl q) = rw (p, q) refl
    go (inr p) (inr q) = rw (p, q) (binding_of_tie e f a p q)

loses :
    (e f : DnsEvent) (b : DnsBinding)
    → supersedes e b ≡ true
    → supersedes f b ≡ false
    → supersedes f (binding_of e) ≡ false
unfolding supersedes binding_of
loses e f b p q =
    ground (arith, above_trans f.event_time e.event_time b.event_time f.qname e.qname b.hostname)

updated_commutes :
    (e f : DnsEvent) (o : Option DnsBinding)
    → Agree e f
    → updated f (some (updated e o)) ≡ updated e (some (updated f o))
updated_commutes e f none a = duel e f a
updated_commutes e f (some b) a = go (Bool-cases (supersedes e b)) (Bool-cases (supersedes f b))
  where
    go :
        (supersedes e b ≡ true) ⊎ (supersedes e b ≡ false)
        → (supersedes f b ≡ true) ⊎ (supersedes f b ≡ false)
        → updated f (some (updated e (some b))) ≡ updated e (some (updated f (some b)))
    go (inl p) (inl q) = rw (p, q) (duel e f a)
    go (inl p) (inr q) = rw (p, q, loses e f b p q, p) refl
    go (inr p) (inl q) = rw (p, q, loses f e b q p) refl
    go (inr p) (inr q) = rw (p, q, p) refl

-- Two writes in either order, without an eviction between them.
pub writes_commute :
    (e f : DnsEvent) (k : DnsKey) (es : List Entry)
    → Agree e f
    → find k (write f (write e es)) ≡ find k (write e (write f es))
writes_commute e f k es a =
    rw
      (
        find-write k f (write e es),
        find-write k e (write f es),
        find-write k e es,
        find-write k f es,
        find-write (key_of f) e es,
        find-write (key_of e) f es,
      )
      (settled (Bool-cases (key_eq k (key_of f))) (Bool-cases (key_eq k (key_of e))))
  where
    o : Option DnsBinding
    o = find (key_of e) es

    bind : DnsEvent → DnsEvent → Option DnsBinding
    bind d d' =
        if key_eq (key_of d) (key_of d')
        then some (updated d' (find (key_of d') es))
        else find (key_of d) es

    settled :
        (key_eq k (key_of f) ≡ true) ⊎ (key_eq k (key_of f) ≡ false)
        → (key_eq k (key_of e) ≡ true) ⊎ (key_eq k (key_of e) ≡ false)
        → (if key_eq k (key_of f)
            then some (updated f (bind f e))
            else (if key_eq k (key_of e) then some (updated e (find (key_of e) es)) else find k es))
          ≡ (if key_eq k (key_of e)
              then some (updated e (bind e f))
              else (if key_eq k (key_of f)
                  then some (updated f (find (key_of f) es))
                  else find k es))
    settled (inl p) (inl q) =
        let same : key_of f ≡ key_of e =
          sym ((key_eq_iff k (key_of f)).0 p) ∙ (key_eq_iff k (key_of e)).0 q in
        rw (p, q, same, key_eq_refl (key_of e)) (ap some (updated_commutes e f o a))
    settled (inl p) (inr q) =
        let r : key_eq (key_of f) (key_of e) ≡ false =
          ap (λ x. key_eq x (key_of e)) (sym ((key_eq_iff k (key_of f)).0 p)) ∙ q in
        rw (p, q, r) refl
    settled (inr p) (inl q) =
        let r : key_eq (key_of e) (key_of f) ≡ false =
          ap (λ x. key_eq x (key_of f)) (sym ((key_eq_iff k (key_of e)).0 q)) ∙ p in
        rw (p, q, r) refl
    settled (inr p) (inr q) = rw (p, q) refl
