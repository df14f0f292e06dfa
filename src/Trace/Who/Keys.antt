-- ===== src/Trace/Who/Keys.antt =====
-- The keys that runWho of cmd/trace/main.go queries for, and maps that agree on a list.
use network_enricher.Prelude.{
  ◌≡◌, ◌⊎◌, refl, sym, subst, inl, inr, Bool-cases, false, List, [], ◌∷◌, map, Text, text_lt,
  is_empty,
}
use network_enricher.Prelude.Sets.{In, text_has_eq, In-put, In-put_keep}
use network_enricher.Trace.Who.{
  Resolution, WhoRow, insert_text, keys_of, client_set, mac_set, is_nil,
}

In-insert_text : (k x : Text) (xs : List Text) → (k ≡ x) ⊎ In k xs → In k (insert_text x xs)
unfolding insert_text
In-insert_text k x [] h = h
In-insert_text k x (y ∷ ys) h = elim (Bool-cases (text_lt y x)) [
  | inl c ↦ rw c (later h (In-insert_text k x ys))
  | inr c ↦ rw c h
]
  where
    later :
        (k ≡ x) ⊎ ((k ≡ y) ⊎ In k ys)
        → ((k ≡ x) ⊎ In k ys → In k (insert_text x ys))
        → (k ≡ y) ⊎ In k (insert_text x ys)
    later (inl e) rest = inr (rest (inl e))
    later (inr (inl e)) rest = inl e
    later (inr (inr i)) rest = inr (rest (inr i))

pub In-keys_of : (k : Text) (xs : List Text) → In k xs → In k (keys_of xs)
unfolding keys_of
In-keys_of k [] i = i
In-keys_of k (x ∷ xs) (inl e) = In-insert_text k x (keys_of xs) (inl e)
In-keys_of k (x ∷ xs) (inr i) = In-insert_text k x (keys_of xs) (inr (In-keys_of k xs i))

pub In-client_set :
    (r : Resolution) (rs : List Resolution) → In r rs → In r.client_ip (client_set rs)
unfolding client_set
In-client_set r [] i = absurd i
In-client_set r (x ∷ rs) (inl e) =
    subst (λ y. In y.client_ip (client_set (x ∷ rs))) (sym e) (In-put x.client_ip (client_set rs))
In-client_set r (x ∷ rs) (inr i) =
    In-put_keep r.client_ip x.client_ip (client_set rs) (In-client_set r rs i)

pub In-mac_set :
    (w : WhoRow) (ws : List WhoRow)
    → is_empty w.mac_token ≡ false
    → In w ws
    → In w.mac_token (mac_set ws)
unfolding mac_set
In-mac_set w [] h i = absurd i
In-mac_set w (x ∷ ws) h (inl e) =
    let k : is_empty x.mac_token ≡ false = rw (← e) h in
    subst (λ y. In y.mac_token (mac_set (x ∷ ws))) (sym e) (rw k (In-put x.mac_token (mac_set ws)))
In-mac_set w (x ∷ ws) h (inr i) = elim (Bool-cases (is_empty x.mac_token)) [
  | inl k ↦ rw k (In-mac_set w ws h i)
  | inr k ↦ rw k (In-put_keep w.mac_token x.mac_token (mac_set ws) (In-mac_set w ws h i))
]

pub not_nil : (k : Text) (ks : List Text) → In k ks → is_nil ks ≡ false
not_nil k [] i = absurd i
not_nil k (x ∷ xs) i = refl

pub map_agree :
    {A B : Type 0} (f g : A → B) (xs : List A)
    → ((x : A) → In x xs → f x ≡ g x)
    → map f xs ≡ map g xs
map_agree f g [] h = refl
map_agree f g (x ∷ xs) h = rw (h x (inl refl), map_agree f g xs (λ y i. h y (inr i))) refl

pub map_same :
    {A : Type 0} (f : A → A) (xs : List A) → ((x : A) → In x xs → f x ≡ x) → map f xs ≡ xs
map_same f [] h = refl
map_same f (x ∷ xs) h = rw (h x (inl refl), map_same f xs (λ y i. h y (inr i))) refl

pub map-map :
    {A B C : Type 0} (g : B → C) (f : A → B) (xs : List A)
    → map g (map f xs) ≡ map (λ x. g (f x)) xs
map-map g f [] = refl
map-map g f (x ∷ xs) = rw (map-map g f xs) refl
