-- ===== src/RateLimit/Keys/Addresses.antt =====
-- Which address a request is counted by.
use mathlib.Core.List.{reverse-cons}
use reli.Prelude.{
  ◌≢◌, ◌==◌, String_equals, eq_of_equals, strip, split_commas, String, ◌≡◌, ◌⊎◌, sym, ap, ◌∙◌,
  subst, refl, Bool, true, false, List, [], ◌∷◌, ◌++◌, reverse, if◌then◌else◌, inl, inr, Bool-cases,
  All, arith,
}
use reli.RateLimit.Keys.{
  HttpRequest, client_address, first_untrusted, forwarded, peer_of, hops, hops_of, Headers,
}

-- The entries of a header's value between its commas: what is not blank, stripped.
pub data Entries : List String → List String → Type 0 where
  no_part : Entries [] []
  blank_part :
      (part : String) (parts entries : List String)
      → strip part ≡ ""
      → Entries parts entries
      → Entries (part ∷ parts) entries
  entry :
      (part : String) (parts entries : List String)
      → strip part ≢ ""
      → Entries parts entries
      → Entries (part ∷ parts) (strip part ∷ entries)

-- The entries of every X-Forwarded-For header, from the first to the last.
pub data Forwards : Headers → List String → Type 0 where
  no_header : Forwards [] []
  other_header :
      (name value : String) (headers : Headers) (entries : List String)
      → name ≢ "x-forwarded-for"
      → Forwards headers entries
      → Forwards ((name, value) ∷ headers) entries
  forwarding :
      (name value : String) (headers : Headers) (first later : List String)
      → name ≡ "x-forwarded-for"
      → Entries (split_commas value) first
      → Forwards headers later
      → Forwards ((name, value) ∷ headers) (first ++ later)

not_equal : (a b : String) → (a == b) ≡ false → a ≢ b
not_equal a b h e = ground (arith, sym h ∙ (String_equals.equals_iff a b).1 e)

hops_of-Entries : (parts : List String) → Entries parts (hops_of parts)
hops_of-Entries [] = no_part
hops_of-Entries (part ∷ parts) = elim (Bool-cases (strip part == "")) [
  | inl blank ↦
      subst (λ b. Entries (part ∷ parts) (if b then hops_of parts else strip part ∷ hops_of parts))
        (sym blank)
        (blank_part part parts (hops_of parts) (eq_of_equals (strip part) "" blank)
          (hops_of-Entries parts))
  | inr full ↦
      subst (λ b. Entries (part ∷ parts) (if b then hops_of parts else strip part ∷ hops_of parts))
        (sym full)
        (entry part parts (hops_of parts) (not_equal (strip part) "" full) (hops_of-Entries parts))
]

hops-Forwards : (headers : Headers) → Forwards headers (hops headers)
hops-Forwards [] = no_header
hops-Forwards ((name, value) ∷ headers) = elim (Bool-cases (name == "x-forwarded-for")) [
  | inl own ↦
      subst
        (λ b.
          Forwards ((name, value) ∷ headers)
            (if b then hops_of (split_commas value) ++ hops headers else hops headers))
        (sym own)
        (forwarding name value headers (hops_of (split_commas value)) (hops headers)
          (eq_of_equals name "x-forwarded-for" own) (hops_of-Entries (split_commas value))
          (hops-Forwards headers))
  | inr other ↦
      subst
        (λ b.
          Forwards ((name, value) ∷ headers)
            (if b then hops_of (split_commas value) ++ hops headers else hops headers))
        (sym other)
        (other_header name value headers (hops headers) (not_equal name "x-forwarded-for" other)
          (hops-Forwards headers))
]

module _ (is_trusted_proxy : String → Bool) where
  abbrev IsTrusted : String → Type 0
  IsTrusted hop = is_trusted_proxy hop ≡ true

  -- The last of the hops that is no trusted proxy, or the first if each of them is one.
  abbrev pub IsForwarded : List String → String → Type 0
  IsForwarded hops address =
      ((before : List String) × (after : List String) × (hops ≡ before ++ address ∷ after)
        × (is_trusted_proxy address ≡ false)
        × All IsTrusted after)
      ⊎ ((rest : List String) × (hops ≡ address ∷ rest) × All IsTrusted hops)

  abbrev pub IsClientAddress : String → List String → String → Type 0
  IsClientAddress peer hops address =
      (((is_trusted_proxy peer ≡ false) ⊎ (hops ≡ [])) × (address ≡ peer))
      ⊎ ((is_trusted_proxy peer ≡ true) × IsForwarded hops address)

  first_untrusted-append :
      (xs : List String) (hop fallback : String)
      → first_untrusted is_trusted_proxy (xs ++ hop ∷ []) fallback
        ≡ first_untrusted is_trusted_proxy xs (if is_trusted_proxy hop then fallback else hop)
  first_untrusted-append [] hop fallback = refl
  first_untrusted-append (x ∷ xs) hop fallback =
      ground (arith, first_untrusted-append xs hop fallback)

  -- The search from the right ends at a hop, beyond which all are trusted, or with the fallback.
  searched :
      (hops : List String) (fallback : String)
      → (let address = first_untrusted is_trusted_proxy (reverse hops) fallback in
          ((before : List String) × (after : List String) × (hops ≡ before ++ address ∷ after)
            × (is_trusted_proxy address ≡ false)
            × All IsTrusted after)
          ⊎ (All IsTrusted hops × (address ≡ fallback)))
  searched [] fallback = inr (tt, refl)
  searched (hop ∷ hops) fallback =
      let turned =
        ap (λ xs. first_untrusted is_trusted_proxy xs fallback) (reverse-cons hop hops)
        ∙ first_untrusted-append (reverse hops) hop fallback in
      subst
        (λ address.
          ((before : List String) × (after : List String) × (hop ∷ hops ≡ before ++ address ∷ after)
            × (is_trusted_proxy address ≡ false)
            × All IsTrusted after)
          ⊎ (All IsTrusted (hop ∷ hops) × (address ≡ fallback)))
        (sym turned)
        (elim (searched hops (if is_trusted_proxy hop then fallback else hop)) [
          | inl (before, after, e, last, all) ↦
              inl (hop ∷ before, after, ap (λ xs. hop ∷ xs) e, last, all)
          | inr (all, same) ↦ elim (Bool-cases (is_trusted_proxy hop)) [
            | inl trusted ↦ inr ((trusted, all), ground (arith, same, trusted))
            | inr last ↦
                subst
                  (λ address.
                    ((before : List String) × (after : List String) × (hop ∷ hops
                        ≡ before ++ address ∷ after)
                      × (is_trusted_proxy address ≡ false)
                      × All IsTrusted after)
                    ⊎ (All IsTrusted (hop ∷ hops) × (address ≡ fallback)))
                  {x = hop} (ground (arith, same, last)) (inl ([], hops, refl, last, all))
          ]
        ])

  forwarded-IsForwarded :
      (peer hop : String) (hops : List String)
      → IsForwarded (hop ∷ hops) (forwarded is_trusted_proxy peer (hop ∷ hops))
  forwarded-IsForwarded peer hop hops = elim (searched (hop ∷ hops) hop) [
    | inl found ↦ inl found
    | inr (all, same) ↦ inr (hops, ap (λ x. x ∷ hops) (sym same), all)
  ]

  forwarded-IsClientAddress :
      (peer : String) (hops : List String)
      → is_trusted_proxy peer ≡ true
      → IsClientAddress peer hops (forwarded is_trusted_proxy peer hops)
  forwarded-IsClientAddress peer [] trusted = inl (inr refl, refl)
  forwarded-IsClientAddress peer (hop ∷ hops) trusted =
      inr (trusted, forwarded-IsForwarded peer hop hops)

  -- A request is counted by the address of its peer, if this is no trusted proxy or no X-Forwarded-For header
  -- has an entry; otherwise by the last entry of all those headers, in their order, that is no trusted proxy, or
  -- by the first if each entry is one.
  pub client_address-IsClientAddress :
      (request : HttpRequest)
      → (entries : List String) × Forwards request.headers entries
        × IsClientAddress (peer_of request.client) entries (client_address is_trusted_proxy request)
  unfolding client_address
  client_address-IsClientAddress request =
      let peer = peer_of request.client in
      let given = hops request.headers in
      (
        given,
        hops-Forwards request.headers,
        elim (Bool-cases (is_trusted_proxy peer)) [
          | inl trusted ↦
              subst
                (λ t.
                  IsClientAddress peer given
                    (if t then forwarded is_trusted_proxy peer given else peer))
                (sym trusted) (forwarded-IsClientAddress peer given trusted)
          | inr other ↦
              subst
                (λ t.
                  IsClientAddress peer given
                    (if t then forwarded is_trusted_proxy peer given else peer))
                (sym other) (inl (inl other, refl))
        ],
      )
