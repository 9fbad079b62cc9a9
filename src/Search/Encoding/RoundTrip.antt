-- ===== src/Search/Encoding/RoundTrip.antt =====
-- src/search/encoding.rs: a query that encodes decodes to its tokens.
use mathlib.Core.List.{append_assoc, append-nil}
use yurine.Prelude.{
  ℕ, zero, suc, ◌+◌, ◌-◌, ◌≤◌, ◌<◌, ◌≡◌, refl, sym, ap, ap₂, subst, map, length-map, ◌∙◌, List, [],
  ◌∷◌, ◌++◌, arith, some, none, get_elem?, get_elem?_of_length, Eq, Bool-cases, Option-cases, inl,
  inr, ◌==◌, false, length, length-append, lt→ltb, none≢some,
}
use yurine.Errors.{ok}
use yurine.Types.{Symbol, unknown, is_unknown, u32_max, usize_limit, symbol_from_usize-of-lt}
use yurine.Map.{get, put, get-put}
use yurine.Vocabulary.{Vocabulary, symbol, token, len}
use yurine.Search.Encoding.{EncodedQuery, encode_tokens, symbol_token, new}

pub some-same {ℓ} : {A : Type ℓ} {a b : A} → some a ≡ some b → a ≡ b
some-same e = cc

pub cons-head {ℓ} : {A : Type ℓ} {a b : A} {xs ys : List A} → (a ∷ xs) ≡ (b ∷ ys) → a ≡ b
cons-head e = cc

pub cons-tail {ℓ} : {A : Type ℓ} {a b : A} {xs ys : List A} → (a ∷ xs) ≡ (b ∷ ys) → xs ≡ ys
cons-tail e = cc

pub map-append {ℓ κ} :
    {A : Type ℓ} {B : Type κ} (f : A → B) (xs ys : List A) → map f (xs ++ ys) ≡ map f xs ++ map f ys
map-append f [] ys = refl
map-append f (x ∷ xs) ys = ap (λ l. f x ∷ l) (map-append f xs ys)

module _ {ℓ} {T : Type ℓ} where
  get_elem?-snoc :
      (xs : List T) (a : T) (i : ℕ) (t : T)
      → get_elem? xs i ≡ some t
      → get_elem? (xs ++ a ∷ []) i ≡ some t
  get_elem?-snoc [] a i t e = cc
  get_elem?-snoc (x ∷ xs) a zero t e = e
  get_elem?-snoc (x ∷ xs) a (suc i) t e = get_elem?-snoc xs a i t e

  get_elem?-none : (xs : List T) (i : ℕ) → length xs ≤ i → get_elem? xs i ≡ none
  get_elem?-none [] i h = refl
  get_elem?-none (x ∷ xs) zero h = absurd (omega (arith, h))
  get_elem?-none (x ∷ xs) (suc i) h = get_elem?-none xs i (omega (arith, h))

module _ {ℓ} {T : Type ℓ} ⦃eq : Eq T⦄ (v : Vocabulary T) where
  -- The vocabulary's symbol of a token stands for that token.
  abbrev pub IsFaithful : Type ℓ
  IsFaithful = (t : T) → is_unknown (symbol v t) ≡ false → token v (symbol v t) ≡ some t

  -- The symbols stand for the tokens, in their order.
  abbrev pub Decodes : List T → List Symbol → List T → Type ℓ
  Decodes unknown_tokens ss ts = map (symbol_token v unknown_tokens) ss ≡ map some ts

  pub Decodes-length :
      (us : List T) (ss : List Symbol) (ts : List T) → Decodes us ss ts → length ss ≡ length ts
  Decodes-length us ss ts h =
      sym (length-map (symbol_token v us) ss) ∙ ap length h ∙ length-map some ts

  Decodes-snoc :
      (us : List T) (ss : List Symbol) (ts : List T) (s : Symbol) (t : T)
      → Decodes us ss ts
      → symbol_token v us s ≡ some t
      → Decodes us (ss ++ s ∷ []) (ts ++ t ∷ [])
  Decodes-snoc us ss ts s t h e =
      map-append (symbol_token v us) ss (s ∷ [])
      ∙ ap₂ (λ a b. a ++ b ∷ []) h e
      ∙ sym (map-append some ts (t ∷ []))

  pub symbol_token-known :
      (us : List T) (s : Symbol) (t : T) → token v s ≡ some t → symbol_token v us s ≡ some t
  unfolding symbol_token
  symbol_token-known us s t e = rw (symbol_token, e) refl

  -- One more unknown token leaves the others theirs.
  symbol_token-snoc :
      (us : List T) (u : T) (s : Symbol) (t : T)
      → symbol_token v us s ≡ some t
      → symbol_token v (us ++ u ∷ []) s ≡ some t
  unfolding symbol_token
  symbol_token-snoc us u s t e = elim (Option-cases (token v s)) [
    | inl n ↦ rw (symbol_token, n) (get_elem?-snoc us u (s - len v) t (rw (symbol_token, n) at e))
    | inr (w, k) ↦ rw (symbol_token, k) (rw (symbol_token, k) at e)
  ]

  Decodes-more :
      (us : List T) (u : T) (ss : List Symbol) (ts : List T)
      → Decodes us ss ts
      → Decodes (us ++ u ∷ []) ss ts
  Decodes-more us u [] [] h = refl
  Decodes-more us u [] (t ∷ ts) h = cc
  Decodes-more us u (s ∷ ss) [] h = cc
  Decodes-more us u (s ∷ ss) (t ∷ ts) h =
      ap₂ (λ a b. a ∷ b) (symbol_token-snoc us u s t (cons-head h))
        (Decodes-more us u ss ts (cons-tail h))

  symbol_token-fresh :
      (us : List T) (t : T)
      → len v + length us < unknown
      → symbol_token v (us ++ t ∷ []) (len v + length us) ≡ some t
  unfolding symbol_token token is_unknown len
  symbol_token-fresh us t h =
      rw
        (
          symbol_token,
          token,
          other (len v + length us) h,
          get_elem?-none v.tokens (len v + length us) (omega arith),
        )
        (get_elem?_of_length us t [] (len v + length us - len v) (omega arith))
    where
      other : (s : ℕ) → s < unknown → (s == unknown) ≡ false
      other s h = ground (arith, h)

  -- Each unknown token that has a symbol is the token of that symbol.
  abbrev AreNumbered : List T → List (T × Symbol) → Type ℓ
  AreNumbered us m = (t : T) (s : Symbol) → get m t ≡ some s → symbol_token v us s ≡ some t

  AreNumbered-put :
      (us : List T) (m : List (T × Symbol)) (t : T)
      → len v + length us < unknown
      → AreNumbered us m
      → AreNumbered (us ++ t ∷ []) (put m t (len v + length us))
  AreNumbered-put us m t small h u s e = elim (Bool-cases (eq.beq t u)) [
    | inl y ↦
        let here : len v + length us ≡ s =
          some-same (rw (get-put m t (len v + length us) u, y) at e) in
        subst (λ w. symbol_token v (us ++ t ∷ []) s ≡ some w) ((eq.beq_iff t u).0 y)
          (subst (λ k. symbol_token v (us ++ t ∷ []) k ≡ some t) here
            (symbol_token-fresh us t small))
    | inr n ↦ symbol_token-snoc us t s u (h u s (rw (get-put m t (len v + length us) u, n) at e))
  ]

  encode_tokens-Decodes :
      (faithful : IsFaithful) (ts done : List T) (string : List Symbol) (us : List T)
      (m : List (T × Symbol))
      → Decodes us string done
      → AreNumbered us m
      → len v + length us + length ts ≤ u32_max
      → (q : EncodedQuery T) × (encode_tokens v ts string us m ≡ ok q)
        × Decodes q.unknown_tokens q.string (done ++ ts)
  unfolding encode_tokens
  encode_tokens-Decodes faithful [] done string us m h a small =
      (_, refl, subst (Decodes us string) (sym (append-nil done)) h)
  encode_tokens-Decodes faithful (t ∷ ts) done string us m h a small =
      let next : (done ++ t ∷ []) ++ ts ≡ done ++ t ∷ ts = append_assoc done (t ∷ []) ts in
      elim (Bool-cases (is_unknown (symbol v t))) [
        | inr known ↦
            let (q, e, d) =
              encode_tokens-Decodes faithful ts (done ++ t ∷ []) (string ++ symbol v t ∷ []) us m
                (Decodes-snoc us string done (symbol v t) t h
                  (symbol_token-known us (symbol v t) t (faithful t known)))
                a (omega (arith, small)) in
            (q, rw (encode_tokens, known) e, subst (Decodes q.unknown_tokens q.string) next d)
        | inl new_one ↦ elim (Option-cases (get m t)) [
          | inr (s, seen) ↦
              let (q, e, d) =
                encode_tokens-Decodes faithful ts (done ++ t ∷ []) (string ++ s ∷ []) us m
                  (Decodes-snoc us string done s t h (a t s seen)) a (omega (arith, small)) in
              (
                q,
                rw (encode_tokens, new_one, seen) e,
                subst (Decodes q.unknown_tokens q.string) next d,
              )
          | inl fresh ↦
              let n = len v + length us in
              let lt : n < unknown = omega (arith, small) in
              let (q, e, d) =
                encode_tokens-Decodes faithful ts (done ++ t ∷ []) (string ++ n ∷ []) (us ++ t ∷ [])
                  (put m t n)
                  (Decodes-snoc (us ++ t ∷ []) string done n t (Decodes-more us t string done h)
                    (symbol_token-fresh us t lt))
                  (AreNumbered-put us m t lt a) (omega (arith, small, length-append us (t ∷ []))) in
              (
                q,
                rw
                    (
                      encode_tokens,
                      new_one,
                      fresh,
                      lt→ltb n usize_limit (omega (arith, lt)),
                      symbol_from_usize-of-lt n lt,
                    )
                    e,
                subst (Decodes q.unknown_tokens q.string) next d,
              )
        ]
      ]

  -- A query encodes unless the symbols run out, and its symbols stand for its tokens, in their
  -- order.
  pub new-Decodes :
      (faithful : IsFaithful) (query : List T)
      → len v + length query ≤ u32_max
      → (q : EncodedQuery T) × (new v query ≡ ok q) × Decodes q.unknown_tokens q.string query
  unfolding new get
  new-Decodes faithful query small =
      encode_tokens-Decodes faithful query [] [] [] [] refl (λ t s bad. absurd (none≢some bad))
        (omega (arith, small))
