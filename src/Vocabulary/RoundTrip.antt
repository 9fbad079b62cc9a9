-- ===== src/Vocabulary/RoundTrip.antt =====
-- src/vocabulary.rs: the tokens of a vocabulary that is built and their symbols stand for each other.
use yurine.Prelude.{
  ℕ, zero, suc, ◌+◌, ◌<◌, ◌≡◌, ◌≢◌, refl, sym, ap, subst, ◌∙◌, List, [], ◌∷◌, ◌++◌, arith, some,
  none, get_elem?, get_elem?_of_length, All, Eq, Bool-cases, Option-cases, inl, inr, ◌==◌, false,
  length, none≢some,
}
use yurine.Errors.{ok, >>=-eq-ok, ok-injective}
use yurine.Types.{Symbol, unknown, is_unknown, u32_max}
use yurine.Map.{get, put, get-put, unwrap_or}
use yurine.Vocabulary.{
  VocabularyBuilder, Vocabulary, new, insert, insert_all, build, symbol, token, number_tokens,
  sort_by,
}
use yurine.Vocabulary.Numbering.{
  IsDistinct, sort_by-IsDistinct, sort_by-keeps, beq_refl, number_tokens-at, number_tokens-only,
}

unknown_known : (unknown == unknown) ≡ false → ⊥
unknown_known h = ground (arith, h)

module _ {ℓ} {T : Type ℓ} where
  All-snoc : (P : T → Type ℓ) (xs : List T) (a : T) → All P xs → P a → All P (xs ++ a ∷ [])
  All-snoc P [] a h p = (p, tt)
  All-snoc P (x ∷ xs) a h p = (h.0, All-snoc P xs a h.1 p)

  IsDistinct-snoc :
      (xs : List T) (a : T) → IsDistinct xs → All (λ u. u ≢ a) xs → IsDistinct (xs ++ a ∷ [])
  IsDistinct-snoc [] a d h = (tt, tt)
  IsDistinct-snoc (x ∷ xs) a d h =
      (All-snoc (λ u. x ≢ u) xs a d.0 h.0, IsDistinct-snoc xs a d.1 h.1)

  get_elem?-snoc :
      (xs : List T) (a : T) (i : ℕ) (t : T)
      → get_elem? xs i ≡ some t
      → get_elem? (xs ++ a ∷ []) i ≡ some t
  get_elem?-snoc [] a i t e = cc
  get_elem?-snoc (x ∷ xs) a zero t e = e
  get_elem?-snoc (x ∷ xs) a (suc i) t e = get_elem?-snoc xs a i t e

module _ {ℓ} {T : Type ℓ} ⦃eq : Eq T⦄ where
  -- The tokens are distinct, and they are those that have a frequency.
  pub record IsCounted (b : VocabularyBuilder T) : Type ℓ where
    pub distinct : IsDistinct b.tokens
    pub counted :
        (t : T) (f : ℕ) → get b.frequencies t ≡ some f → (i : ℕ) × (get_elem? b.tokens i ≡ some t)
    pub uncounted : (t : T) → get b.frequencies t ≡ none → All (λ u. u ≢ t) b.tokens

  pub new-IsCounted : IsCounted new
  unfolding new get
  new-IsCounted = record {
    distinct = tt;
    counted = λ t f e. absurd (none≢some e);
    uncounted = λ t e. tt;
  }

  put-none : (m : List (T × ℕ)) (k : T) (v : ℕ) (t : T) → get (put m k v) t ≡ none → get m t ≡ none
  put-none m k v t e = elim (Bool-cases (eq.beq k t)) [
    | inl y ↦ absurd (none≢some (sym (rw (get-put m k v t, y) at e)))
    | inr n ↦ rw (get-put m k v t, n) at e
  ]

  put-other : (m : List (T × ℕ)) (k : T) (v : ℕ) (t : T) → get (put m k v) t ≡ none → k ≢ t
  put-other m k v t e same =
      absurd (none≢some (sym (rw (get-put m k v t, (eq.beq_iff k t).1 same) at e)))

  insert-IsCounted : (b : VocabularyBuilder T) (k : T) → IsCounted b → IsCounted (insert b k)
  unfolding insert
  insert-IsCounted b k h = elim (Option-cases (get b.frequencies k)) [
    | inr (f, e) ↦
        rw (insert, e)
          (record {
            distinct = h.distinct;
            counted = λ t g e'. elim (Bool-cases (eq.beq k t)) [
              | inl y ↦
                  subst (λ w. (i : ℕ) × (get_elem? b.tokens i ≡ some w)) ((eq.beq_iff k t).0 y)
                    (h.counted k f e)
              | inr n ↦ h.counted t g (rw (get-put b.frequencies k (f + 1) t, n) at e')
            ];
            uncounted = λ t e'. h.uncounted t (put-none b.frequencies k (f + 1) t e');
          })
    | inl e ↦
        rw (insert, e)
          (record {
            distinct = IsDistinct-snoc b.tokens k h.distinct (h.uncounted k e);
            counted = λ t g e'. elim (Bool-cases (eq.beq k t)) [
              | inl y ↦ (
                length b.tokens,
                get_elem?_of_length b.tokens k [] (length b.tokens) refl
                    ∙ ap some ((eq.beq_iff k t).0 y),
              )
              | inr n ↦
                  let (i, at) = h.counted t g (rw (get-put b.frequencies k 1 t, n) at e') in
                  (i, get_elem?-snoc b.tokens k i t at)
            ];
            uncounted = λ t e'.
                All-snoc (λ u. u ≢ t) b.tokens k (h.uncounted t (put-none b.frequencies k 1 t e'))
                  (put-other b.frequencies k 1 t e');
          })
  ]

  pub insert_all-IsCounted :
      (b : VocabularyBuilder T) (ts : List T) → IsCounted b → IsCounted (insert_all b ts)
  unfolding insert_all
  insert_all-IsCounted b [] h = h
  insert_all-IsCounted b (t ∷ ts) h = insert_all-IsCounted (insert b t) ts (insert-IsCounted b t h)

  -- The index of a token is its symbol.
  build-at :
      (b : VocabularyBuilder T) (v : Vocabulary T) (i : ℕ) (t : T)
      → IsCounted b
      → build b ≡ ok v
      → get_elem? v.tokens i ≡ some t
      → (symbol v t ≡ i) × (i < u32_max)
  unfolding build symbol
  build-at b v i t h e at =
      let key : T → ℕ = λ u. unwrap_or (get b.frequencies u) 0 in
      let (symbols, e1, r1) = >>=-eq-ok (number_tokens 0 (sort_by key b.tokens) []) _ e in
      let same = ok-injective r1 in
      let at' : get_elem? (sort_by key b.tokens) i ≡ some t =
        subst (λ w. get_elem? w.tokens i ≡ some t) (sym same) at in
      let (found, small) =
        number_tokens-at 0 (sort_by key b.tokens) [] symbols i t e1
          (sort_by-IsDistinct key b.tokens h.distinct) at' in
      (
        subst (λ w. unwrap_or (get w.symbols t) unknown ≡ i) same (rw found (omega arith)),
        omega (arith, small),
      )

  -- In a vocabulary built from tokens, the token of a symbol has that symbol.
  pub symbol-token :
      (ts : List T) (v : Vocabulary T) (s : Symbol) (t : T)
      → build (insert_all new ts) ≡ ok v
      → token v s ≡ some t
      → symbol v t ≡ s
  unfolding token is_unknown
  symbol-token ts v s t e f = elim (Bool-cases (s == unknown)) [
    | inl y ↦ cc (rw y at f)
    | inr n ↦
        (build-at (insert_all new ts) v s t (insert_all-IsCounted new ts new-IsCounted) e
          (rw n at f)).0
  ]

  abbrev HasFrequency : VocabularyBuilder T → T → Type 0
  HasFrequency b t = (f : ℕ) × (get b.frequencies t ≡ some f)

  put-keeps :
      (m : List (T × ℕ)) (k : T) (v : ℕ) (t : T)
      → ((f : ℕ) × (get m t ≡ some f))
      → (f : ℕ) × (get (put m k v) t ≡ some f)
  put-keeps m k v t (f, e) = elim (Bool-cases (eq.beq k t)) [
    | inl y ↦ (v, rw (get-put m k v t, y) refl)
    | inr n ↦ (f, rw (get-put m k v t, n) e)
  ]

  put-new : (m : List (T × ℕ)) (k : T) (v : ℕ) → (f : ℕ) × (get (put m k v) k ≡ some f)
  put-new m k v = (v, rw (get-put m k v k, beq_refl k) refl)

  insert-HasFrequency :
      (b : VocabularyBuilder T) (k t : T) → HasFrequency b t → HasFrequency (insert b k) t
  unfolding insert
  insert-HasFrequency b k t h = elim (Option-cases (get b.frequencies k)) [
    | inr (f, e) ↦ rw (insert, e) (put-keeps b.frequencies k (f + 1) t h)
    | inl e ↦ rw (insert, e) (put-keeps b.frequencies k 1 t h)
  ]

  insert-new : (b : VocabularyBuilder T) (k : T) → HasFrequency (insert b k) k
  unfolding insert
  insert-new b k = elim (Option-cases (get b.frequencies k)) [
    | inr (f, e) ↦ rw (insert, e) (put-new b.frequencies k (f + 1))
    | inl e ↦ rw (insert, e) (put-new b.frequencies k 1)
  ]

  insert_all-keeps :
      (b : VocabularyBuilder T) (ts : List T) (t : T)
      → HasFrequency b t
      → HasFrequency (insert_all b ts) t
  unfolding insert_all
  insert_all-keeps b [] t h = h
  insert_all-keeps b (u ∷ us) t h = insert_all-keeps (insert b u) us t (insert-HasFrequency b u t h)

  insert_all-HasFrequency :
      (b : VocabularyBuilder T) (ts : List T) (i : ℕ) (t : T)
      → get_elem? ts i ≡ some t
      → HasFrequency (insert_all b ts) t
  unfolding insert_all
  insert_all-HasFrequency b [] i t e = cc
  insert_all-HasFrequency b (u ∷ us) zero t e =
      let same : u ≡ t = cc in
      insert_all-keeps (insert b u) us t (subst (HasFrequency (insert b u)) same (insert-new b u))
  insert_all-HasFrequency b (u ∷ us) (suc i) t e = insert_all-HasFrequency (insert b u) us i t e

  build-tokens :
      (b : VocabularyBuilder T) (v : Vocabulary T) (i : ℕ) (t : T)
      → build b ≡ ok v
      → get_elem? b.tokens i ≡ some t
      → (j : ℕ) × (get_elem? v.tokens j ≡ some t)
  unfolding build
  build-tokens b v i t e at =
      let key : T → ℕ = λ u. unwrap_or (get b.frequencies u) 0 in
      let (symbols, e1, r1) = >>=-eq-ok (number_tokens 0 (sort_by key b.tokens) []) _ e in
      subst (λ w. (j : ℕ) × (get_elem? w.tokens j ≡ some t)) (ok-injective r1)
        (sort_by-keeps key b.tokens i t at)

  token-at :
      (v : Vocabulary T) (s : Symbol) (t : T)
      → s < unknown
      → get_elem? v.tokens s ≡ some t
      → token v s ≡ some t
  unfolding token is_unknown
  token-at v s t h e = rw (other s h, e) refl
    where
      other : (s : ℕ) → s < unknown → (s == unknown) ≡ false
      other s h = ground (arith, h)

  -- In a vocabulary built from tokens, the symbol of each of them stands for it.
  pub token-symbol :
      (ts : List T) (v : Vocabulary T) (i : ℕ) (t : T)
      → build (insert_all new ts) ≡ ok v
      → get_elem? ts i ≡ some t
      → token v (symbol v t) ≡ some t
  token-symbol ts v i t e at =
      let h = insert_all-IsCounted new ts new-IsCounted in
      let (f, has) = insert_all-HasFrequency new ts i t at in
      let (j, at_tokens) = h.counted t f has in
      let (k, at_v) = build-tokens (insert_all new ts) v j t e at_tokens in
      let (is_k, small) = build-at (insert_all new ts) v k t h e at_v in
      subst (λ s. token v s ≡ some t) (sym is_k) (token-at v k t small at_v)

  met :
      (b : VocabularyBuilder T) (v : Vocabulary T) (t : T)
      → build b ≡ ok v
      → is_unknown (symbol v t) ≡ false
      → (i : ℕ) × (get_elem? v.tokens i ≡ some t)
  unfolding build symbol get is_unknown
  met b v t e known =
      let key : T → ℕ = λ u. unwrap_or (get b.frequencies u) 0 in
      let (symbols, e1, r1) = >>=-eq-ok (number_tokens 0 (sort_by key b.tokens) []) _ e in
      let same = ok-injective r1 in
      let known' : (unwrap_or (get symbols t) unknown == unknown) ≡ false =
        subst (λ w. (unwrap_or (get w.symbols t) unknown == unknown) ≡ false) (sym same) known in
      subst (λ w. (i : ℕ) × (get_elem? w.tokens i ≡ some t)) same
        (elim (Option-cases (get symbols t)) [
          | inl nothing ↦ absurd (unknown_known (rw nothing at known'))
          | inr (s, found) ↦
              elim (number_tokens-only 0 (sort_by key b.tokens) [] symbols t s e1 found) [
                | inl there ↦ there
                | inr bad ↦ absurd (none≢some bad)
              ]
        ])

  -- The vocabulary of counted tokens: a token that has a symbol is the token of that symbol.
  pub build-IsFaithful :
      (b : VocabularyBuilder T) (v : Vocabulary T) (t : T)
      → IsCounted b
      → build b ≡ ok v
      → is_unknown (symbol v t) ≡ false
      → token v (symbol v t) ≡ some t
  build-IsFaithful b v t h e known =
      let (i, at) = met b v t e known in
      let (is_i, small) = build-at b v i t h e at in
      subst (λ s. token v s ≡ some t) (sym is_i) (token-at v i t small at)
