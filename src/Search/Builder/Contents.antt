-- ===== src/Search/Builder/Contents.antt =====
-- src/search/builder.rs: what the loops of `build` put into the store and into the postings.
use mathlib.Core.List.{append_assoc, append-nil}
use mathlib.Core.Path.{subst₂}
use yurine.Prelude.{
  ℕ, zero, suc, ◌+◌, ◌≤◌, ◌<◌, ◌≡◌, refl, ap, ap₂, subst, ◌∙◌, sym, List, [], ◌∷◌, ◌++◌, ◌∈◌, inl,
  inr, arith, leb, length, get_elem?, map, some, Bool-cases, All, Eq, ◌||◌, leb→lt, false, ◌⊎◌,
  Bool,
}
use yurine.Errors.{ok, >>=-eq-ok, ok-injective}
use yurine.Types.{
  Symbol, Posting, SequenceId, u32_max, is_unknown, position_from_usize, sequence_id_from_usize,
  symbol_from_usize,
}
use yurine.Vocabulary.{Vocabulary, encode, number_tokens}
use yurine.Store.{CorpusStoreBuilder, add_string}
use yurine.Store.Strings.{add_strings}
use yurine.Postings.{PostingsIndexBuilder, add_posting}
use yurine.Postings.Grouping.{Entry}
use yurine.Search.Builder.{add_postings, add_sequences}

position-same : (p q : ℕ) → position_from_usize p ≡ ok q → q ≡ p
unfolding position_from_usize
position-same p q e = ground arith

id-same : (p q : ℕ) → sequence_id_from_usize p ≡ ok q → (q ≡ p) × (p ≤ u32_max)
unfolding sequence_id_from_usize
id-same p q e = ground arith

symbol-below : (p q : ℕ) → symbol_from_usize p ≡ ok q → p < u32_max
unfolding symbol_from_usize
symbol-below p q e = ground arith

-- The entries of one string from a position on, and of the strings from an identifier on.
abbrev pub entries_from : SequenceId → ℕ → List Symbol → List Entry
entries_from id raw [] = []
entries_from id raw (s ∷ ss) =
    (s, record { string_id = id; position = raw }) ∷ entries_from id (suc raw) ss

abbrev pub all_entries : ℕ → List (List Symbol) → List Entry
all_entries raw [] = []
all_entries raw (string ∷ strings) = entries_from raw 0 string ++ all_entries (suc raw) strings

add_posting-ok :
    (b b' : PostingsIndexBuilder) (s : Symbol) (p : Posting)
    → add_posting b s p ≡ ok b'
    → (b'.symbol_count ≡ b.symbol_count)
      × (b'.postings ≡ b.postings ++ (s, p) ∷ [])
      × (s < b.symbol_count)
unfolding add_posting is_unknown
add_posting-ok b b' s p e = elim (Bool-cases (is_unknown s || leb b.symbol_count s)) [
  | inl bad ↦ cc (rw bad at e)
  | inr good ↦
      let same = ok-injective (rw good at e) in
      (
        ap (λ t. t.symbol_count) (sym same),
        ap (λ t. t.postings) (sym same),
        leb→lt b.symbol_count s (or-right (is_unknown s) _ good),
      )
]
  where
    or-right : (a c : Bool) → (a || c) ≡ false → c ≡ false
    or-right a c h = ground arith

add_postings-ok :
    (id raw : ℕ) (string : List Symbol) (b b' : PostingsIndexBuilder)
    → add_postings id raw string b ≡ ok b'
    → (b'.symbol_count ≡ b.symbol_count)
      × (b'.postings ≡ b.postings ++ entries_from id raw string)
      × All (λ s. s < b.symbol_count) string
unfolding add_postings
add_postings-ok id raw [] b b' e =
    let same = ok-injective e in
    (
      ap (λ t. t.symbol_count) (sym same),
      ap (λ t. t.postings) (sym same) ∙ sym (append-nil b.postings),
      tt,
    )
add_postings-ok id raw (s ∷ string) b b' e =
    let (p, e1, r1) = >>=-eq-ok (position_from_usize raw) _ e in
    let (c, e2, r2) = >>=-eq-ok (add_posting b s (record { string_id = id; position = p })) _ r1 in
    let (c1, c2, c3) = add_posting-ok b c s _ e2 in
    let (d1, d2, d3) = add_postings-ok id (suc raw) string c b' r2 in
    (
      d1 ∙ c1,
      d2
          ∙ ap (λ t. t ++ entries_from id (suc raw) string) c2
          ∙ append_assoc b.postings ((s, record { string_id = id; position = p }) ∷ []) _
          ∙ ap
              (λ t.
                b.postings
                ++ (s, record { string_id = id; position = t }) ∷ entries_from id (suc raw) string)
              (position-same raw p e1),
      (c3, subst (λ n. All (λ t. t < n) string) c1 d3),
    )

module _ {ℓ} {T : Type ℓ} ⦃eq : Eq T⦄ (v : Vocabulary T) where
  pub add_sequences-ok :
      (raw : ℕ) (sequences : List (List T)) (index : PostingsIndexBuilder)
      (store : CorpusStoreBuilder) (parts : PostingsIndexBuilder × CorpusStoreBuilder)
      → add_sequences v raw sequences index store ≡ ok parts
      → (parts.0.symbol_count ≡ index.symbol_count)
        × (parts.0.postings ≡ index.postings ++ all_entries raw (map (encode v) sequences))
        × (parts.1 ≡ add_strings store (map (encode v) sequences))
        × All (All (λ s. s < index.symbol_count)) (map (encode v) sequences)
        × ((sequences ≡ []) ⊎ (raw + length sequences ≤ suc u32_max))
  unfolding add_sequences add_strings
  add_sequences-ok raw [] index store parts e =
      let same = ok-injective e in
      (
        ap (λ t. t.0.symbol_count) (sym same),
        ap (λ t. t.0.postings) (sym same) ∙ sym (append-nil index.postings),
        ap (λ t. t.1) (sym same),
        tt,
        inl refl,
      )
  add_sequences-ok raw (sequence ∷ sequences) index store parts e =
      let (id, e1, r1) = >>=-eq-ok (sequence_id_from_usize raw) _ e in
      let string = encode v sequence in
      let (index', e2, r2) = >>=-eq-ok (add_postings id 0 string index) _ r1 in
      let (same, small) = id-same raw id e1 in
      let (c1, c2, c3) = add_postings-ok id 0 string index index' e2 in
      let (d1, d2, d3, d4, d5) =
        add_sequences-ok (suc raw) sequences index' (add_string store string) parts r2 in
      (
        d1 ∙ c1,
        d2
            ∙ ap (λ t. t ++ all_entries (suc raw) (map (encode v) sequences)) c2
            ∙ append_assoc index.postings (entries_from id 0 string)
                (all_entries (suc raw) (map (encode v) sequences))
            ∙ ap
                (λ t.
                  index.postings
                  ++ (entries_from t 0 string ++ all_entries (suc raw) (map (encode v) sequences)))
                same,
        d3,
        (c3, subst (λ n. All (All (λ t. t < n)) (map (encode v) sequences)) c1 d4),
        inr (elim d5 [
          | inl none_left ↦
              subst (λ l. raw + suc (length l) ≤ suc u32_max) (sym none_left) (omega (arith, small))
          | inr more ↦ omega (arith, more)
        ]),
      )

  pub number_tokens-bound :
      (index : ℕ) (tokens : List T) (m m' : List (T × Symbol))
      → number_tokens index tokens m ≡ ok m'
      → index ≤ u32_max
      → index + length tokens ≤ u32_max
  unfolding number_tokens
  number_tokens-bound index [] m m' e h = omega (arith, h)
  number_tokens-bound index (t ∷ tokens) m m' e h =
      let (s, e1, r1) = >>=-eq-ok (symbol_from_usize index) _ e in
      let lt = symbol-below index s e1 in
      omega (arith, number_tokens-bound (suc index) tokens _ m' r1 (omega (arith, lt)))

∈-right : (e : Entry) (xs ys : List Entry) → e ∈ ys → e ∈ (xs ++ ys)
∈-right e [] ys h = h
∈-right e (x ∷ xs) ys h = inr (∈-right e xs ys h)

∈-left : (e : Entry) (xs ys : List Entry) → e ∈ xs → e ∈ (xs ++ ys)
∈-left e [] ys h = absurd h
∈-left e (x ∷ xs) ys (inl h) = inl h
∈-left e (x ∷ xs) ys (inr h) = inr (∈-left e xs ys h)

pub All-append : (P : Entry → Type 0) (xs ys : List Entry) → All P xs → All P ys → All P (xs ++ ys)
All-append P [] ys a b = b
All-append P (x ∷ xs) ys a b = (a.0, All-append P xs ys a.1 b)

-- Every symbol of every string has its entry.
entries_from-has :
    (id raw : ℕ) (string : List Symbol) (j k : ℕ) (s : Symbol)
    → raw + j ≡ k
    → get_elem? string j ≡ some s
    → (s, record { string_id = id; position = k }) ∈ entries_from id raw string
entries_from-has id raw [] j k s h e = cc
entries_from-has id raw (t ∷ string) zero k s h e =
    let same : t ≡ s = cc in
    inl (ap₂ (λ a b. (a, record { string_id = id; position = b })) (sym same) (omega (arith, h)))
entries_from-has id raw (t ∷ string) (suc j) k s h e =
    inr (entries_from-has id (suc raw) string j k s (omega (arith, h)) e)

pub all_entries-has :
    (raw : ℕ) (strings : List (List Symbol)) (i id j : ℕ) (string : List Symbol) (s : Symbol)
    → raw + i ≡ id
    → get_elem? strings i ≡ some string
    → get_elem? string j ≡ some s
    → (s, record { string_id = id; position = j }) ∈ all_entries raw strings
all_entries-has raw [] i id j string s h e f = cc
all_entries-has raw (u ∷ strings) zero id j string s h e f =
    let same : u ≡ string = cc in
    ∈-left _ (entries_from raw 0 u) _ (
      subst (λ t. (s, record { string_id = t; position = j }) ∈ entries_from raw 0 u)
        (omega (arith, h))
        (entries_from-has raw 0 u j j s (omega arith)
          (subst (λ t. get_elem? t j ≡ some s) (sym same) f)))
all_entries-has raw (u ∷ strings) (suc i) id j string s h e f =
    ∈-right _ (entries_from raw 0 u) _
      (all_entries-has (suc raw) strings i id j string s (omega (arith, h)) e f)

-- Every entry is that of a symbol of a string.
pub All-entries_from :
    (P : Entry → Type 0) (id raw : ℕ) (string : List Symbol)
    → ((j : ℕ) (s : Symbol)
        → get_elem? string j ≡ some s
        → P (s, record { string_id = id; position = raw + j }))
    → All P (entries_from id raw string)
All-entries_from P id raw [] h = tt
All-entries_from P id raw (t ∷ string) h = (
  subst (λ n. P (t, record { string_id = id; position = n })) (omega arith) (h 0 t refl),
  All-entries_from P id (suc raw) string (λ j s e.
      subst (λ n. P (s, record { string_id = id; position = n })) (omega arith) (h (suc j) s e)),
)

pub All-all_entries :
    (P : Entry → Type 0) (raw : ℕ) (strings : List (List Symbol))
    → ((i j : ℕ) (string : List Symbol) (s : Symbol)
        → get_elem? strings i ≡ some string
        → get_elem? string j ≡ some s
        → P (s, record { string_id = raw + i; position = j }))
    → All P (all_entries raw strings)
All-all_entries P raw [] h = tt
All-all_entries P raw (u ∷ strings) h =
    All-append P (entries_from raw 0 u) _
      (All-entries_from P raw 0 u (λ j s e.
        subst₂ (λ m n. P (s, record { string_id = m; position = n })) (omega arith) (omega arith)
          (h 0 j u s refl e)))
      (All-all_entries P (suc raw) strings (λ i j string s e f.
        subst (λ n. P (s, record { string_id = n; position = j })) (omega arith)
          (h (suc i) j string s e f)))
