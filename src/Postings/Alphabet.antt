-- ===== src/Postings/Alphabet.antt =====
-- src/postings.rs: the alphabet has every symbol that has a posting.
use yurine.Prelude.{
  ℕ, zero, suc, ◌+◌, ◌<◌, ◌≡◌, refl, ap, ◌∙◌, sym, subst, List, [], ◌∷◌, ◌∈◌, inl, inr, All, arith,
  ◌==◌, ◌≤◌, length, map, get_elem?, some, Bool-cases, ==→eq,
}
use yurine.Errors.{ok, unwrap, >>=-eq-ok, ok-injective}
use yurine.Types.{Symbol, symbol_from_usize}
use yurine.Storage.{as_slice, owned}
use yurine.Postings.{PostingsIndex, PostingsIndexBuilder, alphabet, alphabet_from, build}
use yurine.Postings.Grouping.{Entry, entries_of, All-dedup-sort}
use yurine.Postings.Slices.{below_mono}
use yurine.Postings.Offsets.{below, offsets_of, length-offsets_of, get_elem?-offsets_of}

unwrap-symbol : (raw s : ℕ) → unwrap (symbol_from_usize raw) ≡ ok s → s ≡ raw
unfolding symbol_from_usize
unwrap-symbol raw s e = ground arith

next : (raw k : ℕ) → suc raw + k ≡ raw + suc k
next raw k = omega arith

-- A window of different offsets gives its symbol.
alphabet_from-has :
    (raw start : ℕ) (offsets : List ℕ) (symbols : List Symbol) (k a b : ℕ)
    → alphabet_from raw start offsets ≡ ok symbols
    → get_elem? (start ∷ offsets) k ≡ some a
    → get_elem? offsets k ≡ some b
    → a < b
    → (raw + k) ∈ symbols
unfolding alphabet_from
alphabet_from-has raw start [] symbols k a b e ga gb h = cc
alphabet_from-has raw start (end ∷ offsets) symbols zero a b e ga gb h =
    elim (Bool-cases (start == end)) [
      | inl same ↦
          let x : start ≡ a = cc in
          let y : end ≡ b = cc in absurd (omega (arith, x, y, h, ==→eq start end same))
      | inr other ↦
          let (s, e1, r1) = >>=-eq-ok (unwrap (symbol_from_usize raw)) _ (rw other at e) in
          let (more, e2, r2) = >>=-eq-ok (alphabet_from (suc raw) end offsets) _ r1 in
          subst (λ t. (raw + 0) ∈ t) (ok-injective r2) (inl (omega (arith, unwrap-symbol raw s e1)))
    ]
alphabet_from-has raw start (end ∷ offsets) symbols (suc k) a b e ga gb h =
    elim (Bool-cases (start == end)) [
      | inl same ↦
          subst (λ t. t ∈ symbols) (next raw k)
            (alphabet_from-has (suc raw) end offsets symbols k a b (rw same at e) ga gb h)
      | inr other ↦
          let (s, e1, r1) = >>=-eq-ok (unwrap (symbol_from_usize raw)) _ (rw other at e) in
          let (more, e2, r2) = >>=-eq-ok (alphabet_from (suc raw) end offsets) _ r1 in
          subst (λ t. (raw + suc k) ∈ t) (ok-injective r2)
            (inr (
              subst (λ t. t ∈ more) (next raw k)
                (alphabet_from-has (suc raw) end offsets more k a b e2 ga gb h)))
    ]

below-lt :
    (s : Symbol) (e : Entry) (es : List Entry) → e.0 ≡ s → e ∈ es → below s es < below (suc s) es
below-lt s e [] h i = absurd i
below-lt s e (f ∷ fs) h (inl same) =
    let f0 : f.0 ≡ s = ap (λ t. t.0) (sym same) ∙ h in
    let mono = below_mono s fs in ground (arith, f0, mono)
below-lt s e (f ∷ fs) h (inr i) = ground (arith, below-lt s e fs h i)

-- Where the entries' symbols are counted, the alphabet that an index returns has the symbol of every
-- entry.
pub alphabet-has :
    (b : PostingsIndexBuilder) (symbols : List Symbol) (e : Entry)
    → All (λ f. f.0 < b.symbol_count) b.postings
    → alphabet (build b) ≡ ok symbols
    → e ∈ entries_of b.postings
    → e.0 < b.symbol_count
    → e.0 ∈ symbols
unfolding alphabet build as_slice
alphabet-has b symbols e a h i lt =
    let es = entries_of b.postings in
    let inside = All-dedup-sort (λ f. f.0 < b.symbol_count) b.postings a in
    let start = get_elem?-offsets_of b.symbol_count e.0 es inside (omega (arith, lt)) in
    let end = get_elem?-offsets_of b.symbol_count (suc e.0) es inside (omega (arith, lt)) in
    from (offsets_of b.symbol_count es) h start end (below-lt e.0 e es refl i)
  where
    from :
        (offsets : List ℕ) {x y : ℕ}
        → (elim offsets [ [] ↦ ok [] | start ∷ more ↦ alphabet_from 0 start more ]) ≡ ok symbols
        → get_elem? offsets e.0 ≡ some x
        → get_elem? offsets (suc e.0) ≡ some y
        → x < y
        → e.0 ∈ symbols
    from [] h' gx gy l = cc
    from (start ∷ more) h' gx gy l =
        subst (λ t. t ∈ symbols) (omega arith)
          (alphabet_from-has 0 start more symbols e.0 _ _ h' gx gy l)

alphabet_from-below :
    (raw start : ℕ) (offsets : List ℕ) (symbols : List Symbol) (count : ℕ)
    → alphabet_from raw start offsets ≡ ok symbols
    → raw + length offsets ≤ count
    → All (λ s. s < count) symbols
unfolding alphabet_from
alphabet_from-below raw start [] symbols count e h =
    subst (All (λ s. s < count)) (ok-injective e) tt
alphabet_from-below raw start (end ∷ offsets) symbols count e h = elim (Bool-cases (start == end)) [
  | inl same ↦
      alphabet_from-below (suc raw) end offsets symbols count (rw same at e) (omega (arith, h))
  | inr other ↦
      let (s, e1, r1) = >>=-eq-ok (unwrap (symbol_from_usize raw)) _ (rw other at e) in
      let (more, e2, r2) = >>=-eq-ok (alphabet_from (suc raw) end offsets) _ r1 in
      subst (All (λ t. t < count)) (ok-injective r2) (
        omega (arith, unwrap-symbol raw s e1, h),
        alphabet_from-below (suc raw) end offsets more count e2 (omega (arith, h)),
      )
]

-- The symbols of the alphabet are those that are counted.
pub alphabet-below :
    (b : PostingsIndexBuilder) (symbols : List Symbol)
    → alphabet (build b) ≡ ok symbols
    → All (λ s. s < b.symbol_count) symbols
unfolding alphabet build as_slice
alphabet-below b symbols e =
    from (offsets_of b.symbol_count (entries_of b.postings))
      (length-offsets_of b.symbol_count (entries_of b.postings)) (offsets_alphabet e)
  where
    laid : List ℕ → PostingsIndex
    laid offsets = record {
      postings = owned (map (λ e. e.1) (entries_of b.postings));
      posting_offsets = owned offsets;
    }

    offsets_alphabet :
        alphabet (build b) ≡ ok symbols
        → alphabet (laid (offsets_of b.symbol_count (entries_of b.postings))) ≡ ok symbols
    offsets_alphabet h = h

    from :
        (offsets : List ℕ)
        → length offsets ≡ b.symbol_count + 1
        → alphabet (laid offsets) ≡ ok symbols
        → All (λ s. s < b.symbol_count) symbols
    from [] len h = absurd (omega (arith, len))
    from (start ∷ offsets) len h =
        alphabet_from-below 0 start offsets symbols b.symbol_count h (omega (arith, len))
