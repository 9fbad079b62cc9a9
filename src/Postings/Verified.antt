-- ===== src/Postings/Verified.antt =====
-- src/postings.rs: an index whose entries are those of a corpus passes its verification.
use yurine.Prelude.{
  ℕ, suc, ◌+◌, ◌≤◌, ◌<◌, ◌≡◌, refl, sym, ap, subst, ◌∙◌, List, [], ◌∷◌, All, arith, true, ◌==◌,
  length, length-map, get_elem?, some, Bool-cases, inl, inr, ==→eq, ==_iff,
}
use mathlib.Core.Option.{some-injective}
use mathlib.Core.Path.{subst₂}
use yurine.Errors.{ok, slice}
use yurine.Types.{Symbol, Posting, u32_max, symbol_from_usize-of-lt}
use yurine.Storage.{as_slice, owned}
use yurine.Store.{CorpusStore, string_without_symbol_validation, symbol_len}
use yurine.Postings.{
  PostingsIndexBuilder, build, verify, verify_symbols, verify_postings, holds_symbol,
  is_strictly_ordered,
}
use yurine.Postings.Grouping.{Entry, entries_of, IsGrouped, dedup-sort-IsGrouped, All-dedup-sort}
use yurine.Postings.Offsets.{below, offsets_of, length-offsets_of, get_elem?-offsets_of}
use yurine.Postings.Slices.{of_symbol, postings_of, slice-below}
use yurine.Postings.Ordered.{AreDistinct, length-entries_of, is_strictly_ordered-of_symbol}

-- The corpus has the symbol of the entry at its position.
abbrev pub IsHeld : CorpusStore → Entry → Type 0
IsHeld corpus (symbol, p) =
    (string : List Symbol) × (string_without_symbol_validation corpus p.string_id
      ≡ ok (some string))
    × (get_elem? string p.position ≡ some symbol)

All-of_symbol :
    (P : Entry → Type 0) (s : Symbol) (es : List Entry)
    → All P es
    → All (λ p. P (s, p)) (of_symbol s es)
All-of_symbol P s [] all = tt
All-of_symbol P s (e ∷ es) (here, all) = elim (Bool-cases (e.0 == s)) [
  | inl y ↦ rw y (subst (λ t. P (t, e.1)) (==→eq e.0 s y) here, All-of_symbol P s es all)
  | inr n ↦ rw n (All-of_symbol P s es all)
]

holds_symbol-at :
    (string : List Symbol) (position symbol : ℕ)
    → get_elem? string position ≡ some symbol
    → holds_symbol string position symbol ≡ true
unfolding holds_symbol
holds_symbol-at string position symbol at_symbol =
    rw (holds_symbol, at_symbol) ((==_iff symbol symbol).1 refl)

module _ (corpus : CorpusStore) where
  verify_postings-ok :
      (symbol : Symbol) (ps : List Posting)
      → All (λ p. IsHeld corpus (symbol, p)) ps
      → verify_postings corpus symbol ps ≡ ok tt
  unfolding verify_postings
  verify_postings-ok symbol [] all = refl
  verify_postings-ok symbol (p ∷ ps) ((string, found, at_symbol), all) =
      rw (found, holds_symbol-at string p.position symbol at_symbol)
        (verify_postings-ok symbol ps all)

  verify_symbols-ok :
      (es : List Entry) (raw start : ℕ) (offsets : List ℕ)
      → IsGrouped es
      → ((s : Symbol) → is_strictly_ordered (of_symbol s es) ≡ true)
      → All (IsHeld corpus) es
      → raw + length offsets ≤ u32_max
      → ((k : ℕ) → k ≤ length offsets → get_elem? (start ∷ offsets) k ≡ some (below (raw + k) es))
      → verify_symbols corpus (postings_of es) raw start offsets ≡ ok tt
  unfolding verify_symbols
  verify_symbols-ok es raw start [] grouped ordered held small values = refl
  verify_symbols-ok es raw start (end ∷ offsets) grouped ordered held small values =
      let first : start ≡ below raw es =
        some-injective start (below (raw + 0) es) (values 0 (omega arith))
        ∙ ap (λ k. below k es) (omega arith) in
      let second : end ≡ below (suc raw) es =
        some-injective end (below (raw + 1) es) (values 1 (omega arith))
        ∙ ap (λ k. below k es) (omega arith) in
      let rest =
        verify_symbols-ok es (suc raw) end offsets grouped ordered held (omega (arith, small))
          (λ k h. values (suc k) (omega (arith, h)) ∙ ap (λ i. some (below i es)) (omega arith)) in
      let cut : slice (postings_of es) start end ≡ ok (of_symbol raw es) =
        subst₂ (λ a b. slice (postings_of es) a b ≡ ok (of_symbol raw es)) (sym first) (sym second)
          (slice-below raw es grouped) in
      rw
        (
          symbol_from_usize-of-lt raw (omega (arith, small)),
          cut,
          ordered raw,
          verify_postings-ok raw (of_symbol raw es) (All-of_symbol (IsHeld corpus) raw es held),
        )
        rest

  laid_out-verify :
      (es : List Entry) (count : ℕ) (offsets : List ℕ)
      → IsGrouped es
      → ((s : Symbol) → is_strictly_ordered (of_symbol s es) ≡ true)
      → All (IsHeld corpus) es
      → count ≤ u32_max
      → length es ≡ symbol_len corpus
      → length offsets ≡ count + 1
      → ((k : ℕ) → k ≤ count → get_elem? offsets k ≡ some (below k es))
      → verify
          (record { postings = owned (postings_of es); posting_offsets = owned offsets })
          corpus
        ≡ ok tt
  unfolding verify as_slice
  laid_out-verify es count [] grouped ordered held small counted len values =
      absurd (omega (arith, len))
  laid_out-verify es count (start ∷ rest) grouped ordered held small counted len values =
      let same : (length (postings_of es) == symbol_len corpus) ≡ true =
        (==_iff (length (postings_of es)) (symbol_len corpus)).1
          (length-map (λ e. e.1) es ∙ counted) in
      rw same (
        verify_symbols-ok es 0 start rest grouped ordered held (omega (arith, len, small))
          (λ k h. values k (omega (arith, h, len)) ∙ ap (λ i. some (below i es)) (omega arith)))

  -- Where the entries are different, their symbols are counted by 32 bits, and the corpus has as many
  -- symbols as there are entries, each at its position, the index that is laid out passes.
  pub verify-build :
      (b : PostingsIndexBuilder)
      → AreDistinct b.postings
      → b.symbol_count ≤ u32_max
      → All (λ e. e.0 < b.symbol_count) b.postings
      → All (IsHeld corpus) b.postings
      → length b.postings ≡ symbol_len corpus
      → verify (build b) corpus ≡ ok tt
  unfolding build
  verify-build b distinct small low held counted =
      let es = entries_of b.postings in
      let inside = All-dedup-sort (λ e. e.0 < b.symbol_count) b.postings low in
      laid_out-verify es b.symbol_count (offsets_of b.symbol_count es)
        (dedup-sort-IsGrouped b.postings) (λ s. is_strictly_ordered-of_symbol s b.postings)
        (All-dedup-sort (IsHeld corpus) b.postings held) small
        (length-entries_of b.postings distinct ∙ counted) (length-offsets_of b.symbol_count es)
        (λ k h. get_elem?-offsets_of b.symbol_count k es inside h)
