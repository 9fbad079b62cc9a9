-- ===== src/Vocabulary/Decoding.antt =====
-- src/vocabulary.rs: the tokens of a built vocabulary are numbered alike when they are decoded.
use yurine.Prelude.{ℕ, suc, ◌≡◌, ◌≢◌, refl, subst, ◌∙◌, List, [], ◌∷◌, none, All, Eq}
use yurine.Errors.{ok, >>=-eq-ok, ok-injective}
use yurine.Types.{Symbol, symbol_from_usize}
use yurine.Map.{get, put, get-put, unwrap_or}
use yurine.Vocabulary.{
  build, Vocabulary, VocabularyBuilder, from_tokens, number_distinct, number_tokens, sort_by,
}
use yurine.Vocabulary.Numbering.{IsDistinct, sort_by-IsDistinct, beq-other}
use yurine.Vocabulary.RoundTrip.{IsCounted}

-- Distinct tokens are numbered alike when they are decoded.
module _ {ℓ} {T : Type ℓ} ⦃eq : Eq T⦄ where
  unused_rest :
      (t : T) (s : Symbol) (ts : List T) (m : List (T × Symbol))
      → All (λ u. t ≢ u) ts
      → All (λ u. get m u ≡ none) ts
      → All (λ u. get (put m t s) u ≡ none) ts
  unused_rest t s [] m apart unused = tt
  unused_rest t s (u ∷ us) m (differs, apart) (free, unused) =
      (get-put m t s u ∙ rw (beq-other t u differs) free, unused_rest t s us m apart unused)

  number_distinct-number_tokens :
      (index : ℕ) (ts : List T) (m m' : List (T × Symbol))
      → All (λ u. get m u ≡ none) ts
      → IsDistinct ts
      → number_tokens index ts m ≡ ok m'
      → number_distinct index ts m ≡ ok m'
  unfolding number_tokens number_distinct
  number_distinct-number_tokens index [] m m' unused distinct e = e
  number_distinct-number_tokens index (t ∷ ts) m m' (free, unused) (apart, distinct) e =
      let (s, e1, r1) = >>=-eq-ok (symbol_from_usize index) _ e in
      let rest =
        number_distinct-number_tokens (suc index) ts (put m t s) m'
          (unused_rest t s ts m apart unused) distinct r1 in
      rw (e1, free) rest

  none_used : (ts : List T) → All (λ u. get {V = Symbol} [] u ≡ none) ts
  unfolding get
  none_used [] = tt
  none_used (t ∷ ts) = (refl, none_used ts)

  -- The tokens of a vocabulary that `build` returns are decoded to it.
  pub build-from_tokens :
      (b : VocabularyBuilder T) (v : Vocabulary T)
      → IsCounted b
      → build b ≡ ok v
      → from_tokens v.tokens ≡ ok v
  unfolding build from_tokens
  build-from_tokens b v counted e =
      let key : T → ℕ = λ u. unwrap_or (get b.frequencies u) 0 in
      let tokens = sort_by key b.tokens in
      let (symbols, e1, r1) = >>=-eq-ok (number_tokens 0 tokens []) _ e in
      let numbered =
        number_distinct-number_tokens 0 tokens [] symbols (none_used tokens)
          (sort_by-IsDistinct key b.tokens counted.distinct) e1 in
      subst (λ w. from_tokens w.tokens ≡ ok w) (ok-injective r1) (rw (from_tokens, numbered) refl)
