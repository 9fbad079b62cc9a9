-- ===== src/Search/RangeSearch/Tokens.antt =====
-- src/search/encoding.rs, src/search/range_search.rs: distances of symbols are those of their tokens,
-- so that the answer for an encoded query is the answer for its tokens.
use native.Mathlib.Decide.{dec_le}
use mathlib.Core.Path.{subst₂}
use yurine.Prelude.{
  ℕ, suc, ◌+◌, ◌≤◌, ◌<◌, ◌≡◌, refl, sym, ap, ◌∙◌, subst, List, [], ◌∷◌, ◌++◌, ◌∈◌, length,
  length-map, get_elem?, map, some, Eq, arith,
}
use yurine.Types.{Symbol}
use yurine.Float.{Float}
use yurine.Float.Laws.{IsExact}
use yurine.Costs.{Cost, EditCosts}
use yurine.Vocabulary.{Vocabulary, encode, symbol, token}
use yurine.Search.Matches.{Match}
use yurine.Search.Engine.{SearchEngine}
use yurine.Search.Encoding.{symbol_token}
use yurine.Search.Encoding.RoundTrip.{Decodes, map-append, cons-head, cons-tail, symbol_token-known}
use yurine.Search.Builder.Tokens.{KeepsTokens}
use yurine.Search.Verification.Alignment.{wed}
use yurine.Search.Verification.Distances.{HasGoodCosts, exact}
use yurine.Search.Verification.Trie.Answer.{IsAnswer}
use yurine.Search.Verification.Trie.Sorted.{match_of, IsOrdered}
use yurine.Search.RangeSearch.{encoded_costs}

module _ {ℓ} {T : Type ℓ} ⦃eq : Eq T⦄ (v : Vocabulary T) (us : List T) where
  -- The symbols stand for the tokens.
  abbrev pub Stand : List Symbol → List T → Type ℓ
  Stand [] [] = Unit {ℓ}
  Stand [] (t ∷ ts) = T × ⊥
  Stand (s ∷ ss) [] = T × ⊥
  Stand (s ∷ ss) (t ∷ ts) = (symbol_token v us s ≡ some t) × Stand ss ts

  pub Decodes-Stand : (ss : List Symbol) (ts : List T) → Decodes v us ss ts → Stand ss ts
  Decodes-Stand [] [] h = tt
  Decodes-Stand [] (t ∷ ts) h = cc
  Decodes-Stand (s ∷ ss) [] h = cc
  Decodes-Stand (s ∷ ss) (t ∷ ts) h = (cons-head h, Decodes-Stand ss ts (cons-tail h))

  encoded-Stand : (ss : List Symbol) (ts : List T) → map (token v) ss ≡ map some ts → Stand ss ts
  encoded-Stand [] [] h = tt
  encoded-Stand [] (t ∷ ts) h = cc
  encoded-Stand (s ∷ ss) [] h = cc
  encoded-Stand (s ∷ ss) (t ∷ ts) h =
      (symbol_token-known v us s t (cons-head h), encoded-Stand ss ts (cons-tail h))

  Stand-length : (ss : List Symbol) (ts : List T) → Stand ss ts → length ss ≡ length ts
  Stand-length [] [] h = refl
  Stand-length [] (t ∷ ts) h = absurd h.1
  Stand-length (s ∷ ss) [] h = absurd h.1
  Stand-length (s ∷ ss) (t ∷ ts) h = ap suc (Stand-length ss ts h.1)

  -- What two parts stand for.
  Stand-split :
      (a b : List Symbol) (ts : List T)
      → Stand (a ++ b) ts
      → (c : List T) × (d : List T) × (ts ≡ c ++ d) × Stand a c × Stand b d
  Stand-split [] b ts h = ([], ts, refl, tt, h)
  Stand-split (s ∷ a) b [] h = absurd h.1
  Stand-split (s ∷ a) b (t ∷ ts) (here, h) =
      let (c, d, same, left, right) = Stand-split a b ts h in
      (t ∷ c, d, ap (λ l. t ∷ l) same, (here, left), right)

  Stand-cut :
      (a b : List Symbol) (c d : List T)
      → length a ≡ length c
      → Stand (a ++ b) (c ++ d)
      → Stand a c × Stand b d
  Stand-cut [] b [] d len h = (tt, h)
  Stand-cut [] b (t ∷ c) d len h = absurd (omega (arith, len))
  Stand-cut (s ∷ a) b [] d len h = absurd (omega (arith, len))
  Stand-cut (s ∷ a) b (t ∷ c) d len (here, h) =
      let (left, right) = Stand-cut a b c d (omega (arith, len)) h in ((here, left), right)

  module _ {fl : Float} (x : IsExact fl) (costs : EditCosts T) where
    substitution-of :
        (q s : Symbol) (a b : T)
        → symbol_token v us q ≡ some a
        → symbol_token v us s ≡ some b
        → (encoded_costs v us costs).substitution q s ≡ costs.substitution a b
    unfolding encoded_costs
    substitution-of q s a b hq hs = rw (encoded_costs, hq, hs) refl

    deletion-of :
        (q : Symbol) (a : T)
        → symbol_token v us q ≡ some a
        → (encoded_costs v us costs).deletion q ≡ costs.deletion a
    unfolding encoded_costs
    deletion-of q a hq = rw (encoded_costs, hq) refl

    insertion-of :
        (s : Symbol) (b : T)
        → symbol_token v us s ≡ some b
        → (encoded_costs v us costs).insertion s ≡ costs.insertion b
    unfolding encoded_costs
    insertion-of s b hs = rw (encoded_costs, hs) refl

    -- The distance of symbols is that of the tokens that they stand for.
    pub wed-encoded :
        (qs ss : List Symbol) (ts rs : List T)
        → Stand qs ts
        → Stand ss rs
        → wed (exact x (encoded_costs v us costs)) qs ss ≡ wed (exact x costs) ts rs
    unfolding wed
    wed-encoded [] [] [] [] hq hs = refl
    wed-encoded [] (s ∷ ss) [] (b ∷ rs) hq (here, hs) =
        omega (arith, ap x.value (insertion-of s b here), wed-encoded [] ss [] rs tt hs)
    wed-encoded (q ∷ qs) [] (a ∷ ts) [] (here, hq) hs =
        omega (arith, ap x.value (deletion-of q a here), wed-encoded qs [] ts [] hq tt)
    wed-encoded (q ∷ qs) (s ∷ ss) (a ∷ ts) (b ∷ rs) (hereq, hq) (heres, hs) = omega (
      arith,
      ap x.value (substitution-of q s a b hereq heres),
      ap x.value (insertion-of s b heres),
      ap x.value (deletion-of q a hereq),
      wed-encoded qs ss ts rs hq hs,
      wed-encoded (q ∷ qs) ss (a ∷ ts) rs (hereq, hq) hs,
      wed-encoded qs (s ∷ ss) ts (b ∷ rs) hq (heres, hs),
    )
    wed-encoded [] ss (a ∷ ts) rs hq hs = absurd hq.1
    wed-encoded (q ∷ qs) ss [] rs hq hs = absurd hq.1
    wed-encoded qs [] ts (b ∷ rs) hq hs = absurd hs.1
    wed-encoded qs (s ∷ ss) ts [] hq hs = absurd hs.1

module _ {ℓ} {T : Type ℓ} {fl : Float} (x : IsExact fl) (costs : EditCosts T) (query : List T)
    (threshold : Cost) (sequences : List (List T)) where
  -- A match is a part of a stored sequence of tokens, with its weighted edit distance to the query by
  -- the costs of the tokens, within the threshold.
  pub record IsTokenMatch (m : Match) : Type ℓ where
    pub sequence : List T
    pub pre : List T
    pub segment : List T
    pub post : List T
    pub stored : get_elem? sequences m.sequence_id ≡ some sequence
    pub splits : sequence ≡ pre ++ segment ++ post
    pub starts : length pre ≡ m.range_start
    pub ends : length pre + length segment ≡ m.range_end
    pub nonempty : 0 < length segment
    pub exact_distance : x.value m.distance ≡ wed (exact x costs) query segment
    pub within : m.distance ≤ threshold

  -- The matches are the parts of the sequences within the threshold, each once, in order.
  pub record IsTokenAnswer (matches : List Match) : Type ℓ where
    pub sound : (m : Match) → m ∈ matches → IsTokenMatch m
    pub complete :
        (id : ℕ) (pre segment post : List T)
        → get_elem? sequences id ≡ some (pre ++ segment ++ post)
        → 0 < length segment
        → wed (exact x costs) query segment ≤ x.value threshold
        → (d : Cost) × (match_of ((id, length pre, length pre + length segment), d) ∈ matches)
    pub ordered : IsOrdered matches

module _ {ℓ} {T : Type ℓ} ⦃eq : Eq T⦄ {fl : Float} (x : IsExact fl) (costs : EditCosts T)
    (query : List T) (threshold : Cost) (sequences : List (List T)) (engine : SearchEngine T)
    (keeps : KeepsTokens sequences engine) (us : List T) (string : List Symbol)
    (stands : Stand engine.vocabulary us string query)
    (g : HasGoodCosts x (encoded_costs engine.vocabulary us costs)) where
  below-next : x.value threshold < x.value (suc threshold)
  below-next = elim (dec_le (x.value (suc threshold)) (x.value threshold)) [
    | yes h ↦ absurd (omega (arith, x.value-reflects (suc threshold) threshold h))
    | no h ↦ omega (arith, h)
  ]

  sequence-Stand :
      (id : ℕ) (sequence : List T)
      → get_elem? sequences id ≡ some sequence
      → Stand engine.vocabulary us (encode engine.vocabulary sequence) sequence
  sequence-Stand id sequence at =
      encoded-Stand engine.vocabulary us (encode engine.vocabulary sequence) sequence
        (keeps.decodes id sequence at)

  -- The answer for the symbols is the answer for the tokens.
  pub IsAnswer-IsTokenAnswer :
      (matches : List Match)
      → IsAnswer x
          (encoded_costs engine.vocabulary us costs)
          g
          string
          (suc threshold)
          engine.store
          matches
      → IsTokenAnswer x costs query threshold sequences matches
  unfolding encode
  IsAnswer-IsTokenAnswer matches answer = record {
    sound = λ m listed.
        let found = answer.sound m listed in
        let v = engine.vocabulary in
        let (sequence, at, same) = keeps.recovers m.sequence_id found.string found.stored in
        let whole : Stand v us (found.pre ++ found.segment ++ found.post) sequence =
          subst (λ s. Stand v us s sequence) (sym same ∙ found.splits)
            (sequence-Stand m.sequence_id sequence at) in
        let (rest, post, first, front, last) =
          Stand-split v us (found.pre ++ found.segment) found.post sequence whole in
        let (pre, segment, second, left, middle) =
          Stand-split v us found.pre found.segment rest front in
        let len = Stand-length v us found.pre pre left in
        let len_segment = Stand-length v us found.segment segment middle in
        record {
          sequence = sequence;
          pre = pre;
          segment = segment;
          post = post;
          stored = at;
          splits = first ∙ ap (λ t. t ++ post) second;
          starts = sym len ∙ found.starts;
          ends = omega (arith, len, len_segment, found.ends);
          nonempty = omega (arith, len_segment, found.nonempty);
          exact_distance =
              found.exact_distance
              ∙ wed-encoded v us x costs string found.segment query segment stands middle;
          within = omega (arith, found.fits);
        };
    complete = λ id pre segment post at some_there close.
        let v = engine.vocabulary in
        let sequence = pre ++ segment ++ post in
        let f = symbol v in
        let splits : encode v sequence ≡ map f pre ++ map f segment ++ map f post =
          map-append f (pre ++ segment) post
          ∙ ap (λ t. t ++ map f post) (map-append f pre segment) in
        let whole : Stand v us (map f pre ++ map f segment ++ map f post) sequence =
          subst (λ s. Stand v us s sequence) splits (sequence-Stand id sequence at) in
        let (front, last) =
          Stand-cut v us (map f pre ++ map f segment) (map f post) (pre ++ segment) post
            (ap length (sym (map-append f pre segment)) ∙ length-map f (pre ++ segment)) whole in
        let (left, middle) =
          Stand-cut v us (map f pre) (map f segment) pre segment (length-map f pre) front in
        let same_distance =
          wed-encoded v us x costs string (map f segment) query segment stands middle in
        let (d, listed) = answer.complete id (map f pre) (map f segment) (map f post) (record {
          string = encode v sequence;
          stored = keeps.stores id sequence at;
          splits = splits;
          nonempty = omega (arith, length-map f segment, some_there);
          close = omega (arith, same_distance, close, below-next);
        }) in
        (
          d,
          subst₂ (λ a b. match_of ((id, a, a + b), d) ∈ matches) (length-map f pre)
              (length-map f segment) listed,
        );
    ordered = answer.ordered;
  }
