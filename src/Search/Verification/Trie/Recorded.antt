-- ===== src/Search/Verification/Trie/Recorded.antt =====
-- src/search/verification/bidirectional_trie.rs: the substrings that one admitted anchor records.
use mathlib.Core.List.{append_assoc, reverse-append, reverse-reverse}
use yurine.Prelude.{
  ℕ, suc, ◌+◌, ◌-◌, ◌≤◌, ◌<◌, ◌≡◌, refl, sym, ◌∙◌, subst, true, some, List, [], ◌∷◌, ◌++◌, reverse,
  length, get_elem?, take, drop, onto, onto-nil, length-reverse, length-append, length-take,
  length-drop, take-append-drop, split_at, arith, ltb→lt, ap₂,
}
use yurine.Errors.{ok}
use yurine.Types.{Symbol}
use yurine.Float.{Float}
use yurine.Float.Laws.{IsExact}
use yurine.Costs.{EditCosts}
use yurine.Store.{CorpusStore}
use yurine.Store
use yurine.Search.Bound.{StrictBound, admits, residual}
use yurine.Search.Matches.{Candidate}
use yurine.Search.Verification.{add_distance}
use yurine.Search.Verification.Alignment.{wed}
use yurine.Search.Verification.Alignment.Reverse.{wed-reverse, wed-around}
use yurine.Search.Verification.Distances.{IsCell, HasGoodCosts, exact, add-IsCell}
use yurine.Search.Verification.Trie.{
  TrieForest, Substrings, extend_backward, extend_forward, extend_anchor,
}
use yurine.Search.Verification.Trie.Cache.{CoversPrefixes-of}
use yurine.Search.Verification.Trie.Substrings.{AllEntries, combine-AllEntries}
use yurine.Search.Verification.Trie.Anchors.{
  IsValidForest, extend_backward_lem, extend_forward_lem, IsMeasured,
}

pub onto-reverse : (xs : List Symbol) → onto (reverse xs) [] ≡ xs
onto-reverse xs = onto-nil (reverse xs) ∙ reverse-reverse xs

-- What lies in front of an anchor, cut where `k` symbols are left.
front_split :
    (k : ℕ) (left : List Symbol)
    → left ≡ reverse (drop k (reverse left)) ++ onto (take k (reverse left)) []
front_split k left =
    rw
      (
        onto-nil (take k (reverse left)),
        ← reverse-append (take k (reverse left)) (drop k (reverse left)),
        take-append-drop k (reverse left),
      )
      (sym (reverse-reverse left))

module _ {fl : Float} (x : IsExact fl) (costs : EditCosts Symbol) (g : HasGoodCosts x costs)
    (query : List Symbol) (bound : StrictBound) (bound_good : x.IsGood bound)
    (bound_small : x.value bound ≤ x.limit) (c : Candidate) (string : List Symbol) (q s : Symbol)
    (at_query : get_elem? query c.query_position ≡ some q)
    (at_string : get_elem? string c.string_position ≡ some s)
    (anchor_fits : admits bound (costs.substitution q s) ≡ true) (f : TrieForest)
    (valid : IsValidForest x costs g query f) where
  abbrev pub dist : List Symbol → List Symbol → ℕ
  dist = wed (exact x costs)

  abbrev pub anchor : ℕ
  anchor = costs.substitution q s

  abbrev pub budget : ℕ
  budget = residual fl bound anchor

  abbrev pub before : List Symbol
  before = take c.query_position query

  abbrev pub after : List Symbol
  after = drop (suc c.query_position) query

  abbrev pub left : List Symbol
  left = take c.string_position string

  abbrev pub right : List Symbol
  right = drop (suc c.string_position) string

  pub anchor-lt-bound : anchor < bound
  unfolding admits
  anchor-lt-bound = ltb→lt anchor bound anchor_fits

  pub value-budget : x.value budget ≡ x.value bound - x.value anchor
  unfolding residual
  value-budget =
      x.value-sub bound anchor bound_good (g.substitution_good q s) bound_small anchor-lt-bound

  pub budget_small : x.value budget ≤ x.limit
  budget_small = omega (arith, value-budget)

  abbrev pub backward : List ℕ
  backward = (extend_backward fl costs query string c budget f).0

  abbrev pub forward : List ℕ
  forward = (extend_forward fl costs query string c budget f).0

  anchor-IsCell : IsCell x anchor (x.value anchor)
  anchor-IsCell = record { good = g.substitution_good q s; near = refl }

  pub total-IsCell :
      (k b l d : ℕ)
      → get_elem? backward k ≡ some b
      → get_elem? forward l ≡ some d
      → (k ≤ length left)
        × (l ≤ length right)
        × IsCell x (add_distance fl (add_distance fl anchor b) d) (
            x.value anchor
            + dist before (onto (take k (reverse left)) [])
            + dist after (take l right))
  total-IsCell k b l d eb ed =
      let (hk, cb) =
        CoversPrefixes-of x costs g (reverse before) budget (reverse left) backward k b
          (extend_backward_lem x costs g query c string budget f budget_small valid).0 eb in
      let (hl, cd) =
        CoversPrefixes-of x costs g after budget right forward l d
          (extend_forward_lem x costs g query c string budget f budget_small valid).0 ed in
      let cb' : IsCell x b (dist before (onto (take k (reverse left)) [])) =
        subst (λ qs. IsCell x b (dist qs (onto (take k (reverse left)) []))) (onto-reverse before)
          cb in
      let cd' : IsCell x d (dist after (take l right)) =
        subst (IsCell x d)
          (ap₂ dist (onto-nil after) (onto-nil (take l right))
            ∙ wed-reverse (exact x costs) after (take l right))
          cd in
      (omega (arith, length-reverse left), hl, add-IsCell x (add-IsCell x anchor-IsCell cb') cd')

  query_split : query ≡ before ++ q ∷ after
  query_split = (split_at query c.query_position q at_query).0

  string_split :
      (k l : ℕ)
      → string
        ≡ reverse (drop k (reverse left))
          ++ (onto (take k (reverse left)) [] ++ s ∷ take l right)
          ++ drop l right
  string_split k l =
      (split_at string c.string_position s at_string).0
      ∙ ap₂ (λ u v. u ++ s ∷ v) (front_split k left) (sym (take-append-drop l right))
      ∙ simp (append_assoc)

  -- The sums that a candidate records are distances of alignments of the substrings.
  recorded-IsMeasured :
      (corpus : CorpusStore)
      → Store.string corpus c.string_id ≡ ok (some string)
      → (k b l d : ℕ) → get_elem? backward k ≡ some b
      → get_elem? forward l ≡ some d
      → admits bound (add_distance fl (add_distance fl anchor b) d) ≡ true
      → IsMeasured x costs g query corpus bound
          (c.string_id, c.string_position - k, c.string_position + l + 1)
          (add_distance fl (add_distance fl anchor b) d)
  recorded-IsMeasured corpus stored k b l d eb ed fits =
      let (hk, hl, cell) = total-IsCell k b l d eb ed in
      let len = (split_at string c.string_position s at_string).1 in
      let sl = onto (take k (reverse left)) [] in
      let size : length sl ≡ k =
        rw (onto-nil (take k (reverse left)), length-reverse (take k (reverse left)))
          (omega (arith, length-take k (reverse left), length-reverse left)) in
      let head : length (reverse (drop k (reverse left))) ≡ length left - k =
        rw (length-reverse (drop k (reverse left)))
          (omega (arith, length-drop k (reverse left), length-reverse left)) in
      record {
        string = string;
        pre = reverse (drop k (reverse left));
        segment = sl ++ s ∷ take l right;
        post = drop l right;
        stored = stored;
        splits = string_split k l;
        starts = omega (arith, head, len);
        ends =
            omega
              (arith, head, len, size, length-append sl (s ∷ take l right), length-take l right);
        nonempty = omega (arith, length-append sl (s ∷ take l right));
        distance = x.value anchor + dist before sl + dist after (take l right);
        cell = cell;
        reached =
            subst
              (λ qs.
                dist qs (sl ++ s ∷ take l right)
                ≤ x.value anchor + dist before sl + dist after (take l right))
              (sym query_split) (wed-around (exact x costs) before after q s sl (take l right));
        fits = fits;
      }

  -- Its map keeps a fact of each entry that the measured substrings have.
  pub extend_anchor-AllEntries :
      (corpus : CorpusStore) (m : Substrings)
      → Store.string corpus c.string_id ≡ ok (some string)
      → AllEntries (IsMeasured x costs g query corpus bound) m
      → AllEntries
          (IsMeasured x costs g query corpus bound)
          (extend_anchor fl costs bound query string c anchor (f, m)).1
  unfolding extend_anchor
  extend_anchor-AllEntries corpus m stored h =
      combine-AllEntries (IsMeasured x costs g query corpus bound) fl bound c anchor 0 backward
        forward m
        (λ k b l d eb ed a.
          subst
            (λ n.
              IsMeasured x costs g query corpus bound
                (c.string_id, c.string_position - n, c.string_position + l + 1)
                (add_distance fl (add_distance fl anchor b) d))
            (omega arith) (recorded-IsMeasured corpus stored k b l d eb ed a))
        h
