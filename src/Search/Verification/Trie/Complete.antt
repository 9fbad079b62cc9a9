-- ===== src/Search/Verification/Trie/Complete.antt =====
-- src/search/verification/bidirectional_trie.rs: an anchor records every alignment that substitutes at
-- it for less than the bound, and leaves the caches valid.
use mathlib.Core.List.{append_assoc, reverse-append}
use native.Mathlib.Decide.{dec_lt}
use yurine.Prelude.{
  ℕ, suc, ◌+◌, ◌-◌, ◌≤◌, ◌<◌, ◌≡◌, refl, ap, ap₂, ◌∙◌, subst, min, true, some, List, [], ◌∷◌, ◌++◌,
  reverse, length, get_elem?, take, drop, onto, onto-nil, length-reverse, length-append,
  take_of_length, drop_behind, inl, inr, arith, lt→ltb,
}
use yurine.Map.{get-put-valid}
use yurine.Types.{Symbol}
use yurine.Float.{Float}
use yurine.Float.Laws.{IsExact}
use yurine.Costs.{EditCosts}
use yurine.Search.Bound.{StrictBound, admits, residual}
use yurine.Search.Matches.{Candidate}
use yurine.Search.Verification.{add_distance}
use yurine.Search.Verification.Alignment.{wed}
use yurine.Search.Verification.Alignment.Reverse.{wed-reverse}
use yurine.Search.Verification.Distances.{IsCell, HasGoodCosts, exact}
use yurine.Search.Verification.Trie.{
  TrieForest, directional_query_strings, Substrings, extend_backward, extend_forward, extend_anchor,
  combine,
}
use yurine.Search.Verification.Trie.Cache.{IsValidNode, CoversPrefixes-at}
use yurine.Search.Verification.Trie.Substrings.{Has, combine-Has}
use yurine.Search.Verification.Trie.Anchors.{
  IsValidForest, directional_entry_lem, extend_backward_lem, extend_forward_lem,
}
use yurine.Search.Verification.Trie.Recorded.{
  onto-reverse, value-budget, budget_small, total-IsCell,
}

-- A distance that stands for at most `v`.
module _ {fl : Float} (x : IsExact fl) where
  abbrev pub IsAtMost : ℕ → ℕ → Type 0
  IsAtMost v d = x.value d ≤ v

  pub min-IsAtMost : (v a b : ℕ) → IsAtMost v a → IsAtMost v (min a b)
  min-IsAtMost v a b h = omega (arith, x.value-mono (min a b) a (omega arith))

module _ {fl : Float} (x : IsExact fl) (costs : EditCosts Symbol) (g : HasGoodCosts x costs)
    (query : List Symbol) (bound : StrictBound) (bound_good : x.IsGood bound)
    (bound_small : x.value bound ≤ x.limit) (c : Candidate) (string : List Symbol) (q s : Symbol)
    (at_query : get_elem? query c.query_position ≡ some q)
    (at_string : get_elem? string c.string_position ≡ some s)
    (anchor_fits : admits bound (costs.substitution q s) ≡ true) (f : TrieForest)
    (valid : IsValidForest x costs g query f) where
  abbrev dist : List Symbol → List Symbol → ℕ
  dist = wed (exact x costs)

  abbrev anchor : ℕ
  anchor = costs.substitution q s

  abbrev budget : ℕ
  budget = residual fl bound anchor

  abbrev before : List Symbol
  before = take c.query_position query

  abbrev after : List Symbol
  after = drop (suc c.query_position) query

  abbrev left : List Symbol
  left = take c.string_position string

  abbrev right : List Symbol
  right = drop (suc c.string_position) string

  abbrev backward : List ℕ
  backward = (extend_backward fl costs query string c budget f).0

  abbrev forward : List ℕ
  forward = (extend_forward fl costs query string c budget f).0

  small : x.value budget ≤ x.limit
  small =
      budget_small x costs g query bound bound_good bound_small c string q s at_query at_string
        anchor_fits f valid

  value_left : x.value budget ≡ x.value bound - x.value anchor
  value_left =
      value-budget x costs g query bound bound_good bound_small c string q s at_query at_string
        anchor_fits f valid

  -- The caches stay valid.
  pub extend_anchor-IsValidForest :
      (m : Substrings)
      → IsValidForest x costs g query (extend_anchor fl costs bound query string c anchor (f, m)).0
  unfolding extend_anchor
  extend_anchor-IsValidForest m = record {
    backward_valid =
        get-put-valid (λ p n. IsValidNode x costs g (reverse (take p query)) [] n) f.backward
          c.query_position _ (extend_backward_lem x costs g query c string budget f small valid).1
          valid.backward_valid;
    forward_valid =
        get-put-valid (λ p n. IsValidNode x costs g (drop (suc p) query) [] n) f.forward
          c.query_position _ (extend_forward_lem x costs g query c string budget f small valid).1
          valid.forward_valid;
    strings_valid =
        get-put-valid (λ p d. d ≡ directional_query_strings query p) f.strings c.query_position _
          (directional_entry_lem x costs g query c.query_position f valid) valid.strings_valid;
  }

  module _ (pre sl sr post : List Symbol) (splits : string ≡ pre ++ (sl ++ s ∷ sr) ++ post)
      (anchored : length pre + length sl ≡ c.string_position)
      (cheap : x.value anchor + dist before sl + dist after sr < x.value bound) where
    splits' : string ≡ (pre ++ sl) ++ s ∷ (sr ++ post)
    splits' = splits ∙ simp (append_assoc)

    front : left ≡ pre ++ sl
    front =
        ap (take c.string_position) splits'
        ∙ take_of_length (pre ++ sl) (s ∷ (sr ++ post)) c.string_position
            (omega (arith, length-append pre sl))

    behind : right ≡ sr ++ post
    behind =
        ap (drop (suc c.string_position)) splits'
        ∙ drop_behind (pre ++ sl) s (sr ++ post) c.string_position
            (omega (arith, length-append pre sl))

    reversed_front : onto (take (length sl) (reverse left)) [] ≡ sl
    reversed_front =
        rw
          (
            front,
            reverse-append pre sl,
            take_of_length (reverse sl) (reverse pre) (length sl) (length-reverse sl),
          )
          (onto-reverse sl)

    cut_behind : take (length sr) right ≡ sr
    cut_behind = rw behind (take_of_length sr post (length sr) refl)

    back_entry : (b : ℕ) × (get_elem? backward (length sl) ≡ some b)
    back_entry =
        elim (CoversPrefixes-at x costs g (reverse before) budget (reverse left) backward
          (length sl) (extend_backward_lem x costs g query c string budget f small valid).0
          (rw (length-reverse left, front) (omega (arith, length-append pre sl)))) [
            | inl found ↦ (found.0, found.1)
            | inr far ↦
                let far' : x.value budget ≤ dist before sl =
                  subst (λ n. x.value budget ≤ n) (ap₂ dist (onto-reverse before) reversed_front)
                    far in
                absurd (omega (arith, value_left, far'))
          ]

    front_entry : (d : ℕ) × (get_elem? forward (length sr) ≡ some d)
    front_entry =
        elim (CoversPrefixes-at x costs g after budget right forward (length sr)
          (extend_forward_lem x costs g query c string budget f small valid).0
          (rw behind (omega (arith, length-append sr post)))) [
            | inl found ↦ (found.0, found.1)
            | inr far ↦
                let far' : x.value budget ≤ dist after sr =
                  subst (λ n. x.value budget ≤ n)
                    (ap₂ dist (onto-nil after) (onto-nil (take (length sr) right))
                      ∙ wed-reverse (exact x costs) after (take (length sr) right)
                      ∙ ap (dist after) cut_behind)
                    far in
                absurd (omega (arith, value_left, far'))
          ]

    -- The alignment's distance, or a lesser one, is in the map.
    pub extend_anchor-Has :
        (m : Substrings)
        → Has
            (IsAtMost x (x.value anchor + dist before sl + dist after sr))
            (c.string_id, length pre, c.string_position + length sr + 1)
            (extend_anchor fl costs bound query string c anchor (f, m)).1
    unfolding extend_anchor admits
    extend_anchor-Has m =
        let v : ℕ = x.value anchor + dist before sl + dist after sr in
        let (b, eb) = back_entry in
        let (d, ed) = front_entry in
        let total : ℕ = add_distance fl (add_distance fl anchor b) d in
        let cell : IsCell x total v =
          subst (IsCell x total)
            (ap₂ (λ l r. x.value anchor + dist before l + dist after r) reversed_front cut_behind)
            (total-IsCell x costs g query bound bound_good bound_small c string q s at_query
              at_string anchor_fits f valid (length sl) b (length sr) d eb ed).2 in
        let small_total : x.value total ≤ v = omega (arith, cell.near) in
        let below : total < bound = elim (dec_lt total bound) [
          | yes h ↦ h
          | no h ↦ absurd (omega (arith, x.value-mono bound total (omega arith)))
        ] in
        subst
          (λ n.
            Has (IsAtMost x v) (c.string_id, n, c.string_position + length sr + 1)
              (combine fl bound c anchor 0 backward forward m))
          (omega arith)
          (combine-Has (IsAtMost x v) (min-IsAtMost x v) fl bound c anchor 0 backward forward m
            (length sl) b (length sr) d eb ed (lt→ltb total bound below) small_total)
