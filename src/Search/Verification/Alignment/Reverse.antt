-- ===== src/Search/Verification/Alignment/Reverse.antt =====
-- The distance is the same from both ends, and a pair of alignments around an anchor is an alignment.
use mathlib.Core.List.{reverse-append, append-nil, reverse-reverse}
use yurine.Prelude.{◌+◌, ◌≤◌, ◌≡◌, refl, List, [], ◌∷◌, ◌++◌, reverse, arith}
use yurine.Types.{Symbol}
use yurine.Costs.{EditCosts}
use yurine.Search.Verification.Alignment.{
  Alignment, done, substitute, delete, insert, price, wed, wed-le-price, wed_attained, IsPriced,
  append-IsPriced,
}

reverse-cons : (x : Symbol) (xs : List Symbol) → reverse (x ∷ xs) ≡ reverse xs ++ x ∷ []
reverse-cons x xs = reverse-append (x ∷ []) xs

module _ (costs : EditCosts Symbol) where
  reverse-IsPriced :
      {qs ss : List Symbol} (a : Alignment qs ss)
      → IsPriced costs (reverse qs) (reverse ss) (price costs a)
  unfolding price
  reverse-IsPriced done = (done, refl)
  reverse-IsPriced (substitute {qs} {ss} q s a) =
      let (b, e) = reverse-IsPriced a in
      let (c, f) = append-IsPriced costs b (substitute q s done, refl) in
      rw (reverse-cons q qs, reverse-cons s ss) (c, omega arith)
  reverse-IsPriced (delete {qs} {ss} q a) =
      let (b, e) = reverse-IsPriced a in
      let (c, f) = append-IsPriced costs b (delete q done, refl) in
      rw (reverse-cons q qs, ← append-nil (reverse ss)) (c, omega arith)
  reverse-IsPriced (insert {qs} {ss} s a) =
      let (b, e) = reverse-IsPriced a in
      let (c, f) = append-IsPriced costs b (insert s done, refl) in
      rw (reverse-cons s ss, ← append-nil (reverse qs)) (c, omega arith)

  wed-reverse-le : (qs ss : List Symbol) → wed costs (reverse qs) (reverse ss) ≤ wed costs qs ss
  wed-reverse-le qs ss =
      let (a, e) = wed_attained costs qs ss in
      let (b, f) = reverse-IsPriced a in omega (arith, wed-le-price costs b)

  pub wed-reverse : (qs ss : List Symbol) → wed costs (reverse qs) (reverse ss) ≡ wed costs qs ss
  wed-reverse qs ss =
      let back : wed costs (reverse (reverse qs)) (reverse (reverse ss))
          ≤ wed costs (reverse qs) (reverse ss) =
        wed-reverse-le (reverse qs) (reverse ss) in
      let back' : wed costs qs ss ≤ wed costs (reverse qs) (reverse ss) =
        rw (reverse-reverse qs, reverse-reverse ss) at back in
      omega (arith, wed-reverse-le qs ss)

  -- The distance is at most that of the parts around a substitution.
  pub wed-around :
      (before after : List Symbol) (q s : Symbol) (left right : List Symbol)
      → wed costs (before ++ q ∷ after) (left ++ s ∷ right)
        ≤ costs.substitution q s + wed costs before left + wed costs after right
  unfolding price
  wed-around before after q s left right =
      let (a, e) = wed_attained costs before left in
      let (b, f) = wed_attained costs after right in
      let (c, g) = append-IsPriced costs a (substitute q s b, refl) in
      omega (arith, wed-le-price costs c)
