-- ===== src/Search/Verification/Trie/Cache.antt =====
-- src/search/verification/bidirectional_trie.rs: the cached columns are those of their paths, so a
-- traversal returns the distances whatever earlier candidates left in the trie.
use yurine.Prelude.{
  onto, ℕ, zero, suc, ◌<◌, length, get_elem?, ◌⊎◌, ◌≤◌, ◌≡◌, refl, min, some, List, [], ◌∷◌, All,
  take, arith, subst, sym, leb, leb→le, ==→eq, ◌==◌, Bool-cases, inl, inr, Option-cases,
}
use yurine.Types.{Symbol}
use yurine.Float.{Float, infinity}
use yurine.Float.Laws.{IsExact}
use yurine.Costs.{EditCosts}
use yurine.Search.Verification.Alignment.{wed}
use yurine.Search.Verification.Distances.{
  IsCell, HasGoodCosts, exact, IsColumn, step_dp-IsColumn, root_column-IsColumn, last_cell-IsCell,
  far_onward, IsColumn-IsFar,
}
use yurine.Search.Verification.Trie.{
  TrieNode, node, Children, leaf, child, column, children, find_child, put_child, column_min, root,
  entry, walk, cached_prefix_distances,
}

le-column_min :
    (budget : ℕ) (cs : List ℕ) (least : ℕ)
    → budget ≤ column_min cs least
    → All (λ c. budget ≤ c) cs × (budget ≤ least)
unfolding column_min
le-column_min budget [] least h = (tt, h)
le-column_min budget (c ∷ cs) least h =
    let (all, one) = le-column_min budget cs (min least c) h in ((omega arith, all), omega arith)

module _ {fl : Float} (x : IsExact fl) (costs : EditCosts Symbol) (g : HasGoodCosts x costs)
    (query : List Symbol) where
  abbrev dist : List Symbol → List Symbol → ℕ
  dist = wed (exact x costs)

  -- Below the path `consumed`, in reverse, every node holds the column of its own path.
  abbrev mutual
    pub IsValidNode : List Symbol → TrieNode → Type 0
    IsValidNode consumed (node c k) =
        IsColumn x costs g [] query consumed c × IsValidChildren consumed k

    pub IsValidChildren : List Symbol → Children → Type 0
    IsValidChildren consumed leaf = Unit
    IsValidChildren consumed (child s n k) =
        IsValidNode (s ∷ consumed) n × IsValidChildren consumed k

  pub root-IsValidNode : IsValidNode [] (root fl costs query)
  unfolding root
  root-IsValidNode = (root_column-IsColumn x costs g query, tt)

  find_child-IsValidNode :
      (consumed : List Symbol) (k : Children) (s : Symbol) (m : TrieNode)
      → IsValidChildren consumed k
      → find_child k s ≡ some m
      → IsValidNode (s ∷ consumed) m
  unfolding find_child
  find_child-IsValidNode consumed leaf s m v e = cc
  find_child-IsValidNode consumed (child t n k) s m v e = elim (Bool-cases (t == s)) [
    | inl same ↦
        let h : some n ≡ some m = rw same at e in
        let p : n ≡ m = cc in
        let q : t ≡ s = ==→eq t s same in
        subst (λ r. IsValidNode (r ∷ consumed) m) q (subst (IsValidNode (t ∷ consumed)) p v.0)
    | inr other ↦ find_child-IsValidNode consumed k s m v.1 (rw other at e)
  ]

  put_child-IsValidChildren :
      (consumed : List Symbol) (k : Children) (s : Symbol) (m : TrieNode)
      → IsValidChildren consumed k
      → IsValidNode (s ∷ consumed) m
      → IsValidChildren consumed (put_child k s m)
  unfolding put_child
  put_child-IsValidChildren consumed leaf s m v w = (w, tt)
  put_child-IsValidChildren consumed (child t n k) s m v w = elim (Bool-cases (t == s)) [
    | inl same ↦ rw same (subst (λ r. IsValidNode (r ∷ consumed) m) (sym (==→eq t s same)) w, v.1)
    | inr other ↦ rw other (v.0, put_child-IsValidChildren consumed k s m v.1 w)
  ]

  entry-IsValidNode :
      (consumed : List Symbol) (n : TrieNode) (s : Symbol)
      → IsValidNode consumed n
      → IsValidNode (s ∷ consumed) (entry fl costs query n s)
  unfolding entry
  entry-IsValidNode consumed (node c k) s v = elim (Option-cases (find_child k s)) [
    | inl new ↦ rw new (step_dp-IsColumn x costs g query consumed s c v.0, tt)
    | inr (m, old) ↦ rw old (find_child-IsValidNode consumed k s m v.1 old)
  ]

  -- The distances of the prefixes of a string behind `consumed`, up to a prefix from which on all
  -- are at least the budget.
  abbrev pub Covers : ℕ → List Symbol → List Symbol → List ℕ → Type 0
  Covers budget consumed [] ds = ds ≡ []
  Covers budget consumed (s ∷ string) [] =
      (k : ℕ) → x.value budget ≤ dist (onto query []) (onto (take k string) (s ∷ consumed))
  Covers budget consumed (s ∷ string) (d ∷ ds) =
      IsCell x d (dist (onto query []) (s ∷ consumed)) × Covers budget (s ∷ consumed) string ds

  column-IsColumn :
      (consumed : List Symbol) (n : TrieNode)
      → IsValidNode consumed n
      → IsColumn x costs g [] query consumed (column n)
  column-IsColumn consumed (node c k) v = v.0

  put-IsValidNode :
      (consumed : List Symbol) (n : TrieNode) (s : Symbol) (m : TrieNode)
      → IsValidNode consumed n
      → IsValidNode (s ∷ consumed) m
      → IsValidNode consumed (node (column n) (put_child (children n) s m))
  put-IsValidNode consumed (node c k) s m v w =
      (v.0, put_child-IsValidChildren consumed k s m v.1 w)

  walk_lem :
      (budget : ℕ) (string consumed : List Symbol) (n : TrieNode)
      → x.value budget ≤ x.limit
      → IsValidNode consumed n
      → Covers budget consumed string (walk fl costs query budget string n).0
        × IsValidNode consumed (walk fl costs query budget string n).1
  unfolding walk
  walk_lem budget [] consumed n h v = (refl, v)
  walk_lem budget (s ∷ string) consumed n h v =
      let next = entry fl costs query n s in
      let w : IsValidNode (s ∷ consumed) next = entry-IsValidNode consumed n s v in
      let col : IsColumn x costs g [] query (s ∷ consumed) (column next) =
        column-IsColumn (s ∷ consumed) next w in
      elim (Bool-cases (leb budget (column_min (column next) infinity))) [
        | inl stop ↦
            let far = (le-column_min budget (column next) infinity (leb→le _ _ stop)).0 in
            let all =
              IsColumn-IsFar x costs g budget [] query (s ∷ consumed) (column next) h col far in
            rw stop (
              λ k. far_onward x costs g _ query (s ∷ consumed) (take k string) all,
              put-IsValidNode consumed n s next v w,
            )
        | inr go ↦
            let (c, r) = walk_lem budget string (s ∷ consumed) next h w in
            rw go (
              (last_cell-IsCell x costs g [] query (s ∷ consumed) (column next) col, c),
              put-IsValidNode consumed n s _ v r,
            )
      ]

  -- The distances that a traversal returns: one for the empty prefix, and then those of the string.
  abbrev pub CoversPrefixes : ℕ → List Symbol → List ℕ → Type 0
  CoversPrefixes budget string [] = ⊥
  CoversPrefixes budget string (d ∷ ds) =
      IsCell x d (dist (onto query []) []) × Covers budget [] string ds

  -- From a valid cache a traversal returns the distances of the string's prefixes from the query,
  -- all those below the budget among them, and leaves the cache valid.
  pub cached_prefix_distances_lem :
      (budget : ℕ) (string : List Symbol) (n : TrieNode)
      → x.value budget ≤ x.limit
      → IsValidNode [] n
      → CoversPrefixes budget string (cached_prefix_distances fl costs query string budget n).0
        × IsValidNode [] (cached_prefix_distances fl costs query string budget n).1
  unfolding cached_prefix_distances
  cached_prefix_distances_lem budget string n h v =
      let (c, r) = walk_lem budget string [] n h v in
      ((last_cell-IsCell x costs g [] query [] (column n) (column-IsColumn [] n v), c), r)

  Covers-at :
      (budget : ℕ) (string consumed : List Symbol) (ds : List ℕ) (k : ℕ)
      → Covers budget consumed string ds
      → k < length string
      → ((d : ℕ) × (get_elem? ds k ≡ some d)
          × IsCell x d (dist (onto query []) (onto (take (suc k) string) consumed)))
        ⊎ (x.value budget ≤ dist (onto query []) (onto (take (suc k) string) consumed))
  Covers-at budget [] consumed ds k c h = absurd (omega arith)
  Covers-at budget (s ∷ string) consumed [] k c h = inr (c k)
  Covers-at budget (s ∷ string) consumed (d ∷ ds) zero c h = inl (d, refl, c.0)
  Covers-at budget (s ∷ string) consumed (d ∷ ds) (suc k) c h =
      Covers-at budget string (s ∷ consumed) ds k c.1 (omega arith)

  -- The distance of a prefix is returned, or reaches the budget.
  pub CoversPrefixes-at :
      (budget : ℕ) (string : List Symbol) (ds : List ℕ) (k : ℕ)
      → CoversPrefixes budget string ds
      → k ≤ length string
      → ((d : ℕ) × (get_elem? ds k ≡ some d)
          × IsCell x d (dist (onto query []) (onto (take k string) [])))
        ⊎ (x.value budget ≤ dist (onto query []) (onto (take k string) []))
  CoversPrefixes-at budget string [] k c h = absurd c
  CoversPrefixes-at budget string (d ∷ ds) zero c h = inl (d, refl, c.0)
  CoversPrefixes-at budget string (d ∷ ds) (suc k) c h = Covers-at budget string [] ds k c.1 h

  Covers-of :
      (budget : ℕ) (string consumed : List Symbol) (ds : List ℕ) (k d : ℕ)
      → Covers budget consumed string ds
      → get_elem? ds k ≡ some d
      → (k < length string)
        × IsCell x d (dist (onto query []) (onto (take (suc k) string) consumed))
  Covers-of budget [] consumed [] k d c e = cc
  Covers-of budget [] consumed (_ ∷ _) k d c e = cc
  Covers-of budget (s ∷ string) consumed [] k d c e = cc
  Covers-of budget (s ∷ string) consumed (d' ∷ ds) zero d c e =
      let same : d' ≡ d = cc in
      (omega arith, subst (λ r. IsCell x r (dist (onto query []) (s ∷ consumed))) same c.0)
  Covers-of budget (s ∷ string) consumed (d' ∷ ds) (suc k) d c e =
      let (lt, cell) = Covers-of budget string (s ∷ consumed) ds k d c.1 e in (omega arith, cell)

  -- What is returned is the distance of a prefix.
  pub CoversPrefixes-of :
      (budget : ℕ) (string : List Symbol) (ds : List ℕ) (k d : ℕ)
      → CoversPrefixes budget string ds
      → get_elem? ds k ≡ some d
      → (k ≤ length string) × IsCell x d (dist (onto query []) (onto (take k string) []))
  CoversPrefixes-of budget string [] k d c e = absurd c
  CoversPrefixes-of budget string (d' ∷ ds) zero d c e =
      let same : d' ≡ d = cc in
      (omega arith, subst (λ r. IsCell x r (dist (onto query []) [])) same c.0)
  CoversPrefixes-of budget string (d' ∷ ds) (suc k) d c e = Covers-of budget string [] ds k d c.1 e
