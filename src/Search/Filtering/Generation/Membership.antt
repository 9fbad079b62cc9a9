-- ===== src/Search/Filtering/Generation/Membership.antt =====
-- src/search/filtering.rs: which anchors are generated.
use yurine.Prelude.{◌≡◌, refl, ap, sym, ◌∙◌, List, [], ◌∷◌, ◌++◌, ◌∈◌, map, inl, inr, subst, All}
use yurine.Errors.{ok, >>=-eq-ok, ok-injective}
use yurine.Types.{Symbol, Posting, Position}
use yurine.Postings.{PostingsIndex, posting_slice}
use yurine.Search.Matches.{Candidate}
use yurine.Search.Filtering.Selector.{SelectedPosition}
use yurine.Search.Filtering.Selector.Best.{∈-append}
use yurine.Search.Filtering.Generation.{candidate_of, neighbor_candidates, generate_candidates}

∈-behind : {A : Type 0} (a : A) (xs ys : List A) → a ∈ ys → a ∈ (xs ++ ys)
∈-behind a [] ys h = h
∈-behind a (x ∷ xs) ys h = inr (∈-behind a xs ys h)

∈-map : {A B : Type 0} (f : A → B) (a : A) (xs : List A) → a ∈ xs → f a ∈ map f xs
∈-map f a [] h = absurd h
∈-map f a (x ∷ xs) (inl e) = inl (ap f e)
∈-map f a (x ∷ xs) (inr h) = inr (∈-map f a xs h)

All-append : {A : Type 0} (P : A → Type 0) (xs ys : List A) → All P xs → All P ys → All P (xs ++ ys)
All-append P [] ys h k = k
All-append P (x ∷ xs) ys h k = (h.0, All-append P xs ys h.1 k)

module _ (index : PostingsIndex) where
  in-neighbor_candidates :
      (position : Position) (neighbors : List Symbol) (cs : List Candidate) (s : Symbol)
      (ps : List Posting) (p : Posting)
      → neighbor_candidates index position neighbors ≡ ok cs
      → s ∈ neighbors
      → posting_slice index s ≡ ok ps
      → p ∈ ps
      → candidate_of position p ∈ cs
  unfolding neighbor_candidates
  in-neighbor_candidates position [] cs s ps p e i f j = absurd i
  in-neighbor_candidates position (t ∷ ts) cs s ps p e i f j =
      let (qs, e1, r1) = >>=-eq-ok (posting_slice index t) _ e in
      let (rest, e2, r2) = >>=-eq-ok (neighbor_candidates index position ts) _ r1 in
      let whole : map (candidate_of position) qs ++ rest ≡ cs = ok-injective r2 in
      elim i [
        | inl same ↦
            let e3 : ok qs ≡ ok ps = sym e1 ∙ ap (posting_slice index) (sym same) ∙ f in
            subst (λ t. candidate_of position p ∈ t) whole
              (∈-append _ (map (candidate_of position) qs) rest
                (∈-map (candidate_of position) p qs (subst (λ t. p ∈ t) (sym (ok-injective e3)) j)))
        | inr later ↦
            subst (λ t. candidate_of position p ∈ t) whole
              (∈-behind _ (map (candidate_of position) qs) rest
                (in-neighbor_candidates position ts rest s ps p e2 later f j))
      ]

  -- Every posting of every neighbor of every selected position is a candidate.
  pub in-generate_candidates :
      (selected : List SelectedPosition) (cs : List Candidate) (v : SelectedPosition) (s : Symbol)
      (ps : List Posting) (p : Posting)
      → generate_candidates index selected ≡ ok cs
      → v ∈ selected
      → s ∈ v.neighbors
      → posting_slice index s ≡ ok ps
      → p ∈ ps
      → candidate_of v.position p ∈ cs
  unfolding generate_candidates
  in-generate_candidates [] cs v s ps p e h i f j = absurd h
  in-generate_candidates (w ∷ selected) cs v s ps p e h i f j =
      let (first, e1, r1) = >>=-eq-ok (neighbor_candidates index w.position w.neighbors) _ e in
      let (rest, e2, r2) = >>=-eq-ok (generate_candidates index selected) _ r1 in
      let whole : first ++ rest ≡ cs = ok-injective r2 in
      elim h [
        | inl same ↦
            subst (λ t. candidate_of v.position p ∈ t) whole
              (∈-append _ first rest (
                subst (λ u. candidate_of u.position p ∈ first) (sym same)
                  (in-neighbor_candidates w.position w.neighbors first s ps p e1
                    (subst (λ u. s ∈ u.neighbors) same i) f j)))
        | inr later ↦
            subst (λ t. candidate_of v.position p ∈ t) whole
              (∈-behind _ first rest (in-generate_candidates selected rest v s ps p e2 later i f j))
      ]

  -- What holds of the anchors at every posting of the index holds of the candidates.
  module _ (P : Candidate → Type 0) where
    abbrev pub HoldsAt : Position → Type 0
    HoldsAt v =
        (s : Symbol) (ps : List Posting) (p : Posting)
        → posting_slice index s ≡ ok ps
        → p ∈ ps
        → P (candidate_of v p)

    map-All :
        (v : Position) (s : Symbol) (ps qs : List Posting)
        → HoldsAt v
        → posting_slice index s ≡ ok ps
        → ((p : Posting) → p ∈ qs → p ∈ ps)
        → All P (map (candidate_of v) qs)
    map-All v s ps [] h f sub = tt
    map-All v s ps (q ∷ qs) h f sub =
        (h s ps q f (sub q (inl refl)), map-All v s ps qs h f (λ p i. sub p (inr i)))

    neighbor_candidates-All :
        (v : Position) (neighbors : List Symbol) (cs : List Candidate)
        → HoldsAt v
        → neighbor_candidates index v neighbors ≡ ok cs
        → All P cs
    unfolding neighbor_candidates
    neighbor_candidates-All v [] cs h e = subst (All P) (ok-injective e) tt
    neighbor_candidates-All v (t ∷ ts) cs h e =
        let (qs, e1, r1) = >>=-eq-ok (posting_slice index t) _ e in
        let (rest, e2, r2) = >>=-eq-ok (neighbor_candidates index v ts) _ r1 in
        subst (All P) (ok-injective r2) (
          All-append P (map (candidate_of v) qs) rest (map-All v t qs qs h e1 (λ p i. i))
            (neighbor_candidates-All v ts rest h e2))

    pub generate_candidates-All :
        (selected : List SelectedPosition) (cs : List Candidate)
        → All (λ v. HoldsAt v.position) selected
        → generate_candidates index selected ≡ ok cs
        → All P cs
    unfolding generate_candidates
    generate_candidates-All [] cs h e = subst (All P) (ok-injective e) tt
    generate_candidates-All (v ∷ selected) cs h e =
        let (first, e1, r1) = >>=-eq-ok (neighbor_candidates index v.position v.neighbors) _ e in
        let (rest, e2, r2) = >>=-eq-ok (generate_candidates index selected) _ r1 in
        subst (All P) (ok-injective r2) (
          All-append P first rest (neighbor_candidates-All v.position v.neighbors first h.0 e1)
            (generate_candidates-All selected rest h.1 e2))

  -- Generation returns where every list of postings is there.
  module _ (total : (s : Symbol) → (ps : List Posting) × (posting_slice index s ≡ ok ps)) where
    neighbor_candidates-total :
        (v : Position) (neighbors : List Symbol)
        → (cs : List Candidate) × (neighbor_candidates index v neighbors ≡ ok cs)
    unfolding neighbor_candidates
    neighbor_candidates-total v [] = ([], refl)
    neighbor_candidates-total v (t ∷ ts) =
        let (ps, e) = total t in
        let (rest, f) = neighbor_candidates-total v ts in
        (map (candidate_of v) ps ++ rest, rw (e, f))

    pub generate_candidates-total :
        (selected : List SelectedPosition)
        → (cs : List Candidate) × (generate_candidates index selected ≡ ok cs)
    unfolding generate_candidates
    generate_candidates-total [] = ([], refl)
    generate_candidates-total (v ∷ selected) =
        let (first, e) = neighbor_candidates-total v.position v.neighbors in
        let (rest, f) = generate_candidates-total selected in (first ++ rest, rw (e, f))
