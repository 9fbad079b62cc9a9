-- ===== src/Postings/Slices.antt =====
-- src/postings.rs: the slice of a symbol holds the postings that were added for it.
use yurine.Prelude.{
  ℕ, zero, suc, ◌+◌, ◌-◌, ◌≤◌, ◌<◌, ◌≡◌, refl, ap, ap₂, ◌∙◌, sym, subst, List, [], ◌∷◌, ◌∈◌, inl,
  inr, All, arith, ltb, leb, ◌==◌, if◌then◌else◌, length, get_elem?, take, drop, map, length-map,
  some, none, Bool-cases, ==→eq, ltb→lt, ltb→le, lt→ltb, le→ltb, Option-cases, true, false, ==_iff,
  le→leb,
}
use yurine.Errors.{ok, slice}
use yurine.Types.{Symbol, Posting, is_unknown, unknown}
use yurine.Storage.{as_slice}
use yurine.Postings.{PostingsIndexBuilder, posting_slice, build}
use yurine.Postings.Grouping.{Entry, IsGrouped, entries_of, dedup-sort-IsGrouped, All-dedup-sort}
use yurine.Postings.Offsets.{below, offsets_of, length-offsets_of, get_elem?-offsets_of}

-- The postings of the entries of one symbol.
abbrev pub of_symbol : Symbol → List Entry → List Posting
of_symbol s [] = []
of_symbol s (e ∷ es) = let rest = of_symbol s es in if e.0 == s then e.1 ∷ rest else rest

below-none : (k : ℕ) (es : List Entry) → All (λ e. k ≤ e.0) es → below k es ≡ 0
below-none k [] a = refl
below-none k (e ∷ es) a = rw (le→ltb e.0 k a.0) (below-none k es a.1)

of_symbol-none : (s : ℕ) (es : List Entry) → All (λ e. suc s ≤ e.0) es → of_symbol s es ≡ []
of_symbol-none s [] a = refl
of_symbol-none s (e ∷ es) a = elim (Bool-cases (e.0 == s)) [
  | inl y ↦ absurd (omega (arith, ==→eq e.0 s y, a.0))
  | inr n ↦ rw n (of_symbol-none s es a.1)
]

All-weaken : (a b : ℕ) (es : List Entry) → a ≤ b → All (λ e. b ≤ e.0) es → All (λ e. a ≤ e.0) es
All-weaken a b [] h x = tt
All-weaken a b (e ∷ es) h x = (omega (arith, h, x.0), All-weaken a b es h x.1)

pub below_mono : (k : ℕ) (es : List Entry) → below k es ≤ below (suc k) es
below_mono k [] = omega arith
below_mono k (e ∷ es) = ground (arith, below_mono k es)

pub below-le : (k : ℕ) (es : List Entry) → below k es ≤ length es
below-le k [] = omega arith
below-le k (e ∷ es) = ground (arith, below-le k es)

abbrev pub postings_of : List Entry → List Posting
postings_of = map (λ e. e.1)

suc_sub : (a b : ℕ) → suc a - suc b ≡ a - b
suc_sub a b = omega arith

sub_zero : (a : ℕ) → suc a - 0 ≡ suc (a - 0)
sub_zero a = omega arith

zero_sub : ◌≡◌ {A = ℕ} (0 - 0) 0
zero_sub = omega arith

-- Between the counts of a symbol and of the next stand the postings of the symbol.
cut_lem :
    (s : Symbol) (es : List Entry)
    → IsGrouped es
    → take (below (suc s) es - below s es) (drop (below s es) (postings_of es)) ≡ of_symbol s es
cut_lem s [] g = rw (from_nil (0 - 0)) refl
  where
    from_nil : (n : ℕ) → take {A = Posting} n [] ≡ []
    from_nil zero = refl
    from_nil (suc n) = refl
cut_lem s (e ∷ es) g = elim (Bool-cases (ltb e.0 s)) [
  | inl less ↦
      let lt = ltb→lt e.0 s less in
      let n1 : (e.0 == s) ≡ false = ground (arith, lt) in
      rw (less, lt→ltb e.0 (suc s) (omega (arith, lt)), n1)
        (ap (λ t. take t (drop (below s es) (postings_of es)))
            (suc_sub (below (suc s) es) (below s es))
          ∙ cut_lem s es g.1)
  | inr more ↦ elim (Bool-cases (e.0 == s)) [
    | inl same ↦
        let eq = ==→eq e.0 s same in
        let nothing = below-none s es (All-weaken s e.0 es (omega (arith, eq)) g.0) in
        let rest = cut_lem s es g.1 in
        let rest' : take (below (suc s) es - 0) (postings_of es) ≡ of_symbol s es =
          subst (λ t. take (below (suc s) es - t) (drop t (postings_of es)) ≡ of_symbol s es)
            nothing rest in
        rw (more, lt→ltb e.0 (suc s) (omega (arith, eq)), same, nothing)
          (ap (λ t. take t (e.1 ∷ postings_of es)) (sub_zero (below (suc s) es))
            ∙ ap (λ t. e.1 ∷ t) rest')
    | inr other ↦
        let above : suc s ≤ e.0 = ground (arith, ltb→le e.0 s more, other) in
        let all = All-weaken (suc s) e.0 es above g.0 in
        let n1 = below-none s es (All-weaken s (suc s) es (omega arith) all) in
        let n2 = below-none (suc s) es all in
        rw (more, le→ltb e.0 (suc s) above, other, n1, n2, of_symbol-none s es all)
          (ap (λ t. take t (e.1 ∷ postings_of es)) zero_sub)
  ]
]

pub ∈-of_symbol : (s : Symbol) (p : Posting) (es : List Entry) → (s, p) ∈ es → p ∈ of_symbol s es
∈-of_symbol s p [] h = absurd h
∈-of_symbol s p (e ∷ es) (inl same) =
    let e0 : e.0 ≡ s = ap (λ t. t.0) (sym same) in
    rw ((==_iff e.0 s).1 e0) (inl (ap (λ t. t.1) same))
∈-of_symbol s p (e ∷ es) (inr h) = elim (Bool-cases (e.0 == s)) [
  | inl y ↦ rw y (inr (∈-of_symbol s p es h))
  | inr n ↦ rw n (∈-of_symbol s p es h)
]

pub of_symbol-∈ : (s : Symbol) (p : Posting) (es : List Entry) → p ∈ of_symbol s es → (s, p) ∈ es
of_symbol-∈ s p [] h = absurd h
of_symbol-∈ s p (e ∷ es) h = elim (Bool-cases (e.0 == s)) [
  | inl y ↦ elim (rw y at h) [
    | inl same ↦ inl (ap₂ (λ a b. (a, b)) (sym (==→eq e.0 s y)) same)
    | inr more ↦ inr (of_symbol-∈ s p es more)
  ]
  | inr n ↦ inr (of_symbol-∈ s p es (rw n at h))
]

get_elem?-none : {A : Type 0} (xs : List A) (i : ℕ) → length xs ≤ i → get_elem? xs i ≡ none
get_elem?-none [] i h = refl
get_elem?-none (x ∷ xs) zero h = absurd (omega (arith, h))
get_elem?-none (x ∷ xs) (suc i) h = get_elem?-none xs i (omega (arith, h))

of_symbol-beyond :
    (count s : ℕ) (es : List Entry) → count ≤ s → All (λ e. e.0 < count) es → of_symbol s es ≡ []
of_symbol-beyond count s [] h a = refl
of_symbol-beyond count s (e ∷ es) h a = elim (Bool-cases (e.0 == s)) [
  | inl y ↦ absurd (omega (arith, ==→eq e.0 s y, h, a.0))
  | inr n ↦ rw n (of_symbol-beyond count s es h a.1)
]

known : (s count : ℕ) → s < count → count ≤ unknown → (s == unknown) ≡ false
known s count h l = ground (arith, h, l)

-- The slice between the offsets of a symbol and of the next.
pub slice-below :
    (s : Symbol) (es : List Entry)
    → IsGrouped es
    → slice (postings_of es) (below s es) (below (suc s) es) ≡ ok (of_symbol s es)
unfolding slice
slice-below s es grouped =
    let ordered : leb (below s es) (below (suc s) es) ≡ true =
      le→leb (below s es) (below (suc s) es) (below_mono s es) in
    let within : leb (below (suc s) es) (length (postings_of es)) ≡ true =
      le→leb (below (suc s) es) (length (postings_of es))
        (omega (arith, below-le (suc s) es, length-map (λ e. e.1) es)) in
    rw (ordered, within) (ap ok (cut_lem s es grouped))

-- The slice of every symbol is there, and holds the postings of its entries.
pub posting_slice-of_symbol :
    (b : PostingsIndexBuilder) (s : Symbol)
    → b.symbol_count ≤ unknown
    → All (λ e. e.0 < b.symbol_count) b.postings
    → posting_slice (build b) s ≡ ok (of_symbol s (entries_of b.postings))
unfolding posting_slice build is_unknown as_slice
posting_slice-of_symbol b s h a =
    let count = b.symbol_count in
    let es = entries_of b.postings in
    let inside = All-dedup-sort (λ e. e.0 < count) b.postings a in
    elim (Bool-cases (ltb s count)) [
      | inl less ↦
          let lt = ltb→lt s count less in
          let next : s + 1 ≡ suc s = omega arith in
          let start = get_elem?-offsets_of count s es inside (omega (arith, lt)) in
          let end : get_elem? (offsets_of count es) (s + 1) ≡ some (below (suc s) es) =
            get_elem?-offsets_of count (s + 1) es inside (omega (arith, lt))
            ∙ ap (λ k. some (below k es)) next in
          rw (known s count lt h, start, end, slice-below s es (dedup-sort-IsGrouped b.postings))
            refl
      | inr more ↦
          let le = ltb→le s count more in
          let nothing = of_symbol-beyond count s es le inside in
          let end : get_elem? (offsets_of count es) (s + 1) ≡ none =
            get_elem?-none (offsets_of count es) (s + 1)
              (omega (arith, le, length-offsets_of count es)) in
          elim (Bool-cases (s == unknown)) [
            | inl y ↦ rw (y, nothing) refl
            | inr n ↦ elim (Option-cases (get_elem? (offsets_of count es) s)) [
              | inl e ↦ rw (n, e, nothing) refl
              | inr (start, e) ↦ rw (n, e, end, nothing) refl
            ]
          ]
    ]
