-- ===== src/Postings/Offsets.antt =====
-- src/postings.rs: the offset of a symbol counts the entries of the smaller symbols.
use yurine.Prelude.{
  ℕ, zero, suc, ◌+◌, ◌≤◌, ◌<◌, ◌≡◌, refl, ap, ◌∙◌, List, [], ◌∷◌, All, arith, ltb, leb,
  if◌then◌else◌, length, get_elem?, get_or, set, replicate, some,
}
use yurine.Postings.{count_symbols, sums_after, running_sums}
use yurine.Postings.Grouping.{Entry}

abbrev pub below : ℕ → List Entry → ℕ
below k [] = 0
below k (e ∷ es) = let rest = below k es in if ltb e.0 k then suc rest else rest

-- The sum of the elements up to the index `k`.
abbrev sum_to : ℕ → List ℕ → ℕ
sum_to k [] = 0
sum_to zero (n ∷ ns) = n
sum_to (suc k) (n ∷ ns) = n + sum_to k ns

sum_to-set :
    (k j : ℕ) (ns : List ℕ)
    → j < length ns
    → sum_to k (set ns j (get_or ns j 0 + 1)) ≡ (if leb j k then suc (sum_to k ns) else sum_to k ns)
sum_to-set k j [] h = absurd (omega (arith, h))
sum_to-set zero zero (n ∷ ns) h = ground arith
sum_to-set zero (suc j) (n ∷ ns) h = ground arith
sum_to-set (suc k) zero (n ∷ ns) h = ground arith
sum_to-set (suc k) (suc j) (n ∷ ns) h = ground (arith, sum_to-set k j ns (omega (arith, h)))

length-set : (ns : List ℕ) (j v : ℕ) → length (set ns j v) ≡ length ns
length-set [] j v = refl
length-set (n ∷ ns) zero v = refl
length-set (n ∷ ns) (suc j) v = omega (arith, length-set ns j v)

length-count_symbols : (es : List Entry) (ns : List ℕ) → length (count_symbols es ns) ≡ length ns
unfolding count_symbols
length-count_symbols [] ns = refl
length-count_symbols (e ∷ es) ns =
    length-count_symbols es (set ns (e.0 + 1) (get_or ns (e.0 + 1) 0 + 1))
    ∙ length-set ns (e.0 + 1) (get_or ns (e.0 + 1) 0 + 1)

sum_to-count_symbols :
    (k : ℕ) (es : List Entry) (ns : List ℕ)
    → All (λ e. e.0 + 1 < length ns) es
    → sum_to k (count_symbols es ns) ≡ sum_to k ns + below k es
unfolding count_symbols
sum_to-count_symbols k [] ns a = omega arith
sum_to-count_symbols k (e ∷ es) ns a =
    let ns' = set ns (e.0 + 1) (get_or ns (e.0 + 1) 0 + 1) in
    let rec = sum_to-count_symbols k es ns' (All-length es a.1) in
    let one = sum_to-set k (e.0 + 1) ns a.0 in
    rec ∙ ap (λ t. t + below k es) one ∙ counted k e.0 (sum_to k ns) (below k es)
  where
    All-length :
        (fs : List Entry)
        → All (λ f. f.0 + 1 < length ns) fs
        → All (λ f. f.0 + 1 < length (set ns (e.0 + 1) (get_or ns (e.0 + 1) 0 + 1))) fs
    All-length [] b = tt
    All-length (f ∷ fs) b =
        (omega (arith, b.0, length-set ns (e.0 + 1) (get_or ns (e.0 + 1) 0 + 1)), All-length fs b.1)

    counted :
        (k s m r : ℕ)
        → (if leb (s + 1) k then suc m else m) + r ≡ m + (if ltb s k then suc r else r)
    counted k s m r = ground arith

sum_to-replicate : (k n : ℕ) → sum_to k (replicate {A = ℕ} n 0) ≡ 0
sum_to-replicate k zero = refl
sum_to-replicate zero (suc n) = refl
sum_to-replicate (suc k) (suc n) = omega (arith, sum_to-replicate k n)

get_elem?-sums_after :
    (t k : ℕ) (ns : List ℕ) → k < length ns → get_elem? (sums_after t ns) k ≡ some (t + sum_to k ns)
unfolding sums_after
get_elem?-sums_after t k [] h = absurd (omega (arith, h))
get_elem?-sums_after t zero (n ∷ ns) h = ap some (omega arith)
get_elem?-sums_after t (suc k) (n ∷ ns) h =
    get_elem?-sums_after (n + t) k ns (omega (arith, h)) ∙ ap some (omega arith)

running_sums-eq : (ns : List ℕ) → running_sums ns ≡ sums_after 0 ns
unfolding running_sums sums_after
running_sums-eq [] = refl
running_sums-eq (n ∷ ns) = ap (λ t. t ∷ sums_after t ns) (omega arith)

length-sums_after : (t : ℕ) (ns : List ℕ) → length (sums_after t ns) ≡ length ns
unfolding sums_after
length-sums_after t [] = refl
length-sums_after t (n ∷ ns) = omega (arith, length-sums_after (n + t) ns)

length-replicate : (n : ℕ) → length (replicate {A = ℕ} n 0) ≡ n
length-replicate zero = refl
length-replicate (suc n) = omega (arith, length-replicate n)

-- The offsets that `build` lays out.
abbrev pub offsets_of : ℕ → List Entry → List ℕ
offsets_of count es = running_sums (count_symbols es (replicate {A = ℕ} (count + 1) 0))

pub length-offsets_of : (count : ℕ) (es : List Entry) → length (offsets_of count es) ≡ count + 1
length-offsets_of count es =
    ap length (running_sums-eq (count_symbols es (replicate {A = ℕ} (count + 1) 0)))
    ∙ length-sums_after 0 (count_symbols es (replicate {A = ℕ} (count + 1) 0))
    ∙ length-count_symbols es (replicate {A = ℕ} (count + 1) 0)
    ∙ length-replicate (count + 1)

-- An offset is the number of the entries of smaller symbols.
pub get_elem?-offsets_of :
    (count k : ℕ) (es : List Entry)
    → All (λ e. e.0 < count) es
    → k ≤ count
    → get_elem? (offsets_of count es) k ≡ some (below k es)
get_elem?-offsets_of count k es a h =
    let zeros = replicate {A = ℕ} (count + 1) 0 in
    ap (λ l. get_elem? l k) (running_sums-eq (count_symbols es zeros))
    ∙ get_elem?-sums_after 0 k (count_symbols es zeros)
        (omega (arith, length-count_symbols es zeros, length-replicate (count + 1), h))
    ∙ ap some (
        omega
          (arith, sum_to-count_symbols k es zeros (inside es a), sum_to-replicate k (count + 1)))
  where
    inside :
        (fs : List Entry)
        → All (λ e. e.0 < count) fs
        → All (λ e. e.0 + 1 < length (replicate {A = ℕ} (count + 1) 0)) fs
    inside [] b = tt
    inside (f ∷ fs) b = (omega (arith, b.0, length-replicate (count + 1)), inside fs b.1)
