-- ===== src/Vocabulary/Numbering.antt =====
-- src/vocabulary.rs: the loop that numbers distinct tokens gives each its index.
use yurine.Prelude.{
  ℕ, zero, suc, ◌+◌, ◌<◌, ◌≡◌, ◌≢◌, refl, sym, ap, subst, ◌∙◌, List, [], ◌∷◌, arith, some,
  get_elem?, All, Eq, Bool-cases, inl, inr, ltb, true, false, ◌⊎◌,
}
use yurine.Errors.{ok, >>=-eq-ok, ok-injective}
use yurine.Types.{Symbol, symbol_from_usize, u32_max}
use yurine.Map.{get, put, get-put}
use yurine.Vocabulary.{number_tokens, insert_by, sort_by}

pub symbol-same : (p q : ℕ) → symbol_from_usize p ≡ ok q → (q ≡ p) × (p < u32_max)
unfolding symbol_from_usize
symbol-same p q e = ground arith

module _ {ℓ} {T : Type ℓ} where
  abbrev pub IsDistinct : List T → Type ℓ
  IsDistinct [] = Unit
  IsDistinct (t ∷ ts) = All (λ u. t ≢ u) ts × IsDistinct ts

  pub All-lookup {κ} :
      (P : T → Type κ) (ts : List T) (i : ℕ) (t : T) → All P ts → get_elem? ts i ≡ some t → P t
  All-lookup P [] i t a e = cc
  All-lookup P (u ∷ us) zero t a e = let same : u ≡ t = cc in subst P same a.0
  All-lookup P (u ∷ us) (suc i) t a e = All-lookup P us i t a.1 e

  module _ (key : T → ℕ) where
    All-insert_by :
        (P : T → Type ℓ) (t : T) (ts : List T) → P t → All P ts → All P (insert_by key t ts)
    unfolding insert_by
    All-insert_by P t [] p a = (p, tt)
    All-insert_by P t (u ∷ us) p a = elim (Bool-cases (ltb (key t) (key u))) [
      | inl y ↦ rw y (a.0, All-insert_by P t us p a.1)
      | inr n ↦ rw n (p, a)
    ]

    pub All-sort_by : (P : T → Type ℓ) (ts : List T) → All P ts → All P (sort_by key ts)
    unfolding sort_by
    All-sort_by P [] a = tt
    All-sort_by P (t ∷ ts) a = All-insert_by P t (sort_by key ts) a.0 (All-sort_by P ts a.1)

    insert_by-IsDistinct :
        (t : T) (ts : List T)
        → All (λ u. t ≢ u) ts
        → IsDistinct ts
        → IsDistinct (insert_by key t ts)
    unfolding insert_by
    insert_by-IsDistinct t [] a d = (tt, tt)
    insert_by-IsDistinct t (u ∷ us) a d = elim (Bool-cases (ltb (key t) (key u))) [
      | inl y ↦ rw y (
        All-insert_by (λ w. u ≢ w) t us (λ e. a.0 (sym e)) d.0,
        insert_by-IsDistinct t us a.1 d.1,
      )
      | inr n ↦ rw n (a, d)
    ]

    pub sort_by-IsDistinct : (ts : List T) → IsDistinct ts → IsDistinct (sort_by key ts)
    unfolding sort_by
    sort_by-IsDistinct [] d = tt
    sort_by-IsDistinct (t ∷ ts) d =
        insert_by-IsDistinct t (sort_by key ts) (All-sort_by (λ u. t ≢ u) ts d.0)
          (sort_by-IsDistinct ts d.1)

    insert_by-new : (t : T) (ts : List T) → (i : ℕ) × (get_elem? (insert_by key t ts) i ≡ some t)
    unfolding insert_by
    insert_by-new t [] = (0, refl)
    insert_by-new t (u ∷ us) = elim (Bool-cases (ltb (key t) (key u))) [
      | inl y ↦ rw y (let (i, e) = insert_by-new t us in (suc i, e))
      | inr n ↦ rw n (0, refl)
    ]

    insert_by-keeps :
        (t : T) (ts : List T) (i : ℕ) (w : T)
        → get_elem? ts i ≡ some w
        → (j : ℕ) × (get_elem? (insert_by key t ts) j ≡ some w)
    unfolding insert_by
    insert_by-keeps t [] i w e = cc
    insert_by-keeps t (u ∷ us) zero w e = elim (Bool-cases (ltb (key t) (key u))) [
      | inl y ↦ rw y (0, e)
      | inr n ↦ rw n (1, e)
    ]
    insert_by-keeps t (u ∷ us) (suc i) w e = elim (Bool-cases (ltb (key t) (key u))) [
      | inl y ↦ rw y (let (j, f) = insert_by-keeps t us i w e in (suc j, f))
      | inr n ↦ rw n (suc (suc i), e)
    ]

    pub sort_by-keeps :
        (ts : List T) (i : ℕ) (w : T)
        → get_elem? ts i ≡ some w
        → (j : ℕ) × (get_elem? (sort_by key ts) j ≡ some w)
    unfolding sort_by
    sort_by-keeps [] i w e = cc
    sort_by-keeps (t ∷ ts) zero w e =
        let same : t ≡ w = cc in
        let (j, f) = insert_by-new t (sort_by key ts) in (j, f ∙ ap some same)
    sort_by-keeps (t ∷ ts) (suc i) w e =
        let (j, f) = sort_by-keeps ts i w e in insert_by-keeps t (sort_by key ts) j w f

module _ {ℓ} {T : Type ℓ} ⦃eq : Eq T⦄ where
  pub beq_refl : (t : T) → eq.beq t t ≡ true
  beq_refl t = (eq.beq_iff t t).1 refl

  pub beq-other : (t u : T) → t ≢ u → eq.beq t u ≡ false
  beq-other t u h = elim (Bool-cases (eq.beq t u)) [
    | inl y ↦ absurd (h ((eq.beq_iff t u).0 y))
    | inr n ↦ n
  ]

  -- The tokens that the loop does not meet keep their symbols.
  pub number_tokens-other :
      (index : ℕ) (ts : List T) (m m' : List (T × Symbol)) (t : T)
      → number_tokens index ts m ≡ ok m'
      → All (λ u. t ≢ u) ts
      → get m' t ≡ get m t
  unfolding number_tokens
  number_tokens-other index [] m m' t e a = ap (λ n. get n t) (sym (ok-injective e))
  number_tokens-other index (u ∷ us) m m' t e a =
      let (s, e1, r1) = >>=-eq-ok (symbol_from_usize index) _ e in
      number_tokens-other (suc index) us (put m u s) m' t r1 a.1
      ∙ rw (get-put m u s t, beq-other u t (λ h. a.0 (sym h))) refl

  -- A token that it meets has its index.
  pub number_tokens-at :
      (index : ℕ) (ts : List T) (m m' : List (T × Symbol)) (i : ℕ) (t : T)
      → number_tokens index ts m ≡ ok m'
      → IsDistinct ts
      → get_elem? ts i ≡ some t
      → (get m' t ≡ some (index + i)) × (index + i < u32_max)
  unfolding number_tokens
  number_tokens-at index [] m m' i t e d at = cc
  number_tokens-at index (u ∷ us) m m' zero t e d at =
      let (s, e1, r1) = >>=-eq-ok (symbol_from_usize index) _ e in
      let (same, small) = symbol-same index s e1 in
      let here : u ≡ t = cc in
      (
        subst (λ w. get m' w ≡ some (index + 0)) here
            (number_tokens-other (suc index) us (put m u s) m' u r1 d.0
              ∙ rw (get-put m u s u, beq_refl u) (ap some (omega (arith, same)))),
        omega (arith, small),
      )
  number_tokens-at index (u ∷ us) m m' (suc i) t e d at =
      let (s, e1, r1) = >>=-eq-ok (symbol_from_usize index) _ e in
      let (f, small) = number_tokens-at (suc index) us (put m u s) m' i t r1 d.1 at in
      (f ∙ ap some (omega arith), omega (arith, small))

  -- A token that has a symbol was met, or had it before.
  pub number_tokens-only :
      (index : ℕ) (ts : List T) (m m' : List (T × Symbol)) (t : T) (s : Symbol)
      → number_tokens index ts m ≡ ok m'
      → get m' t ≡ some s
      → ((i : ℕ) × (get_elem? ts i ≡ some t)) ⊎ (get m t ≡ some s)
  unfolding number_tokens
  number_tokens-only index [] m m' t s e f =
      inr (subst (λ n. get n t ≡ some s) (sym (ok-injective e)) f)
  number_tokens-only index (u ∷ us) m m' t s e f =
      let (r, e1, r1) = >>=-eq-ok (symbol_from_usize index) _ e in
      elim (number_tokens-only (suc index) us (put m u r) m' t s r1 f) [
        | inl (i, at) ↦ inl (suc i, at)
        | inr before ↦ elim (Bool-cases (eq.beq u t)) [
          | inl y ↦ inl (0, ap some ((eq.beq_iff u t).0 y))
          | inr n ↦ inr (rw (get-put m u r t, n) at before)
        ]
      ]
