-- ===== src/Search/Filtering/Selector/Best.antt =====
-- src/search/filtering/candidate.rs: the item that a round finds is there, and waits.
use yurine.Prelude.{
  ℕ, zero, suc, ◌+◌, ◌≡◌, refl, min, List, [], ◌∷◌, ◌++◌, ◌∈◌, ◌⊎◌, inl, inr, Bool-cases, Bool,
  true, false, arith, Option, some, none, get_elem?, ◌&&◌, not, All, if◌then◌else◌, none≢some,
}
use yurine.Errors.{ok, Error, ok_or}
use yurine.Types.{position_from_usize}
use yurine.Float.{Float}
use yurine.Search.Filtering.Selector.{Item, improves, item_value, is_open, find_best, pay_items}

pub ∈-append : {A : Type 0} (a : A) (xs ys : List A) → a ∈ xs → a ∈ (xs ++ ys)
∈-append a [] ys h = absurd h
∈-append a (x ∷ xs) ys (inl e) = inl e
∈-append a (x ∷ xs) ys (inr h) = inr (∈-append a xs ys h)

pub ∈-last : {A : Type 0} (a : A) (xs : List A) → a ∈ (xs ++ a ∷ [])
∈-last a [] = inl refl
∈-last a (x ∷ xs) = inr (∈-last a xs)

position-eq : (a b c d : ℕ) → ◌≡◌ {A = Option (ℕ × ℕ)} (some (a, b)) (some (c, d)) → c ≡ a + 0
position-eq a b c d e = ground arith

pub and-left : (a b : Bool) → (a && b) ≡ true → a ≡ true
and-left a b e = ground arith

pub ok_or-eq-ok : {A : Type 0} (o : Option A) (e : Error) (a : A) → ok_or o e ≡ ok a → o ≡ some a
ok_or-eq-ok none e a h = cc
ok_or-eq-ok (some b) e a h = cc

pub position_from_usize-eq : (p q : ℕ) → position_from_usize p ≡ ok q → q ≡ p
unfolding position_from_usize
position_from_usize-eq p q e = ground arith

pub not-true : (b : Bool) → not b ≡ true → b ≡ false
not-true b e = ground arith

pub All-snoc :
    {A : Type 0} (P : A → Type 0) (xs : List A) (a : A) → All P xs → P a → All P (xs ++ a ∷ [])
All-snoc P [] a h p = (p, tt)
All-snoc P (x ∷ xs) a h p = (h.0, All-snoc P xs a h.1 p)

module _ (fl : Float) where
  -- The item that a round selects is there, and is not selected.
  pub find_best_lem :
      (rest pos : ℕ) (is : List Item) (best : Option (ℕ × ℕ)) (p v : ℕ)
      → find_best fl rest pos is best ≡ some (p, v)
      → (best ≡ some (p, v))
        ⊎ ((k : ℕ) × (i : Item) × (p ≡ pos + k)
            × (get_elem? is k ≡ some i)
            × (is_open fl rest i ≡ true))
  unfolding find_best
  find_best_lem rest pos [] best p v e = inl e
  find_best_lem rest pos (i ∷ is) best p v e =
      let value = item_value fl i (min i.contribution rest) in
      let next : Option (ℕ × ℕ) =
        if is_open fl rest i && improves fl best value then some (pos, value) else best in
      elim (find_best_lem rest (suc pos) is next p v e) [
        | inl e' ↦ elim (Bool-cases (is_open fl rest i && improves fl best value)) [
          | inl better ↦
              let same : some (pos, value) ≡ some (p, v) = rw better at e' in
              inr (0, i, position-eq pos value p v same, refl, and-left _ _ better)
          | inr worse ↦ inl (rw worse at e')
        ]
        | inr (k, j, at, found, open_) ↦ inr (suc k, j, omega arith, found, open_)
      ]

  pub pay_items-get :
      (rest value : ℕ) (is : List Item) (k : ℕ) (i : Item)
      → get_elem? is k ≡ some i
      → i.selected ≡ false
      → (j : Item) × (get_elem? (pay_items fl rest value is) k ≡ some j) × (j.selected ≡ false)
  unfolding pay_items
  pay_items-get rest value [] k i e h = cc
  pay_items-get rest value (j ∷ is) zero i e h =
      let same : j ≡ i = cc in
      let open_ : j.selected ≡ false = rw same h in
      elim (Bool-cases (is_open fl rest j)) [
        | inl y ↦ rw y (_, refl, open_)
        | inr y ↦ rw y (_, refl, open_)
      ]
  pay_items-get rest value (j ∷ is) (suc k) i e h = pay_items-get rest value is k i e h

  pub best-found :
      (rest : ℕ) (is : List Item) (best : ℕ × ℕ)
      → find_best fl rest 0 is none ≡ some best
      → (k : ℕ) × (i : Item) × (best.0 ≡ 0 + k)
        × (get_elem? is k ≡ some i)
        × (is_open fl rest i ≡ true)
  best-found rest is best e = elim (find_best_lem rest 0 is none best.0 best.1 e) [
    | inl bad ↦ absurd (none≢some bad)
    | inr found ↦ found
  ]
