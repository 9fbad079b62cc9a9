-- ===== src/Search/Verification/Alignment.antt =====
-- The weighted edit distance that src/search/verification.rs computes by columns: the least price of
-- an alignment, over exact numbers.
pub mod Reverse
use yurine.Prelude.{
  ℕ, zero, suc, ◌+◌, ◌≤◌, ◌≡◌, refl, ap, min, List, [], ◌∷◌, ◌++◌, arith, inl, inr,
}
use native.Mathlib.Decide.{dec_le}
use yurine.Costs.{EditCosts}

-- A query in the first list is turned into the data in the second.
pub data Alignment {ℓ} {A : Type ℓ} : List A → List A → Type ℓ where
  done : Alignment [] []
  substitute : {qs ss : List A} (q s : A) → Alignment qs ss → Alignment (q ∷ qs) (s ∷ ss)
  delete : {qs ss : List A} (q : A) → Alignment qs ss → Alignment (q ∷ qs) ss
  insert : {qs ss : List A} (s : A) → Alignment qs ss → Alignment qs (s ∷ ss)

module _ {ℓ} {A : Type ℓ} (costs : EditCosts A) where
  unfoldable pub price : {qs ss : List A} → Alignment qs ss → ℕ
  price done = 0
  price (substitute q s a) = costs.substitution q s + price a
  price (delete q a) = costs.deletion q + price a
  price (insert s a) = costs.insertion s + price a

  unfoldable pub wed : List A → List A → ℕ
  wed [] [] = 0
  wed [] (s ∷ ss) = costs.insertion s + wed [] ss
  wed (q ∷ qs) [] = costs.deletion q + wed qs []
  wed (q ∷ qs) (s ∷ ss) =
      min (min (costs.substitution q s + wed qs ss) (costs.insertion s + wed (q ∷ qs) ss))
        (costs.deletion q + wed qs (s ∷ ss))

  -- No alignment is cheaper than the distance.
  pub wed-le-price : {qs ss : List A} (a : Alignment qs ss) → wed qs ss ≤ price a
  unfolding wed price
  wed-le-price done = omega arith
  wed-le-price (substitute q s a) = omega (arith, wed-le-price a)
  wed-le-price (delete {ss = []} q a) = omega (arith, wed-le-price a)
  wed-le-price (delete {ss = s ∷ ss} q a) = omega (arith, wed-le-price a)
  wed-le-price (insert {qs = []} s a) = omega (arith, wed-le-price a)
  wed-le-price (insert {qs = q ∷ qs} s a) = omega (arith, wed-le-price a)

  abbrev pub IsPriced : List A → List A → ℕ → Type ℓ
  IsPriced qs ss n = (a : Alignment qs ss) × (price a ≡ n)

  IsPriced-min :
      {qs ss : List A} {m n : ℕ} → IsPriced qs ss m → IsPriced qs ss n → IsPriced qs ss (min m n)
  IsPriced-min {m} {n} a b = elim (dec_le m n) [
    | yes h ↦ (a.0, omega arith)
    | no h ↦ (b.0, omega arith)
  ]

  -- Some alignment costs the distance.
  pub wed_attained : (qs ss : List A) → IsPriced qs ss (wed qs ss)
  unfolding wed price
  wed_attained [] [] = (done, refl)
  wed_attained [] (s ∷ ss) = let (a, e) = wed_attained [] ss in (insert s a, omega arith)
  wed_attained (q ∷ qs) [] = let (a, e) = wed_attained qs [] in (delete q a, omega arith)
  wed_attained (q ∷ qs) (s ∷ ss) =
      let (a, d) = wed_attained qs ss in
      let (b, e) = wed_attained (q ∷ qs) ss in
      let (c, f) = wed_attained qs (s ∷ ss) in
      IsPriced-min (IsPriced-min (substitute q s a, omega arith) (insert s b, omega arith))
        (delete q c, omega arith)

  pub append-IsPriced :
      {qs ss qs' ss' : List A} {n : ℕ} (a : Alignment qs ss)
      → IsPriced qs' ss' n
      → IsPriced (qs ++ qs') (ss ++ ss') (price a + n)
  unfolding price
  append-IsPriced done b = (b.0, omega arith)
  append-IsPriced (substitute q s a) b =
      let (c, e) = append-IsPriced a b in (substitute q s c, omega arith)
  append-IsPriced (delete q a) b = let (c, e) = append-IsPriced a b in (delete q c, omega arith)
  append-IsPriced (insert s a) b = let (c, e) = append-IsPriced a b in (insert s c, omega arith)

  pub wed-insert-le : (qs ss : List A) (s : A) → wed qs (s ∷ ss) ≤ costs.insertion s + wed qs ss
  unfolding wed
  wed-insert-le [] ss s = omega arith
  wed-insert-le (q ∷ qs) ss s = omega arith

  pub wed-delete-le : (qs ss : List A) (q : A) → wed (q ∷ qs) ss ≤ costs.deletion q + wed qs ss
  unfolding wed
  wed-delete-le qs [] q = omega arith
  wed-delete-le qs (s ∷ ss) q = omega arith

  pub wed-substitute-le :
      (qs ss : List A) (q s : A) → wed (q ∷ qs) (s ∷ ss) ≤ costs.substitution q s + wed qs ss
  unfolding wed
  wed-substitute-le qs ss q s = omega arith
