-- ===== src/Prelude/Lists.antt =====
-- Lists measured and indexed by native numbers, under the library's names.
use Prim.Native.Nat.{ℕ, zero, suc, ◌+◌, ◌-◌, ◌<◌, min}
use mathlib.Core.Path.{◌≡◌, refl, sym, subst, ap, ◌∙◌}
use mathlib.Core.Logic.{◌⊎◌, inl, inr}
use mathlib.Core.List.{List, [], ◌∷◌, ◌++◌, map, reverse, reverse-append, append_assoc, append-nil}
use mathlib.Core.Option.{Option, none, some}
use native.Mathlib.Omega.{arith}

module _ {ℓ} {A : Type ℓ} where
  abbrev pub length : List A → ℕ
  length [] = 0
  length (x ∷ xs) = suc (length xs)

  abbrev pub get_elem? : List A → ℕ → Option A
  get_elem? [] i = none
  get_elem? (x ∷ xs) zero = some x
  get_elem? (x ∷ xs) (suc i) = get_elem? xs i

  abbrev pub get_or : List A → ℕ → A → A
  get_or [] i d = d
  get_or (x ∷ xs) zero d = x
  get_or (x ∷ xs) (suc i) d = get_or xs i d

  abbrev pub set : List A → ℕ → A → List A
  set [] i v = []
  set (x ∷ xs) zero v = v ∷ xs
  set (x ∷ xs) (suc i) v = x ∷ set xs i v

  abbrev pub take : ℕ → List A → List A
  take zero xs = []
  take (suc n) [] = []
  take (suc n) (x ∷ xs) = x ∷ take n xs

  abbrev pub drop : ℕ → List A → List A
  drop zero xs = xs
  drop (suc n) [] = []
  drop (suc n) (x ∷ xs) = drop n xs

  abbrev pub replicate : ℕ → A → List A
  replicate zero a = []
  replicate (suc n) a = a ∷ replicate n a

  -- The first list in front of the second, in reverse.
  abbrev pub onto : List A → List A → List A
  onto [] ys = ys
  onto (x ∷ xs) ys = onto xs (x ∷ ys)

  pub onto-eq-append : (xs ys : List A) → onto xs ys ≡ reverse xs ++ ys
  onto-eq-append [] ys = refl
  onto-eq-append (x ∷ xs) ys =
      rw (reverse-append (x ∷ []) xs, append_assoc) (onto-eq-append xs (x ∷ ys))

  pub onto-nil : (xs : List A) → onto xs [] ≡ reverse xs
  onto-nil xs = onto-eq-append xs [] ∙ append-nil (reverse xs)

  length-onto : (xs ys : List A) → length (onto xs ys) ≡ length xs + length ys
  length-onto [] ys = omega arith
  length-onto (x ∷ xs) ys = omega (arith, length-onto xs (x ∷ ys))

  pub length-reverse : (xs : List A) → length (reverse xs) ≡ length xs
  length-reverse xs = rw (← onto-nil xs) (omega (arith, length-onto xs []))

  pub take_of_length : (xs ys : List A) (n : ℕ) → length xs ≡ n → take n (xs ++ ys) ≡ xs
  take_of_length [] ys zero e = refl
  take_of_length [] ys (suc n) e = absurd (omega arith)
  take_of_length (x ∷ xs) ys zero e = absurd (omega arith)
  take_of_length (x ∷ xs) ys (suc n) e = ap (λ r. x ∷ r) (take_of_length xs ys n (omega arith))

  pub drop_of_length : (xs ys : List A) (n : ℕ) → length xs ≡ n → drop n (xs ++ ys) ≡ ys
  drop_of_length [] ys zero e = refl
  drop_of_length [] ys (suc n) e = absurd (omega arith)
  drop_of_length (x ∷ xs) ys zero e = absurd (omega arith)
  drop_of_length (x ∷ xs) ys (suc n) e = drop_of_length xs ys n (omega arith)

  pub drop_behind :
      (xs : List A) (a : A) (ys : List A) (n : ℕ) → length xs ≡ n → drop (suc n) (xs ++ a ∷ ys) ≡ ys
  drop_behind [] a ys zero e = refl
  drop_behind [] a ys (suc n) e = absurd (omega arith)
  drop_behind (x ∷ xs) a ys zero e = absurd (omega arith)
  drop_behind (x ∷ xs) a ys (suc n) e = drop_behind xs a ys n (omega arith)

  pub get_elem?_of_length :
      (xs : List A) (a : A) (ys : List A) (n : ℕ)
      → length xs ≡ n
      → get_elem? (xs ++ a ∷ ys) n ≡ some a
  get_elem?_of_length [] a ys zero e = refl
  get_elem?_of_length [] a ys (suc n) e = absurd (omega arith)
  get_elem?_of_length (x ∷ xs) a ys zero e = absurd (omega arith)
  get_elem?_of_length (x ∷ xs) a ys (suc n) e = get_elem?_of_length xs a ys n (omega arith)

  -- A list around one of its elements.
  pub split_at :
      (xs : List A) (i : ℕ) (a : A)
      → get_elem? xs i ≡ some a
      → (xs ≡ take i xs ++ a ∷ drop (suc i) xs) × (length (take i xs) ≡ i)
  split_at [] i a e = cc
  split_at (x ∷ xs) zero a e = let same : x ≡ a = cc in (ap (λ b. b ∷ xs) same, refl)
  split_at (x ∷ xs) (suc i) a e = let (p, q) = split_at xs i a e in (ap (λ r. x ∷ r) p, ap suc q)

  pub get_elem?-lt : (xs : List A) (i : ℕ) (a : A) → get_elem? xs i ≡ some a → i < length xs
  get_elem?-lt [] i a e = cc
  get_elem?-lt (x ∷ xs) zero a e = omega arith
  get_elem?-lt (x ∷ xs) (suc i) a e = omega (arith, get_elem?-lt xs i a e)

  pub get_elem?_of_lt : (xs : List A) (i : ℕ) → i < length xs → (a : A) × (get_elem? xs i ≡ some a)
  get_elem?_of_lt [] i h = absurd (omega arith)
  get_elem?_of_lt (x ∷ xs) zero h = (x, refl)
  get_elem?_of_lt (x ∷ xs) (suc i) h = get_elem?_of_lt xs i (omega arith)

  pub length-append : (xs ys : List A) → length (xs ++ ys) ≡ length xs + length ys
  length-append [] ys = omega arith
  length-append (x ∷ xs) ys = omega (arith, length-append xs ys)

  pub take-append-drop : (n : ℕ) (xs : List A) → take n xs ++ drop n xs ≡ xs
  take-append-drop zero xs = refl
  take-append-drop (suc n) [] = refl
  take-append-drop (suc n) (x ∷ xs) = ap (λ r. x ∷ r) (take-append-drop n xs)

  pub length-take : (n : ℕ) (xs : List A) → length (take n xs) ≡ min n (length xs)
  length-take zero xs = omega arith
  length-take (suc n) [] = omega arith
  length-take (suc n) (x ∷ xs) = omega (arith, length-take n xs)

  pub length-drop : (n : ℕ) (xs : List A) → length (drop n xs) ≡ length xs - n
  length-drop zero xs = omega arith
  length-drop (suc n) [] = omega arith
  length-drop (suc n) (x ∷ xs) = omega (arith, length-drop n xs)

  abbrev pub All {κ} : (A → Type κ) → List A → Type κ
  All P [] = Unit
  All P (x ∷ xs) = P x × All P xs

-- The remaining lemmas mention two list types, so they stand outside the section.
pub length-map {ℓ κ} :
    {A : Type ℓ} {B : Type κ} (f : A → B) (xs : List A) → length (map f xs) ≡ length xs
length-map f [] = refl
length-map f (x ∷ xs) = ap suc (length-map f xs)

module _ {A : Type 0} where
  -- Membership as a sum, which the tactics take apart.
  infix 4 ◌∈◌
  abbrev pub ◌∈◌ : A → List A → Type 0
  a ∈ [] = ⊥
  a ∈ (x ∷ xs) = (a ≡ x) ⊎ (a ∈ xs)

  pub All-∈ : (P : A → Type 0) (xs : List A) (a : A) → All P xs → a ∈ xs → P a
  All-∈ P [] a all i = absurd i
  All-∈ P (x ∷ xs) a all (inl same) = subst P (sym same) all.0
  All-∈ P (x ∷ xs) a all (inr i) = All-∈ P xs a all.1 i

  pub All-of-∈ : (P : A → Type 0) (xs : List A) → ((a : A) → a ∈ xs → P a) → All P xs
  All-of-∈ P [] h = tt
  All-of-∈ P (x ∷ xs) h = (h x (inl refl), All-of-∈ P xs (λ a i. h a (inr i)))
