-- ===== src/Map.antt =====
-- A hash map is an association list in which an insertion replaces the entry of its key: the order
-- of the entries is not observed.
use yurine.Prelude.{
  Option, none, some, List, [], ◌∷◌, Eq, if◌then◌else◌, ◌≡◌, refl, arith, ℕ, nat_eq, ◌==◌, ==→eq,
  Bool-cases, inl, inr,
}
use mathlib.Core.Path.{subst₂}
use mathlib.Core.Option.{some-injective}

module _ {ℓ κ} {K : Type ℓ} {V : Type κ} ⦃eq : Eq K⦄ where
  unfoldable pub get : List (K × V) → K → Option V
  get [] k = none
  get ((j, v) ∷ m) k = if eq.beq j k then some v else get m k

  unfoldable pub put : List (K × V) → K → V → List (K × V)
  put [] k v = (k, v) ∷ []
  put ((j, w) ∷ m) k v = if eq.beq j k then (k, v) ∷ m else (j, w) ∷ put m k v

abbrev pub unwrap_or {ℓ} : {A : Type ℓ} → Option A → A → A
unwrap_or none d = d
unwrap_or (some a) d = a

module _ {ℓ κ} {K : Type ℓ} {V : Type κ} ⦃eq : Eq K⦄ where
  pub get-put :
      (m : List (K × V)) (k : K) (v : V) (j : K)
      → get (put m k v) j ≡ (if eq.beq k j then some v else get m j)
  unfolding get put
  get-put [] k v j = refl
  get-put ((i, w) ∷ m) k v j =
      ground (arith, eq.beq_iff k j, eq.beq_iff i k, eq.beq_iff i j, get-put m k v j)

-- A fact of every entry survives an insertion that has it.
pub get-put-valid {ℓ κ} :
    {V : Type ℓ} (P : ℕ → V → Type κ) (m : List (ℕ × V)) (k : ℕ) (v : V)
    → P k v
    → ((j : ℕ) (w : V) → get m j ≡ some w → P j w)
    → (j : ℕ) (w : V) → get (put m k v) j ≡ some w
    → P j w
get-put-valid P m k v h all j w e = elim (Bool-cases (k == j)) [
  | inl same ↦
      let found : some v ≡ some w = rw (get-put m k v j, same) at e in
      subst₂ P (==→eq k j same) (some-injective v w found) h
  | inr other ↦ all j w (rw (get-put m k v j, other) at e)
]
