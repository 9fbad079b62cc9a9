-- ===== src/Search/Filtering/Neighborhood/Unique.antt =====
-- src/search/filtering/neighborhood.rs: an alphabet is accepted just when no symbol occurs twice.
use yurine.Prelude.{
  ◌≡◌, refl, sym, ◌∙◌, List, [], ◌∷◌, ◌∈◌, inl, inr, Bool-cases, true, ◌==◌, ==→eq, ==_iff,
  true≢false,
}
use yurine.Errors.{Error, ok, err}
use yurine.Types.{Symbol}
use yurine.Search.Filtering.Neighborhood.{contains, all_unique, new}

abbrev IsFresh : List Symbol → Symbol → Type 0
IsFresh unique s = s ∈ unique → ⊥

-- No symbol is in the set, or before in the list.
abbrev pub IsUnique : List Symbol → List Symbol → Type 0
IsUnique unique [] = Unit
IsUnique unique (s ∷ ss) = (s ∈ unique → ⊥) × IsUnique (s ∷ unique) ss

contains-∈ : (ss : List Symbol) (s : Symbol) → contains ss s ≡ true → s ∈ ss
unfolding contains
contains-∈ [] s h = cc
contains-∈ (t ∷ ss) s h = elim (Bool-cases (t == s)) [
  | inl y ↦ inl (sym (==→eq t s y))
  | inr n ↦ inr (contains-∈ ss s (rw n at h))
]

∈-contains : (ss : List Symbol) (s : Symbol) → s ∈ ss → contains ss s ≡ true
unfolding contains
∈-contains [] s h = absurd h
∈-contains (t ∷ ss) s (inl e) = rw ((==_iff t s).1 (sym e)) refl
∈-contains (t ∷ ss) s (inr h) = elim (Bool-cases (t == s)) [
  | inl y ↦ rw y refl
  | inr n ↦ rw n (∈-contains ss s h)
]

all_unique-IsUnique : (unique ss : List Symbol) → all_unique unique ss ≡ true → IsUnique unique ss
unfolding all_unique
all_unique-IsUnique unique [] h = tt
all_unique-IsUnique unique (s ∷ ss) h = elim (Bool-cases (contains unique s)) [
  | inl y ↦ absurd (true≢false (sym (rw y at h)))
  | inr n ↦ (
    λ i. true≢false (sym (∈-contains unique s i) ∙ n),
    all_unique-IsUnique (s ∷ unique) ss (rw n at h),
  )
]

IsUnique-all_unique : (unique ss : List Symbol) → IsUnique unique ss → all_unique unique ss ≡ true
unfolding all_unique
IsUnique-all_unique unique [] h = refl
IsUnique-all_unique unique (s ∷ ss) h = elim (Bool-cases (contains unique s)) [
  | inl y ↦ absurd (h.0 (contains-∈ unique s y))
  | inr n ↦ rw n (IsUnique-all_unique (s ∷ unique) ss h.1)
]

-- An alphabet in which no symbol comes twice is kept as it is, and any other is refused.
pub new-IsUnique :
    (symbols : List Symbol)
    → (IsUnique [] symbols → new symbols ≡ ok (record { alphabet = symbols }))
      × ((IsUnique [] symbols → ⊥) → new symbols ≡ err Error.duplicate_alphabet_symbol)
unfolding new
new-IsUnique symbols = elim (Bool-cases (all_unique [] symbols)) [
  | inl y ↦ rw y (λ h. refl, λ bad. absurd (bad (all_unique-IsUnique [] symbols y)))
  | inr n ↦
      rw n (λ h. absurd (true≢false (sym (IsUnique-all_unique [] symbols h) ∙ n)), λ bad. refl)
]
