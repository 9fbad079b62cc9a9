-- ===== src/Search/Verification/Trie/Sorted.antt =====
-- src/search/verification/bidirectional_trie.rs: the map of the substrings in order, as matches.
use yurine.Prelude.{
  ℕ, ◌<◌, ◌≡◌, refl, sym, ap, subst, true, List, [], ◌∷◌, inl, inr, arith, ◌∈◌, map,
}
use yurine.Errors.{ok}
use yurine.Float.{infinity}
use yurine.Costs.Laws.{cost_new_of_lt}
use yurine.Search.Matches.{Match}
use yurine.Search.Verification.{create_match}
use yurine.Search.Verification.Trie.{Substrings, key_lt, create_matches}
use yurine.Search.Verification.Trie.Substrings.{Key, AllEntries, Has, IsSorted, AllAfter}

pub key_lt_irrefl : (k : Key) → key_lt k k ≡ true → ⊥
key_lt_irrefl k h = ground arith

pub AllAfter-Has :
    (P : ℕ → Type 0) (j k : Key) (m : Substrings) → AllAfter j m → Has P k m → key_lt j k ≡ true
AllAfter-Has P j k [] a h = absurd h
AllAfter-Has P j k ((i, d) ∷ m) a (inl p) = subst (λ t. key_lt j t ≡ true) (sym p.0) a.0
AllAfter-Has P j k ((i, d) ∷ m) a (inr h) = AllAfter-Has P j k m a.1 h

-- An entry of a key is the only one.
pub Has-unique :
    (P : ℕ → Type 0) (k : Key) (d : ℕ) (m : Substrings)
    → IsSorted m
    → Has (λ e. e ≡ d) k m
    → Has P k m
    → P d
Has-unique P k d [] s e h = absurd e
Has-unique P k d ((j, c) ∷ m) s (inl e) (inl h) = subst P e.1 h.1
Has-unique P k d ((j, c) ∷ m) s (inl e) (inr h) =
    absurd (key_lt_irrefl k (subst (λ t. key_lt t k ≡ true) (sym e.0) (AllAfter-Has P j k m s.0 h)))
Has-unique P k d ((j, c) ∷ m) s (inr e) (inl h) = absurd (
    key_lt_irrefl k
      (subst (λ t. key_lt t k ≡ true) (sym h.0) (AllAfter-Has (λ e. e ≡ d) j k m s.0 e)))
Has-unique P k d ((j, c) ∷ m) s (inr e) (inr h) = Has-unique P k d m s.1 e h

pub AllEntries-of :
    (F : Key → ℕ → Type 0) (k : Key) (d : ℕ) (m : Substrings)
    → AllEntries F m
    → Has (λ e. e ≡ d) k m
    → F k d
AllEntries-of F k d [] a h = absurd h
AllEntries-of F k d ((j, c) ∷ m) a (inl h) = subst (λ t. F t d) (sym h.0) (subst (F j) h.1 a.0)
AllEntries-of F k d ((j, c) ∷ m) a (inr h) = AllEntries-of F k d m a.1 h

abbrev pub match_of : Key × ℕ → Match
match_of (k, d) = record { sequence_id = k.0; range_start = k.1; range_end = k.2; distance = d }

pub create_matches_lem :
    (m : Substrings) → AllEntries (λ k d. d < infinity) m → create_matches m ≡ ok (map match_of m)
unfolding create_matches create_match
create_matches_lem [] h = refl
create_matches_lem ((k, d) ∷ m) h = rw (cost_new_of_lt d h.0, create_matches_lem m h.1)

-- Increasing keys.
abbrev pub IsMatchLt : Match → Match → Type 0
IsMatchLt a b =
    key_lt (a.sequence_id, a.range_start, a.range_end) (b.sequence_id, b.range_start, b.range_end)
    ≡ true

abbrev pub AllBehind : Match → List Match → Type 0
AllBehind a [] = Unit
AllBehind a (b ∷ bs) = IsMatchLt a b × AllBehind a bs

abbrev pub IsOrdered : List Match → Type 0
IsOrdered [] = Unit
IsOrdered (a ∷ bs) = AllBehind a bs × IsOrdered bs

pub AllAfter-behind :
    (k : Key) (d : ℕ) (m : Substrings) → AllAfter k m → AllBehind (match_of (k, d)) (map match_of m)
AllAfter-behind k d [] h = tt
AllAfter-behind k d ((j, e) ∷ m) h = (h.0, AllAfter-behind k d m h.1)

pub IsSorted-IsOrdered : (m : Substrings) → IsSorted m → IsOrdered (map match_of m)
IsSorted-IsOrdered [] h = tt
IsSorted-IsOrdered ((k, d) ∷ m) h = (AllAfter-behind k d m h.0, IsSorted-IsOrdered m h.1)

pub ∈-of-map :
    (a : Match) (m : Substrings)
    → a ∈ map match_of m
    → (k : Key) × (d : ℕ) × Has (λ e. e ≡ d) k m × (a ≡ match_of (k, d))
∈-of-map a [] h = absurd h
∈-of-map a ((k, d) ∷ m) (inl e) = (k, d, inl (refl, refl), e)
∈-of-map a ((k, d) ∷ m) (inr h) = let (j, c, i, e) = ∈-of-map a m h in (j, c, inr i, e)

pub Has-∈ :
    (P : ℕ → Type 0) (k : Key) (m : Substrings)
    → Has P k m
    → (d : ℕ) × (match_of (k, d) ∈ map match_of m)
Has-∈ P k [] h = absurd h
Has-∈ P k ((j, d) ∷ m) (inl h) = (d, inl (ap (λ t. match_of (t, d)) h.0))
Has-∈ P k ((j, d) ∷ m) (inr h) = let (c, i) = Has-∈ P k m h in (c, inr i)

pub Has-map :
    (P Q : ℕ → Type 0) (k : Key) (m : Substrings) → ((d : ℕ) → P d → Q d) → Has P k m → Has Q k m
Has-map P Q k [] f h = absurd h
Has-map P Q k ((j, d) ∷ m) f (inl h) = inl (h.0, f d h.1)
Has-map P Q k ((j, d) ∷ m) f (inr h) = inr (Has-map P Q k m f h)
