-- ===== src/Store/Strings.antt =====
-- src/store.rs: the strings that were added are those that are read back.
use mathlib.Core.List.{append_assoc, append-nil}
use yurine.Prelude.{
  ℕ, zero, suc, ◌+◌, ◌-◌, ◌≤◌, ◌<◌, ◌≡◌, refl, ap, subst, ◌∙◌, sym, List, [], ◌∷◌, ◌++◌, arith,
  length, get_elem?, length-append, take, drop, take_of_length, drop_of_length, le→leb, lt→ltb,
  ltb→lt, some, none, Option-cases, inl, inr, Bool-cases, ltb, none≢some,
}
use yurine.Errors.{ok, slice}
use yurine.Types.{Symbol, usize_limit}
use yurine.Storage.{as_slice, is_mapped}
use yurine.Store.{
  CorpusStoreBuilder, CorpusStore, add_string, build, string, string_bounds,
  string_without_symbol_validation,
}
use yurine.Store

unfoldable pub add_strings : CorpusStoreBuilder → List (List Symbol) → CorpusStoreBuilder
unfolding add_string
add_strings b [] = b
add_strings b (s ∷ ss) = add_strings (add_string b s) ss

abbrev pub concat : List (List Symbol) → List Symbol
concat [] = []
concat (s ∷ ss) = s ++ concat ss

abbrev pub ends : ℕ → List (List Symbol) → List ℕ
ends t [] = []
ends t (s ∷ ss) = (t + length s) ∷ ends (t + length s) ss

add_strings-symbols :
    (b : CorpusStoreBuilder) (ss : List (List Symbol))
    → (add_strings b ss).symbols ≡ b.symbols ++ concat ss
unfolding add_strings add_string
add_strings-symbols b [] = sym (append-nil b.symbols)
add_strings-symbols b (s ∷ ss) =
    add_strings-symbols (add_string b s) ss ∙ append_assoc b.symbols s (concat ss)

add_strings-offsets :
    (b : CorpusStoreBuilder) (ss : List (List Symbol))
    → (add_strings b ss).string_offsets ≡ b.string_offsets ++ ends (length b.symbols) ss
unfolding add_strings add_string
add_strings-offsets b [] = sym (append-nil b.string_offsets)
add_strings-offsets b (s ∷ ss) =
    add_strings-offsets (add_string b s) ss
    ∙ ap (λ t. (b.string_offsets ++ (length b.symbols + length s) ∷ []) ++ ends t ss)
        (length-append b.symbols s)
    ∙ append_assoc b.string_offsets ((length b.symbols + length s) ∷ [])
        (ends (length b.symbols + length s) ss)

-- The two offsets around a string, and the symbols between them.
record IsPlaced (t : ℕ) (all : List Symbol) (offsets : List ℕ) (id : ℕ) (s : List Symbol)
    : Type 0 where
  pub start : ℕ
  pub end : ℕ
  pub at_start : get_elem? (t ∷ offsets) id ≡ some start
  pub at_end : get_elem? offsets id ≡ some end
  pub ordered : start ≤ end
  pub within : end ≤ length all
  pub between : take (end - start) (drop start all) ≡ s

ends-IsPlaced :
    (pre : List Symbol) (ss : List (List Symbol)) (id : ℕ) (s : List Symbol)
    → get_elem? ss id ≡ some s
    → IsPlaced (length pre) (pre ++ concat ss) (ends (length pre) ss) id s
ends-IsPlaced pre [] id s e = cc
ends-IsPlaced pre (u ∷ us) zero s e =
    let same : u ≡ s = cc in
    record {
      start = length pre;
      end = length pre + length u;
      at_start = refl;
      at_end = refl;
      ordered = omega arith;
      within = omega (arith, length-append pre (u ++ concat us), length-append u (concat us));
      between =
          ap (take ((length pre + length u) - length pre))
            (drop_of_length pre (u ++ concat us) _ refl)
          ∙ take_of_length u (concat us) _ (omega arith)
          ∙ same;
    }
ends-IsPlaced pre (u ∷ us) (suc id) s e =
    let rest = ends-IsPlaced (pre ++ u) us id s e in
    subst (λ t. IsPlaced (length pre) t (ends (length pre) (u ∷ us)) (suc id) s)
      (append_assoc pre u (concat us))
      (record {
        start = rest.start;
        end = rest.end;
        at_start =
            ap (λ t. get_elem? (t ∷ ends t us) id) (sym (length-append pre u)) ∙ rest.at_start;
        at_end = ap (λ t. get_elem? (ends t us) id) (sym (length-append pre u)) ∙ rest.at_end;
        ordered = rest.ordered;
        within = rest.within;
        between = rest.between;
      })

none≢ : {A : Type 0} {a : A} → ok none ≡ ok (some a) → ⊥
none≢ e = cc

ok-some : {A : Type 0} {a b : A} → ok (some a) ≡ ok (some b) → a ≡ b
ok-some e = cc

ends-none :
    (t id : ℕ) (us : List (List Symbol)) → get_elem? us id ≡ none → get_elem? (ends t us) id ≡ none
ends-none t id [] e = refl
ends-none t zero (u ∷ us) e = cc
ends-none t (suc id) (u ∷ us) e = ends-none (t + length u) id us e

module _ (ss : List (List Symbol)) (count : ℕ) where
  abbrev pub stored : CorpusStore
  stored = build (add_strings Store.new ss) count

  pub offsets_lem : as_slice stored.string_offsets ≡ 0 ∷ ends 0 ss
  unfolding as_slice build Store.new
  offsets_lem = add_strings-offsets Store.new ss

  pub symbols_lem : as_slice stored.symbols ≡ concat ss
  unfolding as_slice build Store.new
  symbols_lem = add_strings-symbols Store.new ss

  bounds-of :
      (id start end : ℕ)
      → id + 1 < usize_limit
      → get_elem? (0 ∷ ends 0 ss) id ≡ some start
      → get_elem? (ends 0 ss) id ≡ some end
      → string_bounds stored id ≡ some (start, end)
  unfolding string_bounds
  bounds-of id start end h at_start at_end =
      let next : id + 1 ≡ suc id = omega arith in
      rw (lt→ltb (id + 1) usize_limit h, offsets_lem, at_start, next, offsets_lem, at_end) refl

  slice-of :
      (start end : ℕ) (s : List Symbol)
      → start ≤ end
      → end ≤ length (concat ss)
      → take (end - start) (drop start (concat ss)) ≡ s
      → slice (as_slice stored.symbols) start end ≡ ok s
  unfolding slice
  slice-of start end s ordered within between =
      rw (symbols_lem, le→leb start end ordered, le→leb end (length (concat ss)) within)
        (ap ok between)

  pub string_without_symbol_validation-of :
      (id : ℕ) (s : List Symbol)
      → get_elem? ss id ≡ some s
      → id + 1 < usize_limit
      → string_without_symbol_validation stored id ≡ ok (some s)
  unfolding string_without_symbol_validation build
  string_without_symbol_validation-of id s e h =
      let p = ends-IsPlaced [] ss id s e in
      rw
        (
          string_without_symbol_validation,
          bounds-of id p.start p.end h p.at_start p.at_end,
          slice-of p.start p.end s p.ordered p.within p.between,
        )
        refl

  -- A string that was added is read back.
  pub string-of :
      (id : ℕ) (s : List Symbol)
      → get_elem? ss id ≡ some s
      → id + 1 < usize_limit
      → string stored id ≡ ok (some s)
  unfolding string is_mapped build
  string-of id s e h = rw (string_without_symbol_validation-of id s e h) refl

  bounds-none : (id : ℕ) → get_elem? (ends 0 ss) id ≡ none → string_bounds stored id ≡ none
  unfolding string_bounds
  bounds-none id e = elim (Bool-cases (ltb (id + 1) usize_limit)) [
    | inr big ↦ rw big refl
    | inl small ↦
        let next : id + 1 ≡ suc id = omega arith in
        elim (Option-cases (get_elem? (0 ∷ ends 0 ss) id)) [
          | inl none_there ↦ rw (small, offsets_lem, none_there) refl
          | inr (start, at_start) ↦ rw (small, offsets_lem, at_start, next, offsets_lem, e) refl
        ]
  ]

  inside : (id : ℕ) (bounds : ℕ × ℕ) → string_bounds stored id ≡ some bounds → id + 1 < usize_limit
  unfolding string_bounds
  inside id bounds found = elim (Bool-cases (ltb (id + 1) usize_limit)) [
    | inl small ↦ ltb→lt (id + 1) usize_limit small
    | inr big ↦ absurd (none≢some (rw big at found))
  ]

  -- What is read back is a string that was added.
  pub string-is :
      (id : ℕ) (s : List Symbol) → string stored id ≡ ok (some s) → get_elem? ss id ≡ some s
  unfolding string string_without_symbol_validation is_mapped build
  string-is id s e = elim (Option-cases (string_bounds stored id)) [
    | inl nothing ↦ absurd (none≢ (rw (string_without_symbol_validation, nothing) at e))
    | inr (bounds, found) ↦ elim (Option-cases (get_elem? ss id)) [
      | inr (u, there) ↦
          there ∙ ap some (ok-some (sym (string-of id u there (inside id bounds found)) ∙ e))
      | inl missing ↦ absurd (none≢some (sym (bounds-none id (ends-none 0 id ss missing)) ∙ found))
    ]
  ]
