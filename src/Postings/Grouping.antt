-- ===== src/Postings/Grouping.antt =====
-- src/postings.rs: sorting and deduplication keep the entries, and group them by symbol.
use yurine.Prelude.{
  ℕ, ◌≤◌, ◌≡◌, refl, sym, ◌∙◌, List, [], ◌∷◌, ◌∈◌, ◌⊎◌, inl, inr, Bool-cases, All, arith, true,
  false, subst,
}
use yurine.Types.{Symbol, Posting}
use yurine.Postings.{key_le, insert_entry, sort_entries, entry_eq, dedup_after, dedup, posting_lt}

abbrev pub Entry : Type 0
Entry = Symbol × Posting

abbrev pub IsGrouped : List Entry → Type 0
IsGrouped [] = Unit
IsGrouped (e ∷ es) = All (λ f. e.0 ≤ f.0) es × IsGrouped es

All-le_trans : (s t : ℕ) (es : List Entry) → s ≤ t → All (λ f. t ≤ f.0) es → All (λ f. s ≤ f.0) es
All-le_trans s t [] h a = tt
All-le_trans s t (e ∷ es) h a = (omega (arith, h, a.0), All-le_trans s t es h a.1)

key_le-le : (e f : Entry) → key_le e f ≡ true → e.0 ≤ f.0
unfolding key_le posting_lt
key_le-le e f h = ground arith

key_le-ge : (e f : Entry) → key_le e f ≡ false → f.0 ≤ e.0
unfolding key_le posting_lt
key_le-ge e f h = ground arith

pub All-insert_entry :
    (P : Entry → Type 0) (e : Entry) (es : List Entry) → P e → All P es → All P (insert_entry e es)
unfolding insert_entry
All-insert_entry P e [] p a = (p, tt)
All-insert_entry P e (f ∷ fs) p a = elim (Bool-cases (key_le e f)) [
  | inl y ↦ rw y (p, a)
  | inr n ↦ rw n (a.0, All-insert_entry P e fs p a.1)
]

insert_entry-IsGrouped :
    (e : Entry) (es : List Entry) → IsGrouped es → IsGrouped (insert_entry e es)
unfolding insert_entry
insert_entry-IsGrouped e [] g = (tt, tt)
insert_entry-IsGrouped e (f ∷ fs) g = elim (Bool-cases (key_le e f)) [
  | inl y ↦ rw y ((key_le-le e f y, All-le_trans e.0 f.0 fs (key_le-le e f y) g.0), g)
  | inr n ↦ rw n (
    All-insert_entry (λ t. f.0 ≤ t.0) e fs (key_le-ge e f n) g.0,
    insert_entry-IsGrouped e fs g.1,
  )
]

sort_entries-IsGrouped : (es : List Entry) → IsGrouped (sort_entries es)
unfolding sort_entries
sort_entries-IsGrouped [] = tt
sort_entries-IsGrouped (e ∷ es) =
    insert_entry-IsGrouped e (sort_entries es) (sort_entries-IsGrouped es)

insert_entry-new : (e : Entry) (es : List Entry) → e ∈ insert_entry e es
unfolding insert_entry
insert_entry-new e [] = inl refl
insert_entry-new e (f ∷ fs) = elim (Bool-cases (key_le e f)) [
  | inl y ↦ rw y (inl refl)
  | inr n ↦ rw n (inr (insert_entry-new e fs))
]

insert_entry-keeps : (x e : Entry) (es : List Entry) → x ∈ es → x ∈ insert_entry e es
unfolding insert_entry
insert_entry-keeps x e [] h = absurd h
insert_entry-keeps x e (f ∷ fs) h = elim (Bool-cases (key_le e f)) [
  | inl y ↦ rw y (inr h)
  | inr n ↦ rw n (elim h [ inl same ↦ inl same | inr more ↦ inr (insert_entry-keeps x e fs more) ])
]

sort_entries-keeps : (x : Entry) (es : List Entry) → x ∈ es → x ∈ sort_entries es
unfolding sort_entries
sort_entries-keeps x [] h = absurd h
sort_entries-keeps x (e ∷ es) (inl same) =
    subst (λ t. t ∈ insert_entry e (sort_entries es)) (sym same)
      (insert_entry-new e (sort_entries es))
sort_entries-keeps x (e ∷ es) (inr h) =
    insert_entry-keeps x e (sort_entries es) (sort_entries-keeps x es h)

pub All-sort_entries : (P : Entry → Type 0) (es : List Entry) → All P es → All P (sort_entries es)
unfolding sort_entries
All-sort_entries P [] a = tt
All-sort_entries P (e ∷ es) a =
    All-insert_entry P e (sort_entries es) a.0 (All-sort_entries P es a.1)

entry_eq-eq : (e f : Entry) → entry_eq e f ≡ true → e ≡ f
unfolding entry_eq
entry_eq-eq e f h = ground arith

All-dedup_after :
    (P : Entry → Type 0) (e : Entry) (es : List Entry) → All P es → All P (dedup_after e es)
unfolding dedup_after
All-dedup_after P e [] a = tt
All-dedup_after P e (f ∷ fs) a = elim (Bool-cases (entry_eq e f)) [
  | inl y ↦ rw y (All-dedup_after P e fs a.1)
  | inr n ↦ rw n (a.0, All-dedup_after P f fs a.1)
]

dedup_after-IsGrouped : (e : Entry) (es : List Entry) → IsGrouped es → IsGrouped (dedup_after e es)
unfolding dedup_after
dedup_after-IsGrouped e [] g = tt
dedup_after-IsGrouped e (f ∷ fs) g = elim (Bool-cases (entry_eq e f)) [
  | inl y ↦ rw y (dedup_after-IsGrouped e fs g.1)
  | inr n ↦ rw n (All-dedup_after (λ t. f.0 ≤ t.0) f fs g.0, dedup_after-IsGrouped f fs g.1)
]

dedup_after-keeps : (x e : Entry) (es : List Entry) → x ∈ es → (x ≡ e) ⊎ (x ∈ dedup_after e es)
unfolding dedup_after
dedup_after-keeps x e [] h = absurd h
dedup_after-keeps x e (f ∷ fs) h = elim (Bool-cases (entry_eq e f)) [
  | inl y ↦ rw y (elim h [
    | inl same ↦ inl (let t = entry_eq-eq e f y in same ∙ sym t)
    | inr more ↦ dedup_after-keeps x e fs more
  ])
  | inr n ↦
      rw n (elim h [ inl same ↦ inr (inl same) | inr more ↦ inr (dedup_after-keeps x f fs more) ])
]

-- The entries that `build` lays out.
abbrev pub entries_of : List Entry → List Entry
entries_of es = dedup (sort_entries es)

pub dedup-sort-IsGrouped : (es : List Entry) → IsGrouped (entries_of es)
unfolding dedup
dedup-sort-IsGrouped es = from (sort_entries es) (sort_entries-IsGrouped es)
  where
    from : (fs : List Entry) → IsGrouped fs → IsGrouped (dedup fs)
    from [] g = tt
    from (f ∷ fs) g = (All-dedup_after (λ t. f.0 ≤ t.0) f fs g.0, dedup_after-IsGrouped f fs g.1)

pub All-dedup-sort : (P : Entry → Type 0) (es : List Entry) → All P es → All P (entries_of es)
unfolding dedup
All-dedup-sort P es a = from (sort_entries es) (All-sort_entries P es a)
  where
    from : (fs : List Entry) → All P fs → All P (dedup fs)
    from [] g = tt
    from (f ∷ fs) g = (g.0, All-dedup_after P f fs g.1)

pub dedup-sort-keeps : (x : Entry) (es : List Entry) → x ∈ es → x ∈ entries_of es
unfolding dedup
dedup-sort-keeps x es h = from (sort_entries es) (sort_entries-keeps x es h)
  where
    from : (fs : List Entry) → x ∈ fs → x ∈ dedup fs
    from [] g = g
    from (f ∷ fs) (inl same) = inl same
    from (f ∷ fs) (inr g) = dedup_after-keeps x f fs g
