-- ===== src/Postings/Ordered.antt =====
-- src/postings.rs: entries that are all different are all kept, and are laid out in their order.
use yurine.Errors.{ok}
use yurine.Prelude.{
  All-∈, All-of-∈, ◌≤◌, ◌<◌, ◌⊎◌, ◌↔◌, ◌∈◌, sym, ◌≡◌, refl, ap, ◌∙◌, List, [], ◌∷◌, All, arith,
  true, false, ◌==◌, length, Bool-cases, inl, inr, ==→eq, suc, subst,
}
use yurine.Types.{Symbol, Posting, unknown}
use yurine.Postings.{
  key_le, insert_entry, sort_entries, entry_eq, dedup_after, dedup, posting_lt, is_strictly_ordered,
  PostingsIndexBuilder, posting_slice, build,
}
use yurine.Postings.Grouping.{
  Entry, entries_of, All-insert_entry, All-sort_entries, All-dedup-sort, dedup-sort-keeps,
}
use yurine.Postings.Slices.{of_symbol, of_symbol-∈, ∈-of_symbol, posting_slice-of_symbol}

-- No entry is there twice.
abbrev pub AreDistinct : List Entry → Type 0
AreDistinct [] = Unit
AreDistinct (e ∷ es) = All (λ f. entry_eq e f ≡ false) es × AreDistinct es

-- Each entry is below all that follow.
abbrev IsAscending : List Entry → Type 0
IsAscending [] = Unit
IsAscending (e ∷ es) = All (λ f. key_le f e ≡ false) es × IsAscending es

key_le-strict : (e f : Entry) → key_le e f ≡ true → entry_eq e f ≡ false → key_le f e ≡ false
unfolding key_le posting_lt entry_eq
key_le-strict e f h d = ground arith

key_le_trans : (e f g : Entry) → key_le f e ≡ false → key_le g f ≡ false → key_le g e ≡ false
unfolding key_le posting_lt
key_le_trans e f g h k = ground arith

key_le-different : (e f : Entry) → key_le f e ≡ false → entry_eq e f ≡ false
unfolding key_le posting_lt entry_eq
key_le-different e f h = ground arith

All-above :
    (e f : Entry) (es : List Entry)
    → key_le f e ≡ false
    → All (λ g. key_le g f ≡ false) es
    → All (λ g. key_le g e ≡ false) es
All-above e f [] h all = tt
All-above e f (g ∷ es) h (k, all) = (key_le_trans e f g h k, All-above e f es h all)

insert_entry-IsAscending :
    (e : Entry) (es : List Entry)
    → All (λ f. entry_eq e f ≡ false) es
    → IsAscending es
    → IsAscending (insert_entry e es)
unfolding insert_entry
insert_entry-IsAscending e [] d a = (tt, tt)
insert_entry-IsAscending e (f ∷ fs) (d, ds) (a, rest) = elim (Bool-cases (key_le e f)) [
  | inl y ↦ let first = key_le-strict e f y d in rw y ((first, All-above e f fs first a), (a, rest))
  | inr n ↦
      rw n
        (All-insert_entry (λ g. key_le g f ≡ false) e fs n a, insert_entry-IsAscending e fs ds rest)
]

sort_entries-IsAscending : (es : List Entry) → AreDistinct es → IsAscending (sort_entries es)
unfolding sort_entries
sort_entries-IsAscending [] d = tt
sort_entries-IsAscending (e ∷ es) (d, ds) =
    insert_entry-IsAscending e (sort_entries es) (All-sort_entries (λ f. entry_eq e f ≡ false) es d)
      (sort_entries-IsAscending es ds)

dedup_after_lem : (e : Entry) (es : List Entry) → IsAscending (e ∷ es) → dedup_after e es ≡ es
unfolding dedup_after
dedup_after_lem e [] a = refl
dedup_after_lem e (f ∷ fs) ((k, ks), a) =
    rw (key_le-different e f k) (ap (λ t. f ∷ t) (dedup_after_lem f fs a))

dedup_lem : (es : List Entry) → IsAscending es → dedup es ≡ es
unfolding dedup
dedup_lem [] a = refl
dedup_lem (e ∷ es) a = ap (λ t. e ∷ t) (dedup_after_lem e es a)

length-insert_entry : (e : Entry) (es : List Entry) → length (insert_entry e es) ≡ suc (length es)
unfolding insert_entry
length-insert_entry e [] = refl
length-insert_entry e (f ∷ fs) = elim (Bool-cases (key_le e f)) [
  | inl y ↦ rw y refl
  | inr n ↦ rw n (ap suc (length-insert_entry e fs))
]

length-sort_entries : (es : List Entry) → length (sort_entries es) ≡ length es
unfolding sort_entries
length-sort_entries [] = refl
length-sort_entries (e ∷ es) =
    length-insert_entry e (sort_entries es) ∙ ap suc (length-sort_entries es)

entries_of-sorted : (es : List Entry) → AreDistinct es → entries_of es ≡ sort_entries es
entries_of-sorted es d = dedup_lem (sort_entries es) (sort_entries-IsAscending es d)

-- All entries are kept.
pub length-entries_of : (es : List Entry) → AreDistinct es → length (entries_of es) ≡ length es
length-entries_of es d = ap length (entries_of-sorted es d) ∙ length-sort_entries es

posting_lt-of_key : (e f : Entry) → key_le f e ≡ false → f.0 ≡ e.0 → posting_lt e.1 f.1 ≡ true
unfolding key_le posting_lt
posting_lt-of_key e f h same = ground arith

All-of_symbol :
    (e : Entry) (es : List Entry)
    → All (λ f. key_le f e ≡ false) es
    → All (λ p. posting_lt e.1 p ≡ true) (of_symbol e.0 es)
All-of_symbol e [] all = tt
All-of_symbol e (f ∷ fs) (k, ks) = elim (Bool-cases (f.0 == e.0)) [
  | inl y ↦ rw y (posting_lt-of_key e f k (==→eq f.0 e.0 y), All-of_symbol e fs ks)
  | inr n ↦ rw n (All-of_symbol e fs ks)
]

is_strictly_ordered-first :
    (p : Posting) (ps : List Posting)
    → All (λ q. posting_lt p q ≡ true) ps
    → is_strictly_ordered ps ≡ true
    → is_strictly_ordered (p ∷ ps) ≡ true
unfolding is_strictly_ordered
is_strictly_ordered-first p [] all rest = refl
is_strictly_ordered-first p (q ∷ ps) (first, all) rest = rw first rest

of_symbol-ordered :
    (s : Symbol) (es : List Entry) → IsAscending es → is_strictly_ordered (of_symbol s es) ≡ true
unfolding is_strictly_ordered
of_symbol-ordered s [] a = refl
of_symbol-ordered s (e ∷ es) (k, a) = elim (Bool-cases (e.0 == s)) [
  | inl y ↦ rw y (
      is_strictly_ordered-first e.1 (of_symbol s es)
        (subst (λ t. All (λ p. posting_lt e.1 p ≡ true) (of_symbol t es)) (==→eq e.0 s y)
          (All-of_symbol e es k))
        (of_symbol-ordered s es a))
  | inr n ↦ rw n (of_symbol-ordered s es a)
]

-- No entry is above those that follow.
abbrev AreInOrder : List Entry → Type 0
AreInOrder [] = Unit
AreInOrder (e ∷ es) = All (λ f. key_le e f ≡ true) es × AreInOrder es

key_le-total : (e f : Entry) → key_le e f ≡ false → key_le f e ≡ true
unfolding key_le posting_lt
key_le-total e f h = ground arith

key_le-weak : (e f g : Entry) → key_le e f ≡ true → key_le f g ≡ true → key_le e g ≡ true
unfolding key_le posting_lt
key_le-weak e f g h k = ground arith

All-below :
    (e f : Entry) (es : List Entry)
    → key_le e f ≡ true
    → All (λ g. key_le f g ≡ true) es
    → All (λ g. key_le e g ≡ true) es
All-below e f [] h all = tt
All-below e f (g ∷ es) h (k, all) = (key_le-weak e f g h k, All-below e f es h all)

insert_entry-AreInOrder :
    (e : Entry) (es : List Entry) → AreInOrder es → AreInOrder (insert_entry e es)
unfolding insert_entry
insert_entry-AreInOrder e [] a = (tt, tt)
insert_entry-AreInOrder e (f ∷ fs) (a, rest) = elim (Bool-cases (key_le e f)) [
  | inl y ↦ rw y ((y, All-below e f fs y a), (a, rest))
  | inr n ↦ rw n (
    All-insert_entry (λ g. key_le f g ≡ true) e fs (key_le-total e f n) a,
    insert_entry-AreInOrder e fs rest,
  )
]

sort_entries-AreInOrder : (es : List Entry) → AreInOrder (sort_entries es)
unfolding sort_entries
sort_entries-AreInOrder [] = tt
sort_entries-AreInOrder (e ∷ es) =
    insert_entry-AreInOrder e (sort_entries es) (sort_entries-AreInOrder es)

dedup_after-IsAscending :
    (e : Entry) (es : List Entry)
    → All (λ f. key_le e f ≡ true) es
    → AreInOrder es
    → All (λ f. key_le f e ≡ false) (dedup_after e es) × IsAscending (dedup_after e es)
unfolding dedup_after
dedup_after-IsAscending e [] low a = (tt, tt)
dedup_after-IsAscending e (f ∷ fs) (k, low) (a, rest) = elim (Bool-cases (entry_eq e f)) [
  | inl y ↦ rw y (dedup_after-IsAscending e fs low rest)
  | inr n ↦
      let after = dedup_after-IsAscending f fs a rest in
      let less = key_le-strict e f k n in
      rw n ((less, All-above e f (dedup_after f fs) less after.0), after)
]

dedup-IsAscending : (es : List Entry) → AreInOrder es → IsAscending (dedup es)
unfolding dedup
dedup-IsAscending [] a = tt
dedup-IsAscending (e ∷ es) (low, a) = dedup_after-IsAscending e es low a

-- The postings of each symbol are in their order, each once.
pub is_strictly_ordered-of_symbol :
    (s : Symbol) (es : List Entry) → is_strictly_ordered (of_symbol s (entries_of es)) ≡ true
is_strictly_ordered-of_symbol s es =
    of_symbol-ordered s (entries_of es)
      (dedup-IsAscending (sort_entries es) (sort_entries-AreInOrder es))

-- By string and, in a string, by position.
abbrev IsBefore : Posting → Posting → Type 0
IsBefore p q =
    (p.string_id < q.string_id) ⊎ ((p.string_id ≡ q.string_id) × (p.position < q.position))

abbrev pub AreAscending : List Posting → Type 0
AreAscending [] = Unit
AreAscending (p ∷ ps) = All (IsBefore p) ps × AreAscending ps

key_le-IsBefore : (e f : Entry) → key_le f e ≡ false → f.0 ≡ e.0 → IsBefore e.1 f.1
unfolding key_le posting_lt
key_le-IsBefore e f h same = ground arith

of_symbol-IsBefore :
    (e : Entry) (s : Symbol) (es : List Entry)
    → e.0 ≡ s
    → All (λ f. key_le f e ≡ false) es
    → All (IsBefore e.1) (of_symbol s es)
of_symbol-IsBefore e s [] same all = tt
of_symbol-IsBefore e s (f ∷ fs) same (k, ks) = elim (Bool-cases (f.0 == s)) [
  | inl y ↦
      rw y (key_le-IsBefore e f k (==→eq f.0 s y ∙ sym same), of_symbol-IsBefore e s fs same ks)
  | inr n ↦ rw n (of_symbol-IsBefore e s fs same ks)
]

of_symbol-AreAscending :
    (s : Symbol) (es : List Entry) → IsAscending es → AreAscending (of_symbol s es)
of_symbol-AreAscending s [] a = tt
of_symbol-AreAscending s (e ∷ es) (k, a) = elim (Bool-cases (e.0 == s)) [
  | inl y ↦ rw y (of_symbol-IsBefore e s es (==→eq e.0 s y) k, of_symbol-AreAscending s es a)
  | inr n ↦ rw n (of_symbol-AreAscending s es a)
]

-- Where the entries' symbols are counted and there are no more than the symbols that are known, the
-- slice of every symbol is there, and its postings are exactly those that were added for it, in strict
-- order of their strings and positions, so that each is there once.
pub posting_slice-build :
    (b : PostingsIndexBuilder) (s : Symbol)
    → b.symbol_count ≤ unknown
    → All (λ e. e.0 < b.symbol_count) b.postings
    → (ps : List Posting) × (posting_slice (build b) s ≡ ok ps)
      × AreAscending ps
      × ((p : Posting) → (p ∈ ps) ↔ ((s, p) ∈ b.postings))
posting_slice-build b s few low =
    let es = entries_of b.postings in
    (
      of_symbol s es,
      posting_slice-of_symbol b s few low,
      of_symbol-AreAscending s es
          (dedup-IsAscending (sort_entries b.postings) (sort_entries-AreInOrder b.postings)),
      λ p. (
        λ i.
            All-∈ (λ e. e ∈ b.postings) es (s, p)
              (All-dedup-sort (λ e. e ∈ b.postings) b.postings
                (All-of-∈ (λ e. e ∈ b.postings) b.postings (λ e here. here)))
              (of_symbol-∈ s p es i),
        λ i. ∈-of_symbol s p es (dedup-sort-keeps (s, p) b.postings i),
      ),
    )
