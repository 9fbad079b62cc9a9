-- ===== src/Errors.antt =====
-- src/errors.rs: the errors that the modelled operations return, and their result type. A `panic` is
-- an index or a slice out of range, which stops the program. A string that a caller gives is the list
-- of its UTF-8 bytes.
use Prim.Native.String.{String}
use yurine.Prelude.{
  ℕ, ◌≡◌, refl, List, length, take, drop, leb, ◌-◌, if◌then◌else◌, ◌&&◌, Option, none, some, ◌⊎◌,
  inl, inr, subst, sym,
}

pub data Error : Type 0 where
  invalid_cost : ℕ → Error
  invalid_threshold : ℕ → Error
  sequence_id_overflow position_overflow symbol_overflow : Error
  duplicate_alphabet_symbol : Error
  unknown_string_symbol : ℕ → Error
  unknown_string : ℕ → Error
  invalid_string_position : ℕ → ℕ → Error
  invalid_query_position : ℕ → ℕ → Error
  threshold_subsequence_unavailable : Error
  search_too_expensive : ℕ → ℕ → Error
  invalid_file : String → Error
  unsupported_format_version : ℕ → Error
  endianness_mismatch : Error
  codec_mismatch : List ℕ → List ℕ → Error
  codec_version_mismatch codec_id_too_long : ℕ → ℕ → Error
  invalid_token_encoding : String → Error
  embedding_index_overflow platform_size_overflow : Error
  invalid_embedding_dimension invalid_embedding_value : ℕ → ℕ → Error
  zero_norm_embedding : Error

-- What a call ends with: a panic stops the program.
pub data Result {ℓ} (T : Type ℓ) : Type ℓ where
  panic : Result T
  err : Error → Result T
  ok : T → Result T

-- `&xs[start..end]` and `xs[index]`
unfoldable pub slice {ℓ} : {A : Type ℓ} → List A → ℕ → ℕ → Result (List A)
slice xs start end =
    if leb start end && leb end (length xs) then ok (take (end - start) (drop start xs)) else panic

abbrev pub expect {ℓ} : {A : Type ℓ} → Option A → Result A
expect none = panic
expect (some a) = ok a

-- `Result::unwrap`
abbrev pub unwrap {ℓ} : {A : Type ℓ} → Result A → Result A
unwrap (ok a) = ok a
unwrap (err e) = panic
unwrap panic = panic

-- `Option::ok_or`
abbrev pub ok_or {ℓ} : {A : Type ℓ} → Option A → Error → Result A
ok_or none e = err e
ok_or (some a) e = ok a

-- The `?` operator: the first failure is the result.
infixl 1 ◌>>=◌ ◌>>◌
abbrev pub ◌>>=◌ {ℓ κ} : {S : Type ℓ} {T : Type κ} → Result S → (S → Result T) → Result T
panic >>= next = panic
err problem >>= next = err problem
ok value >>= next = next value

-- What succeeds as a whole succeeds in both steps.
pub >>=-eq-ok {ℓ κ} :
    {S : Type ℓ} {T : Type κ} (first : Result S) (next : S → Result T) {t : T}
    → (first >>= next) ≡ ok t
    → (s : S) × (first ≡ ok s) × (next s ≡ ok t)
>>=-eq-ok panic next whole = cc
>>=-eq-ok (err problem) next whole = cc
>>=-eq-ok (ok s) next whole = (s, refl, whole)

-- A result that is there.
abbrev pub Returns {ℓ} : {T : Type ℓ} → Result T → Type ℓ
Returns {T = T} r = (t : T) × (r ≡ ok t)

pub ok-injective {ℓ} : {T : Type ℓ} {s t : T} → ok s ≡ ok t → s ≡ t
ok-injective e = cc

pub err≢ok {ℓ} : {T : Type ℓ} {problem : Error} {t : T} → err problem ≡ ok t → ⊥
err≢ok e = cc

pub panic≢ok {ℓ} : {T : Type ℓ} {t : T} → panic ≡ ok t → ⊥
panic≢ok e = cc

pub >>=-Returns {ℓ κ} :
    {S : Type ℓ} {T : Type κ} (first : Result S) (next : S → Result T) (s : S)
    → first ≡ ok s
    → Returns (next s)
    → Returns (first >>= next)
>>=-Returns panic next s e rest = absurd (panic≢ok e)
>>=-Returns (err problem) next s e rest = absurd (err≢ok e)
>>=-Returns (ok a) next s e rest = subst (λ x. Returns (next x)) (sym (ok-injective e)) rest

-- To split on a computed result and keep the equation.
pub Result-cases {ℓ} :
    {A : Type ℓ} (r : Result A)
    → ((a : A) × (r ≡ ok a)) ⊎ (((e : Error) × (r ≡ err e)) ⊎ (r ≡ panic))
Result-cases (ok a) = inl (a, refl)
Result-cases (err e) = inr (inl (e, refl))
Result-cases panic = inr (inr refl)

-- A step without a value.
abbrev pub ◌>>◌ {ℓ} : {T : Type ℓ} → Result (Unit {0}) → Result T → Result T
step >> rest = step >>= λ done. rest
