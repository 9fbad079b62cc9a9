-- ===== src/Persistence/Codec.antt =====
-- src/persistence/codec.rs: the codecs of tokens. A `char` is its scalar value, and a `String` is the
-- list of its UTF-8 bytes; the text of the standard library's UTF-8 error is left out.
use yurine.Prelude.{
  ℕ, ◌+◌, ◌*◌, ◌/◌, ◌%◌, ◌<◌, ◌==◌, ◌≡◌, refl, sym, ap, ◌∙◌, List, [], ◌∷◌, ◌++◌, Bool, true, ◌&&◌,
  ◌||◌, ltb, leb, if◌then◌else◌, not, length, All, arith, Bool-cases, inl, inr, ap₂, ◌↔◌, ==→eq,
  ==_iff,
}
use yurine.Errors.{Error, Result, ok, err, ok-injective, err≢ok}
use yurine.Persistence.Bytes.{le_bytes, le_value, length-le_bytes, le_value-le_bytes, IsByte}
use yurine.Persistence.Utf8.{is_utf8}

-- `trait TokenCodec<T>`: `encode` returns the output with the token behind it.
pub record TokenCodec {ℓ} (T : Type ℓ) : Type ℓ where
  pub id : List ℕ
  pub version : ℕ
  pub encode : T → List ℕ → Result (List ℕ)
  pub decode : List ℕ → Result T

-- "yurine:string:utf8"
abbrev string_codec_id : List ℕ
string_codec_id =
    121 ∷ 117 ∷ 114 ∷ 105 ∷ 110 ∷ 101 ∷ 58 ∷ 115 ∷ 116 ∷ 114 ∷ 105 ∷ 110 ∷ 103 ∷ 58 ∷ 117 ∷ 116
    ∷ 102 ∷ 56 ∷ []

-- "yurine:char:u32le"
abbrev char_codec_id : List ℕ
char_codec_id =
    121 ∷ 117 ∷ 114 ∷ 105 ∷ 110 ∷ 101 ∷ 58 ∷ 99 ∷ 104 ∷ 97 ∷ 114 ∷ 58 ∷ 117 ∷ 51 ∷ 50 ∷ 108 ∷ 101
    ∷ []

unfoldable pub string_decode : List ℕ → Result (List ℕ)
unfolding is_utf8
string_decode bytes =
    if is_utf8 bytes then ok bytes else err (Error.invalid_token_encoding "invalid utf-8 sequence")

-- `StringCodec`
unfoldable pub string_codec : TokenCodec (List ℕ)
unfolding string_decode
string_codec = record {
  id = string_codec_id;
  version = 1;
  encode = λ token output. ok (output ++ token);
  decode = string_decode;
}

-- `char::from_u32` succeeds.
abbrev pub is_scalar : ℕ → Bool
is_scalar raw = ltb raw 0xd800 || (leb 0xe000 raw && leb raw 0x10ffff)

unfoldable pub char_decode : List ℕ → Result ℕ
unfolding le_value
char_decode bytes =
    if not (length bytes == 4)
    then err (Error.invalid_token_encoding "char must contain four bytes")
    else if is_scalar (le_value bytes)
    then ok (le_value bytes)
    else err (Error.invalid_token_encoding "char is not a Unicode scalar value")

-- `CharCodec`
unfoldable pub char_codec : TokenCodec ℕ
unfolding char_decode le_bytes
char_codec = record {
  id = char_codec_id;
  version = 1;
  encode = λ token output. ok (output ++ le_bytes 4 token);
  decode = char_decode;
}

scalar-lt : (raw : ℕ) → is_scalar raw ≡ true → raw < 0x11_0000
scalar-lt raw h = ground arith

-- Bytes are determined by their number.
le_bytes-le_value :
    (bytes : List ℕ) → All IsByte bytes → le_bytes (length bytes) (le_value bytes) ≡ bytes
unfolding le_bytes le_value
le_bytes-le_value [] all = refl
le_bytes-le_value (byte ∷ bytes) (is_byte, all) =
    let low : (byte + 256 * le_value bytes) % 256 ≡ byte = omega arith in
    let high : (byte + 256 * le_value bytes) / 256 ≡ le_value bytes = omega arith in
    rw (low, high) (ap (λ r. byte ∷ r) (le_bytes-le_value bytes all))

decode_lem :
    (bytes : List ℕ) (c : ℕ)
    → All IsByte bytes
    → char_decode bytes ≡ ok c
    → (is_scalar c ≡ true) × (ok (le_bytes 4 c) ≡ ok bytes)
unfolding char_decode
decode_lem bytes c all e = elim (Bool-cases (length bytes == 4)) [
  | inr other ↦ absurd (err≢ok (rw other at e))
  | inl four ↦ elim (Bool-cases (is_scalar (le_value bytes))) [
    | inr surrogate ↦ absurd (err≢ok (rw (four, surrogate) at e))
    | inl scalar ↦
        let same : le_value bytes ≡ c = ok-injective (rw (four, scalar) at e) in
        let len : length bytes ≡ 4 = ==→eq (length bytes) 4 four in
        (
          rw (← same) scalar,
          ap ok (ap₂ le_bytes (sym len) (sym same) ∙ le_bytes-le_value bytes all),
        )
  ]
]

encode_lem :
    (bytes : List ℕ) (c : ℕ) → is_scalar c ≡ true → le_bytes 4 c ≡ bytes → char_decode bytes ≡ ok c
unfolding char_decode
encode_lem bytes c scalar e =
    let four : (length bytes == 4) ≡ true =
      (==_iff (length bytes) 4).1 (ap length (sym e) ∙ length-le_bytes 4 c) in
    let value : le_value bytes ≡ c =
      ap le_value (sym e) ∙ le_value-le_bytes 4 c (omega (arith, scalar-lt c scalar)) in
    rw (four, value, scalar) refl

-- Decoding four bytes gives a character just when they are the encoding of that scalar value: every
-- scalar value is read back from its encoding, and nothing else is accepted.
pub char_decode_iff :
    (bytes : List ℕ) (c : ℕ)
    → All IsByte bytes
    → (char_decode bytes ≡ ok c) ↔ ((is_scalar c ≡ true) × (char_codec.encode c [] ≡ ok bytes))
unfolding char_decode char_codec
char_decode_iff bytes c all =
    (decode_lem bytes c all, λ (scalar, e). encode_lem bytes c scalar (ok-injective e))
