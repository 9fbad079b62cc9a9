-- ===== src/Search/Persistence/Tokens.antt =====
-- The offsets and the blob of the tokens: what is saved is decoded to the tokens.
use yurine.Prelude.{
  ℕ, suc, ◌+◌, ◌-◌, ◌≤◌, ◌<◌, ◌≡◌, refl, sym, ap, ◌∙◌, List, [], ◌∷◌, ◌++◌, true, false, Bool, Eq,
  if◌then◌else◌, not, length, take, drop, leb, ltb, arith, length-append,
}
use mathlib.Core.List.{append_assoc, append-nil}
use yurine.Errors.{Error, Result, ok, err, slice, >>=-eq-ok, ok-injective, err≢ok}
use yurine.Types.{usize_limit}
use yurine.Persistence.Bytes.{to_usize}
use yurine.Persistence.Codec.{TokenCodec}
use yurine.Persistence.Format.Ranges.{last_of, has_descent}
use yurine.Persistence.Format.Layout.{take-drop-middle}
use yurine.Search.Persistence.{encode_tokens, decode_tokens}

slice-eq :
    {A : Type 0} (xs : List A) (start end : ℕ)
    → start ≤ end
    → end ≤ length xs
    → slice xs start end ≡ ok (take (end - start) (drop start xs))
unfolding slice
slice-eq xs start end h k =
    let ordered : leb start end ≡ true = ground arith in
    let inside : leb end (length xs) ≡ true = ground arith in rw (ordered, inside) refl

-- The bytes between two blobs.
slice-between :
    (before middle behind : List ℕ) (end : ℕ)
    → end ≡ length before + length middle
    → slice (before ++ (middle ++ behind)) (length before) end ≡ ok middle
slice-between before middle behind end e =
    slice-eq (before ++ (middle ++ behind)) (length before) end (omega arith)
      (omega (arith, length-append before (middle ++ behind), length-append middle behind))
    ∙ ap ok (
        take-drop-middle before middle behind (length before) (end - length before) refl
          (omega arith))

module _ {ℓ} {T : Type ℓ} ⦃eq : Eq T⦄ (codec : TokenCodec T) where
  -- What the loop adds to the offsets and to the blob.
  pub record Encoded (tokens : List T) (token_offsets token_blob offsets blob : List ℕ)
      : Type ℓ where
    pub bounds : List ℕ
    pub tail : List ℕ
    pub listed : offsets ≡ token_offsets ++ bounds
    pub grown : blob ≡ token_blob ++ tail
    pub counted : length bounds ≡ length tokens
    pub reaches : last_of (length token_blob) bounds ≡ length blob
    pub ascends : has_descent (length token_blob) bounds ≡ false
    pub decodes :
        length blob < usize_limit → decode_tokens codec blob (length token_blob) bounds ≡ ok tokens

  checked :
      (round_trips : Bool) (problem : Error) (rest : Result (List ℕ × List ℕ))
      (result : List ℕ × List ℕ)
      → (if not round_trips then err problem else rest) ≡ ok result
      → (round_trips ≡ true) × (rest ≡ ok result)
  checked true problem rest result e = (refl, e)
  checked false problem rest result e = absurd (err≢ok e)

  decode_tokens-step :
      (blob offsets bytes : List ℕ) (start end : ℕ) (token : T) (tokens : List T)
      → start < usize_limit
      → end < usize_limit
      → slice blob start end ≡ ok bytes
      → codec.decode bytes ≡ ok token
      → decode_tokens codec blob end offsets ≡ ok tokens
      → decode_tokens codec blob start (end ∷ offsets) ≡ ok (token ∷ tokens)
  unfolding decode_tokens to_usize
  decode_tokens-step blob offsets bytes start end token tokens h k sliced decoded rest =
      let from : ltb start usize_limit ≡ true = ground arith in
      let to : ltb end usize_limit ≡ true = ground arith in
      rw (from, to, sliced, decoded, rest) refl

  pub encode_tokens-Encoded :
      ((token : T) (output result : List ℕ)
        → codec.encode token output ≡ ok result
        → (bytes : List ℕ) × (result ≡ output ++ bytes))
      → (tokens : List T) (token_offsets token_blob offsets blob : List ℕ)
      → encode_tokens codec tokens token_offsets token_blob ≡ ok (offsets, blob)
      → Encoded tokens token_offsets token_blob offsets blob
  unfolding encode_tokens decode_tokens last_of has_descent
  encode_tokens-Encoded appends [] token_offsets token_blob offsets blob e =
      let same = ok-injective e in
      let same_blob : token_blob ≡ blob = ap (λ p. p.1) same in
      record {
        bounds = [];
        tail = [];
        listed = sym (ap (λ p. p.0) same) ∙ sym (append-nil token_offsets);
        grown = sym same_blob ∙ sym (append-nil token_blob);
        counted = refl;
        reaches = ap length same_blob;
        ascends = refl;
        decodes = λ h. refl;
      }
  encode_tokens-Encoded appends (token ∷ tokens) token_offsets token_blob offsets blob e =
      let (next, encodes, e1) = >>=-eq-ok (codec.encode token token_blob) _ e in
      let (bytes, extended) = appends token token_blob next encodes in
      let (encoded, sliced, e2) = >>=-eq-ok (slice next (length token_blob) (length next)) _ e1 in
      let (decoded, decodes, e3) = >>=-eq-ok (codec.decode encoded) _ e2 in
      let (round_trips, rest) = checked (eq.beq decoded token) _ _ (offsets, blob) e3 in
      let others =
        encode_tokens-Encoded appends tokens (token_offsets ++ length next ∷ []) next offsets blob
          rest in
      let size : length next ≡ length token_blob + length bytes =
        ap length extended ∙ length-append token_blob bytes in
      let whole : blob ≡ token_blob ++ (bytes ++ others.tail) =
        others.grown
        ∙ ap (λ b. b ++ others.tail) extended
        ∙ append_assoc token_blob bytes others.tail in
      let same_bytes : encoded ≡ bytes = ok-injective (
        sym sliced
        ∙ ap (λ b. slice b (length token_blob) (length next))
            (extended ∙ ap (λ b. token_blob ++ b) (sym (append-nil bytes)))
        ∙ slice-between token_blob bytes [] (length next) size) in
      let longer : length token_blob ≤ length next = omega (arith, size) in
      let above : ltb (length next) (length token_blob) ≡ false = ground arith in
      record {
        bounds = length next ∷ others.bounds;
        tail = bytes ++ others.tail;
        listed = others.listed ∙ append_assoc token_offsets (length next ∷ []) others.bounds;
        grown = whole;
        counted = ap suc others.counted;
        reaches = others.reaches;
        ascends = rw above others.ascends;
        decodes = λ h.
            let len : length blob ≡ length token_blob + (length bytes + length others.tail) =
              ap length whole
              ∙ length-append token_blob (bytes ++ others.tail)
              ∙ ap (λ n. length token_blob + n) (length-append bytes others.tail) in
            decode_tokens-step blob others.bounds bytes (length token_blob) (length next) token
              tokens (omega (arith, len, h)) (omega (arith, len, h, size))
              (rw whole (slice-between token_blob bytes others.tail (length next) size))
              (ap codec.decode (sym same_bytes)
                ∙ decodes
                ∙ ap ok ((eq.beq_iff decoded token).0 round_trips))
              (others.decodes h);
      }
