-- ===== src/Search/Persistence/Savable.antt =====
-- What an engine and a codec must be to be saved, and the sections of such an engine.
use yurine.Prelude.{
  ℕ, ◌+◌, ◌*◌, ◌≤◌, ◌<◌, ◌≡◌, refl, List, [], ◌∷◌, ◌++◌, true, false, Eq, length, arith, All, inl,
  inr, ◌==◌, ==_iff,
}
use yurine.Errors.{ok}
use yurine.Storage.{as_slice, mapped}
use yurine.Vocabulary.{Vocabulary, from_tokens}
use yurine.Vocabulary
use yurine.Search.Engine.{SearchEngine, from_unverified_parts}
use yurine.Persistence.Bytes.{u32_limit, u64_limit}
use yurine.Persistence.Utf8.{is_utf8}
use yurine.Persistence.Codec.{TokenCodec}
use yurine.Persistence.Format.{element_layout, section_kind_raw}
use yurine.Persistence.Format.Write.{write_to, data_byte_len, data_element_count}
use yurine.Persistence.Format.Ranges.{validate_offsets, last_of, has_descent}
use yurine.Persistence.Format.Fields.{IsU32, IsU64}
use yurine.Persistence.Format.Written.{IsStorable}
use yurine.Persistence.Format.Room.{HasRoom}
use yurine.Persistence.Format.Elements.{PostingFits}
use yurine.Search.Persistence.{save_sections}

-- A codec as the trait documents it: `encode` appends, and the identifier is a short text.
pub record IsCodec {ℓ} {T : Type ℓ} (codec : TokenCodec T) : Type ℓ where
  pub utf8 : is_utf8 codec.id ≡ true
  pub short_id : length codec.id ≤ 255
  pub version_fits : codec.version < u32_limit
  pub appends :
      (token : T) (output result : List ℕ)
      → codec.encode token output ≡ ok result
      → (bytes : List ℕ) × (result ≡ output ++ bytes)

-- The engine's parts answer for each other, with numbers of their widths.
pub record IsSavable {ℓ} {T : Type ℓ} ⦃eq : Eq T⦄ (engine : SearchEngine T) : Type ℓ where
  pub numbered : from_tokens engine.vocabulary.tokens ≡ ok engine.vocabulary
  pub symbol_count : engine.store.symbol_count ≡ length engine.vocabulary.tokens
  pub assembled : from_unverified_parts engine.vocabulary engine.index engine.store ≡ ok engine
  pub symbol_widths : All IsU32 (as_slice engine.store.symbols)
  pub posting_widths : All PostingFits (as_slice engine.index.postings)
  pub in_corpus :
      validate_offsets
        (as_slice engine.store.string_offsets)
        (length (as_slice engine.store.symbols))
      ≡ ok tt
  pub in_postings :
      validate_offsets
        (as_slice engine.index.posting_offsets)
        (length (as_slice engine.index.postings))
      ≡ ok tt
  pub posting_count :
      length (as_slice engine.index.posting_offsets) ≡ length engine.vocabulary.tokens + 1

-- The bytes of the payloads of a saved engine, with a padding for each.
unfoldable pub payload_room {ℓ} : {T : Type ℓ} → SearchEngine T → List ℕ → List ℕ → ℕ
payload_room engine offsets blob =
    8 * length offsets
    + length blob
    + 8 * length (as_slice engine.store.string_offsets)
    + 4 * length (as_slice engine.store.symbols)
    + 8 * length (as_slice engine.index.posting_offsets)
    + 8 * length (as_slice engine.index.postings)
    + 48

-- The engine with its large arrays in the mapping.
abbrev pub mapped_engine {ℓ} : {T : Type ℓ} → SearchEngine T → SearchEngine T
mapped_engine engine = record engine {
  index = record {
    postings = mapped (as_slice engine.index.postings);
    posting_offsets = mapped (as_slice engine.index.posting_offsets);
  };
  store = record {
    symbols = mapped (as_slice engine.store.symbols);
    string_offsets = mapped (as_slice engine.store.string_offsets);
    symbol_count = engine.store.symbol_count;
  };
}

pub All-le-last :
    (start : ℕ) (bounds : List ℕ)
    → has_descent start bounds ≡ false
    → last_of start bounds < u64_limit
    → All IsU64 (start ∷ bounds)
unfolding has_descent last_of
All-le-last start [] h k = (k, tt)
All-le-last start (next ∷ bounds) h k =
    let ordered : (start ≤ next) × (has_descent next bounds ≡ false) = ground arith in
    let (low, others) = All-le-last next bounds ordered.1 k in
    (omega (arith, ordered.0), (low, others))

-- Offsets that pass the check are no larger than the length of the payload.
pub validate_offsets-IsU64 :
    (offsets : List ℕ) (len : ℕ)
    → validate_offsets offsets len ≡ ok tt
    → len < u64_limit
    → All IsU64 offsets
unfolding validate_offsets
validate_offsets-IsU64 [] len e h = tt
validate_offsets-IsU64 (start ∷ bounds) len e h =
    let facts : (last_of start bounds ≡ len) × (has_descent start bounds ≡ false) = ground arith in
    All-le-last start bounds facts.1 (omega (arith, facts.0))

pub validate_offsets-Encoded :
    (bounds : List ℕ) (len : ℕ)
    → has_descent 0 bounds ≡ false
    → last_of 0 bounds ≡ len
    → validate_offsets (0 ∷ bounds) len ≡ ok tt
unfolding validate_offsets
validate_offsets-Encoded bounds len ascends reaches =
    let ends : (last_of 0 bounds == len) ≡ true = (==_iff (last_of 0 bounds) len).1 reaches in
    rw (ends, ascends) refl

module _ {ℓ} {T : Type ℓ} ⦃eq : Eq T⦄ (codec : TokenCodec T) (engine : SearchEngine T)
    (offsets blob : List ℕ) where
  pub save_sections-IsStorable :
      IsCodec codec
      → length engine.vocabulary.tokens < u64_limit
      → IsStorable codec.id codec.version (save_sections codec engine offsets blob)
  unfolding save_sections element_layout section_kind_raw Vocabulary.len
  save_sections-IsStorable is_codec few = record {
    utf8 = is_codec.utf8;
    version_fits = is_codec.version_fits;
    few = omega arith;
    typed = (
      inr (8, 8, refl, refl),
      (
        inl refl,
        (
          inr (8, 8, refl, refl),
          (inr (4, 4, refl, refl), (inr (8, 8, refl, refl), (inr (8, 4, refl, refl), tt))),
        ),
      ),
    );
    fits = (tt, (few, (tt, (tt, (tt, (tt, tt))))));
    distinct = (
      (refl, (refl, (refl, (refl, (refl, tt))))),
      (
        (refl, (refl, (refl, (refl, tt)))),
        ((refl, (refl, (refl, tt))), ((refl, (refl, tt)), ((refl, tt), (tt, tt)))),
      ),
    );
  }

  pub save_sections-HasRoom :
      HasRoom (save_sections codec engine offsets blob) (payload_room engine offsets blob)
  unfolding save_sections payload_room data_byte_len data_element_count write_to Vocabulary.len
  save_sections-HasRoom = (
    _,
    _,
    _,
    refl,
    refl,
    refl,
    omega arith,
    (
      _,
      _,
      _,
      refl,
      refl,
      refl,
      omega arith,
      (
        _,
        _,
        _,
        refl,
        refl,
        refl,
        omega arith,
        (
          _,
          _,
          _,
          refl,
          refl,
          refl,
          omega arith,
          (_, _, _, refl, refl, refl, omega arith, (_, _, _, refl, refl, refl, omega arith, tt)),
        ),
      ),
    ),
  )
