-- ===== src/Persistence/Format/Room.antt =====
-- Where the sizes leave room in 64 bits, `write_file` returns.
use yurine.Prelude.{
  ℕ, ◌+◌, ◌-◌, ◌*◌, ◌%◌, ◌<◌, ◌≤◌, ◌≡◌, refl, List, [], ◌∷◌, arith, true, false, length, ltb, ◌⊎◌,
  inl, inr, le→ltb,
}
use yurine.Errors.{Error, ok, ok_or, >>=-Returns}
use yurine.Persistence.Bytes.{checked_add, checked_mul, u64_limit}
use yurine.Persistence.Format.{
  PersistedFile, FileKind, SectionDescriptor, header_size, section_entry_len, max_codec_id_len,
}
use yurine.Persistence.Format.Write.{
  write_file, align_up, lay_out, write_payloads, write_to, data_byte_len, data_element_count,
  section_alignment, validate_codec_id_len,
}
use yurine.Persistence.Format.Payloads.{write_padding_lem}
use yurine.Persistence.Format.Layout.{section_alignment-cases}
use yurine.Persistence.Format.Parts.{Sections}
use yurine.Persistence.Format.Written.{IsStorable}
use yurine.Persistence.Format.RoundTrip.{IsStored, write_file-IsStored}

-- Every payload can be measured, counted and written, and with its padding there is room for it.
abbrev pub HasRoom : Sections → ℕ → Type 0
HasRoom [] room = Unit
HasRoom ((kind, contents) ∷ sections) room =
    (len : ℕ) × (count : ℕ) × (payload : List ℕ) × (data_byte_len contents ≡ ok len)
    × (data_element_count contents ≡ ok count)
    × (write_to contents ≡ ok payload)
    × (len + 8 ≤ room)
    × HasRoom sections (room - (len + 8))

align_up-returns :
    (value alignment : ℕ)
    → (alignment ≡ 1) ⊎ ((alignment ≡ 4) ⊎ (alignment ≡ 8))
    → value + 8 < u64_limit
    → (start : ℕ) × (align_up value alignment ≡ ok start) × (start ≤ value + 8)
unfolding align_up checked_add
align_up-returns value alignment cases h =
    let pad = (alignment - value % alignment) % alignment in
    let small : pad ≤ 8 = elim cases [
      | inl one ↦ rw one (omega arith)
      | inr (inl four) ↦ rw four (omega arith)
      | inr (inr eight) ↦ rw eight (omega arith)
    ] in
    let fits : ltb (value + pad) u64_limit ≡ true = ground arith in
    (value + pad, rw fits refl, omega arith)

lay_out-returns :
    (cursor room : ℕ) (sections : Sections)
    → cursor + room < u64_limit
    → HasRoom sections room
    → (result : List SectionDescriptor × ℕ) × (lay_out cursor sections ≡ ok result)
unfolding lay_out checked_add
lay_out-returns cursor room [] h has_room = (([], cursor), refl)
lay_out-returns cursor room ((kind, contents) ∷ sections) h
      (len, count, payload, measured, counted, wrote, enough, more) =
    let (start, aligned, close) =
      align_up-returns cursor (section_alignment kind) (section_alignment-cases kind)
        (omega arith) in
    let fits : ltb (start + len) u64_limit ≡ true = ground arith in
    let (rest, laid_out) =
      lay_out-returns (start + len) (room - (len + 8)) sections (omega arith) more in
    let advanced : ok_or (checked_add start len) (Error.invalid_file "file length overflows")
        ≡ ok (start + len) =
      rw (checked_add, fits) refl in
    >>=-Returns _ _ start aligned (
      >>=-Returns _ _ len measured (
        >>=-Returns _ _ count counted
          (>>=-Returns _ _ (start + len) advanced (>>=-Returns _ _ rest laid_out (_, refl)))))

write_payloads-returns :
    (written room : ℕ) (sections : Sections) (descriptors : List SectionDescriptor)
    → HasRoom sections room
    → (out : List ℕ) × (write_payloads written sections descriptors ≡ ok out)
unfolding write_payloads
write_payloads-returns written room [] descriptors has_room = ([], refl)
write_payloads-returns written room (section ∷ sections) [] has_room = ([], refl)
write_payloads-returns written room ((kind, contents) ∷ sections) (d ∷ descriptors)
      (len, count, payload, measured, counted, wrote, enough, more) =
    let (zeros, padded, size) = write_padding_lem (d.offset - written) in
    let (rest, followed) =
      write_payloads-returns (d.offset + d.byte_len) (room - (len + 8)) sections descriptors more in
    >>=-Returns _ _ zeros padded
      (>>=-Returns _ _ payload wrote (>>=-Returns _ _ rest followed (_, refl)))

pub write_file-returns :
    (kind : FileKind) (codec_id : List ℕ) (version room : ℕ) (sections : Sections)
    → length codec_id ≤ 255
    → 512 + length sections * 32 + room < u64_limit
    → HasRoom sections room
    → (file : List ℕ) × (write_file kind codec_id version sections ≡ ok file)
unfolding write_file validate_codec_id_len checked_mul
write_file-returns kind codec_id version room sections short h has_room =
    let short_id : ltb max_codec_id_len (length codec_id) ≡ false =
      le→ltb max_codec_id_len (length codec_id) short in
    let (table_offset, aligned, close) =
      align_up-returns (header_size + length codec_id) 8 (inr (inr refl)) (omega arith) in
    let product : ltb (length sections * section_entry_len) u64_limit ≡ true = ground arith in
    let table_end = (table_offset + length sections * 32) % u64_limit in
    let ((descriptors, cursor), laid_out) =
      lay_out-returns table_end room sections (omega arith) has_room in
    let (zeros, padded, size) = write_padding_lem (table_offset - header_size - length codec_id) in
    let (payloads, paid) = write_payloads-returns table_end room sections descriptors has_room in
    let checked : validate_codec_id_len codec_id ≡ ok tt =
      rw (validate_codec_id_len, short_id) refl in
    let tabled : ok_or (checked_mul (length sections) section_entry_len)
          (Error.invalid_file "section table length overflows")
        ≡ ok (length sections * 32) =
      rw (checked_mul, product) refl in
    >>=-Returns _ _ tt checked (
      >>=-Returns _ _ table_offset aligned (
        >>=-Returns _ _ (length sections * 32) tabled (
          >>=-Returns _ _ (descriptors, cursor) laid_out
            (>>=-Returns _ _ zeros padded (>>=-Returns _ _ payloads paid (_, refl))))))

-- Sections of the right types under different kinds, with room for them in a file of less than 2^64
-- bytes, are written, and the file is read back: it is parsed up to the structure of its kind, and
-- under each kind it has the bytes of that payload.
pub write_file-stores :
    (kind : FileKind) (codec_id : List ℕ) (version room : ℕ) (sections : Sections)
    → IsStorable codec_id version sections
    → length codec_id ≤ 255
    → 512 + length sections * 32 + room < u64_limit
    → HasRoom sections room
    → (file : List ℕ) × (write_file kind codec_id version sections ≡ ok file)
      × ((result : PersistedFile) × IsStored file kind codec_id version sections result)
write_file-stores kind codec_id version room sections storable short h has_room =
    let (file, written) = write_file-returns kind codec_id version room sections short h has_room in
    (file, written, write_file-IsStored kind codec_id version sections file storable written)
