-- ===== src/Persistence/Format/Parts.antt =====
-- The parts of a file that `write_file` writes.
use yurine.Prelude.{
  ℕ, ◌+◌, ◌-◌, ◌*◌, ◌%◌, ◌<◌, ◌≤◌, ◌≡◌, sym, ◌∙◌, List, ◌++◌, arith, subst, length,
}
use yurine.Errors.{Error, ok, ok_or, ok-injective, >>=-eq-ok}
use yurine.Persistence.Bytes.{checked_mul, u32_limit, u64_limit}
use yurine.Persistence.Format.{
  FileKind, SectionKind, SectionDescriptor, SectionData, header_size, section_entry_len,
}
use yurine.Persistence.Format.Write.{
  write_file, align_up, lay_out, header_of, header_as_bytes, write_padding, write_entries,
  write_payloads, validate_codec_id_len,
}
use yurine.Persistence.Format.Payloads.{write_padding_lem}
use yurine.Persistence.Format.Layout.{align_up_eight}

abbrev pub Sections : Type 0
Sections = List (SectionKind × SectionData)

-- The parts of a written file.
pub record Parts (kind : FileKind) (codec_id : List ℕ) (version : ℕ) (sections : Sections)
    (file : List ℕ) : Type 0 where
  pub table_offset : ℕ
  pub cursor : ℕ
  pub descriptors : List SectionDescriptor
  pub padding : List ℕ
  pub payloads : List ℕ
  pub short_id : length codec_id ≤ 255
  pub behind_id : 64 + length codec_id ≤ table_offset
  pub close : table_offset < 64 + length codec_id + 8
  pub laid_out : lay_out (table_offset + length sections * 32) sections ≡ ok (descriptors, cursor)
  pub padded : length padding ≡ table_offset - 64 - length codec_id
  pub paid : write_payloads (table_offset + length sections * 32) sections descriptors ≡ ok payloads
  pub joined :
      file
      ≡ header_as_bytes (header_of kind codec_id version (length sections) table_offset cursor)
        ++ (codec_id ++ (padding ++ (write_entries descriptors ++ payloads)))

short_enough : (codec_id : List ℕ) → validate_codec_id_len codec_id ≡ ok tt → length codec_id ≤ 255
unfolding validate_codec_id_len
short_enough codec_id e = ground arith

table_length :
    (n len : ℕ)
    → ok_or (checked_mul n section_entry_len) (Error.invalid_file "section table length overflows")
      ≡ ok len
    → len ≡ n * 32
unfolding checked_mul
table_length n len e = ground arith

pub write_file-Parts :
    (kind : FileKind) (codec_id : List ℕ) (version : ℕ) (sections : Sections) (file : List ℕ)
    → length sections < u32_limit
    → write_file kind codec_id version sections ≡ ok file
    → Parts kind codec_id version sections file
unfolding write_file
write_file-Parts kind codec_id version sections file few e =
    let (checked, short, e1) = >>=-eq-ok (validate_codec_id_len codec_id) _ e in
    let (table_offset, table_at, e2) =
      >>=-eq-ok (align_up (header_size + length codec_id) 8) _ e1 in
    let (table_len, tabled, e3) =
      >>=-eq-ok (ok_or (checked_mul (length sections) section_entry_len) _) _ e2 in
    let table_end = (table_offset + table_len) % u64_limit in
    let ((descriptors, cursor), laid_out, e4) = >>=-eq-ok (lay_out table_end sections) _ e3 in
    let (padding, pads, e5) =
      >>=-eq-ok (write_padding (table_offset - header_size - length codec_id)) _ e4 in
    let (payloads, paid, e6) = >>=-eq-ok (write_payloads table_end sections descriptors) _ e5 in
    let (lower, upper, aligned) =
      align_up_eight (header_size + length codec_id) table_offset table_at in
    let short_id = short_enough codec_id short in
    let no_wrap : table_end ≡ table_offset + length sections * 32 =
      omega (arith, table_length (length sections) table_len tabled) in
    let (zeros, same, len) = write_padding_lem (table_offset - header_size - length codec_id) in
    record {
      table_offset = table_offset;
      cursor = cursor;
      descriptors = descriptors;
      padding = padding;
      payloads = payloads;
      short_id = short_id;
      behind_id = lower;
      close = upper;
      laid_out = subst (λ n. lay_out n sections ≡ ok (descriptors, cursor)) no_wrap laid_out;
      padded =
          subst (λ z. length z ≡ table_offset - 64 - length codec_id)
            (ok-injective (sym same ∙ pads)) len;
      paid = subst (λ n. write_payloads n sections descriptors ≡ ok payloads) no_wrap paid;
      joined = sym (ok-injective e6);
    }
