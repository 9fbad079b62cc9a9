-- ===== src/Persistence/Format/Placed.antt =====
-- What `write_file` writes behind the section table meets the specification of the layout.
use yurine.Prelude.{
  ℕ, suc, ◌+◌, ◌-◌, ◌%◌, ◌≤◌, ◌<◌, ◌≡◌, refl, sym, ap, ◌∙◌, List, [], ◌∷◌, ◌++◌, length, arith,
  length-append, subst,
}
use mathlib.Core.List.{append_assoc}
use yurine.Errors.{Error, ok, ok_or, >>=-eq-ok, ok-injective}
use yurine.Persistence.Bytes.{checked_add, u64_limit}
use yurine.Persistence.Format.{SectionKind, SectionDescriptor, SectionData}
use yurine.Persistence.Format.Write.{
  lay_out, align_up, section_alignment, data_byte_len, data_element_count, write_to, write_padding,
  write_payloads,
}
use yurine.Persistence.Format.Payloads.{length-write_to, write_padding_lem}
use yurine.Persistence.Format.Layout.{
  align_up-section_alignment, take-drop-middle, IsPlaced, AllPlaced, Follows,
}

abbrev Sections : Type 0
Sections = List (SectionKind × SectionData)

added :
    (a b c : ℕ)
    → ok_or (checked_add a b) (Error.invalid_file "file length overflows") ≡ ok c
    → (c ≡ a + b) × (c < u64_limit)
unfolding checked_add
added a b c e = ground arith

-- One round of the loop that lays the sections out.
record Round (cursor end : ℕ) (kind : SectionKind) (contents : SectionData) (sections : Sections)
    (descriptors : List SectionDescriptor) : Type 0 where
  start : ℕ
  byte_len : ℕ
  element_count : ℕ
  next : ℕ
  others : List SectionDescriptor
  starts : align_up cursor (section_alignment kind) ≡ ok start
  measured : data_byte_len contents ≡ ok byte_len
  counted : data_element_count contents ≡ ok element_count
  advanced : next ≡ start + byte_len
  fits : next < u64_limit
  rest : lay_out next sections ≡ ok (others, end)
  listed :
      descriptors
      ≡ record { kind = kind; offset = start; byte_len = byte_len; element_count = element_count }
        ∷ others

lay_out-Round :
    (cursor end : ℕ) (kind : SectionKind) (contents : SectionData) (sections : Sections)
    (descriptors : List SectionDescriptor)
    → lay_out cursor ((kind, contents) ∷ sections) ≡ ok (descriptors, end)
    → Round cursor end kind contents sections descriptors
unfolding lay_out
lay_out-Round cursor end kind contents sections descriptors e =
    let (start, starts, e1) = >>=-eq-ok (align_up cursor (section_alignment kind)) _ e in
    let (byte_len, measured, e2) = >>=-eq-ok (data_byte_len contents) _ e1 in
    let (element_count, counted, e3) = >>=-eq-ok (data_element_count contents) _ e2 in
    let (next, advance, e4) = >>=-eq-ok (ok_or (checked_add start byte_len) _) _ e3 in
    let ((others, last), rest, e5) = >>=-eq-ok (lay_out next sections) _ e4 in
    let same = ok-injective e5 in
    let same_end : last ≡ end = ap (λ p. p.1) same in
    let (advanced, fits) = added start byte_len next advance in
    record {
      start = start;
      byte_len = byte_len;
      element_count = element_count;
      next = next;
      others = others;
      starts = starts;
      measured = measured;
      counted = counted;
      advanced = advanced;
      fits = fits;
      rest = subst (λ n. lay_out next sections ≡ ok (others, n)) same_end rest;
      listed = sym (ap (λ p. p.0) same);
    }

-- The descriptors are in the order of the file, without an overlap.
pub lay_out-Follows :
    (cursor end : ℕ) (sections : Sections) (descriptors : List SectionDescriptor)
    → lay_out cursor sections ≡ ok (descriptors, end)
    → Follows cursor descriptors end
unfolding lay_out
lay_out-Follows cursor end [] descriptors e =
    let same = ok-injective e in
    let none : [] ≡ descriptors = ap (λ p. p.0) same in
    let stays : cursor ≡ end = ap (λ p. p.1) same in
    subst (λ ds. Follows cursor ds end) none (omega arith)
lay_out-Follows cursor end ((kind, contents) ∷ sections) descriptors e =
    let round = lay_out-Round cursor end kind contents sections descriptors e in
    let (lower, upper, aligned) = align_up-section_alignment cursor round.start kind round.starts in
    let rest = lay_out-Follows round.next end sections round.others round.rest in
    subst (λ ds. Follows cursor ds end) (sym round.listed)
      (lower, subst (λ n. Follows n round.others end) round.advanced rest)

-- The cursor stays a number of 64 bits.
pub lay_out-lt :
    (cursor end : ℕ) (sections : Sections) (descriptors : List SectionDescriptor)
    → cursor < u64_limit
    → lay_out cursor sections ≡ ok (descriptors, end)
    → end < u64_limit
unfolding lay_out
lay_out-lt cursor end [] descriptors h e =
    let stays : cursor ≡ end = ap (λ p. p.1) (ok-injective e) in omega arith
lay_out-lt cursor end ((kind, contents) ∷ sections) descriptors h e =
    let round = lay_out-Round cursor end kind contents sections descriptors e in
    lay_out-lt round.next end sections round.others round.fits round.rest

pub length-lay_out :
    (cursor end : ℕ) (sections : Sections) (descriptors : List SectionDescriptor)
    → lay_out cursor sections ≡ ok (descriptors, end)
    → length descriptors ≡ length sections
unfolding lay_out
length-lay_out cursor end [] descriptors e = ap length (sym (ap (λ p. p.0) (ok-injective e)))
length-lay_out cursor end ((kind, contents) ∷ sections) descriptors e =
    let round = lay_out-Round cursor end kind contents sections descriptors e in
    ap length round.listed ∙ ap suc (length-lay_out round.next end sections round.others round.rest)

-- One round of the loop that writes the payloads.
record Written (written : ℕ) (contents : SectionData) (sections : Sections)
    (descriptor : SectionDescriptor) (descriptors : List SectionDescriptor) (out : List ℕ)
    : Type 0 where
  padding : List ℕ
  payload : List ℕ
  rest : List ℕ
  padded : length padding ≡ descriptor.offset - written
  wrote : write_to contents ≡ ok payload
  followed : write_payloads (descriptor.offset + descriptor.byte_len) sections descriptors ≡ ok rest
  joined : out ≡ padding ++ (payload ++ rest)

write_payloads-Written :
    (written : ℕ) (kind : SectionKind) (contents : SectionData) (sections : Sections)
    (descriptor : SectionDescriptor) (descriptors : List SectionDescriptor) (out : List ℕ)
    → write_payloads written ((kind, contents) ∷ sections) (descriptor ∷ descriptors) ≡ ok out
    → Written written contents sections descriptor descriptors out
unfolding write_payloads
write_payloads-Written written kind contents sections descriptor descriptors out e =
    let (zeros, pads, padded) = write_padding_lem (descriptor.offset - written) in
    let (padding, wrote_padding, e1) =
      >>=-eq-ok (write_padding (descriptor.offset - written)) _ e in
    let (payload, wrote, e2) = >>=-eq-ok (write_to contents) _ e1 in
    let (rest, followed, e3) =
      >>=-eq-ok (write_payloads (descriptor.offset + descriptor.byte_len) sections descriptors) _
        e2 in
    let same : zeros ≡ padding = ok-injective (sym pads ∙ wrote_padding) in
    record {
      padding = padding;
      payload = payload;
      rest = rest;
      padded = subst (λ z. length z ≡ descriptor.offset - written) same padded;
      wrote = wrote;
      followed = followed;
      joined = sym (ok-injective e3);
    }

nil≢cons : {A : Type 0} {x : A} {xs : List A} → [] ≡ x ∷ xs → ⊥
nil≢cons e = cc

place :
    (cursor : ℕ) (kind : SectionKind) (contents : SectionData)
    (before padding payload rest : List ℕ) (descriptor : SectionDescriptor)
    → length before ≡ cursor
    → cursor ≤ descriptor.offset
    → length padding ≡ descriptor.offset - cursor
    → descriptor.kind ≡ kind
    → write_to contents ≡ ok payload
    → data_element_count contents ≡ ok descriptor.element_count
    → data_byte_len contents ≡ ok descriptor.byte_len
    → descriptor.offset % section_alignment kind ≡ 0
    → IsPlaced (before ++ (padding ++ (payload ++ rest))) kind contents descriptor
place cursor kind contents before padding payload rest descriptor h lower padded same wrote counted
      measured aligned =
    let at : length (before ++ padding) ≡ descriptor.offset =
      omega (arith, length-append before padding) in
    let len = length-write_to contents descriptor.byte_len payload measured wrote in
    record {
      payload = payload;
      same_kind = same;
      written = wrote;
      counted = counted;
      measured = measured;
      aligned = aligned;
      inside = rw (← append_assoc before padding (payload ++ rest)) (
          omega (
            arith,
            length-append (before ++ padding) (payload ++ rest),
            length-append payload rest,
            at,
            len,
          ));
      found = rw (← append_assoc before padding (payload ++ rest)) (
          take-drop-middle (before ++ padding) payload rest descriptor.offset descriptor.byte_len at
            len);
    }

placed-Round :
    (cursor end : ℕ) (kind : SectionKind) (contents : SectionData) (sections : Sections)
    (descriptors : List SectionDescriptor) (before out : List ℕ)
    → length before ≡ cursor
    → (round : Round cursor end kind contents sections descriptors)
    → write_payloads cursor ((kind, contents) ∷ sections) descriptors ≡ ok out
    → ((before' out' : List ℕ)
        → lay_out round.next sections ≡ ok (round.others, end)
        → write_payloads round.next sections round.others ≡ ok out'
        → length before' ≡ round.next
        → (round.next + length out' ≡ end) × AllPlaced (before' ++ out') sections round.others)
    → (cursor + length out ≡ end)
      × AllPlaced (before ++ out) ((kind, contents) ∷ sections) descriptors
placed-Round cursor end kind contents sections descriptors before out h round w rest_placed =
    let descriptor : SectionDescriptor = record {
      kind = kind;
      offset = round.start;
      byte_len = round.byte_len;
      element_count = round.element_count;
    } in
    let step = write_payloads-Written cursor kind contents sections descriptor round.others out (
      subst (λ ds. write_payloads cursor ((kind, contents) ∷ sections) ds ≡ ok out) round.listed
        w) in
    let (lower, upper, aligned) = align_up-section_alignment cursor round.start kind round.starts in
    let len = length-write_to contents round.byte_len step.payload round.measured step.wrote in
    let front = before ++ (step.padding ++ step.payload) in
    let at : length front ≡ round.next = omega (
      arith,
      length-append before (step.padding ++ step.payload),
      length-append step.padding step.payload,
      step.padded,
      round.advanced,
      len,
    ) in
    let (ends, placed) =
      rest_placed front step.rest round.rest
        (subst (λ n. write_payloads n sections round.others ≡ ok step.rest) (sym round.advanced)
          step.followed)
        at in
    let whole : front ++ step.rest ≡ before ++ out = rw step.joined (
      append_assoc before (step.padding ++ step.payload) step.rest
      ∙ ap (λ r. before ++ r) (append_assoc step.padding step.payload step.rest)) in
    let here =
      place cursor kind contents before step.padding step.payload step.rest descriptor h lower
        step.padded refl step.wrote round.counted round.measured aligned in
    (
      rw step.joined (
          omega (
            arith,
            length-append step.padding (step.payload ++ step.rest),
            length-append step.payload step.rest,
            step.padded,
            round.advanced,
            len,
            ends,
            lower,
          )),
      subst (λ ds. AllPlaced (before ++ out) ((kind, contents) ∷ sections) ds) (sym round.listed)
          (
            subst (λ o. IsPlaced (before ++ o) kind contents descriptor) (sym step.joined) here,
            subst (λ f. AllPlaced f sections round.others) whole placed,
          ),
    )

-- Every payload stands in the file where its descriptor says, and the file ends with the last one.
pub write_payloads-AllPlaced :
    (cursor end : ℕ) (sections : Sections) (descriptors : List SectionDescriptor)
    (before out : List ℕ)
    → lay_out cursor sections ≡ ok (descriptors, end)
    → write_payloads cursor sections descriptors ≡ ok out
    → length before ≡ cursor
    → (cursor + length out ≡ end) × AllPlaced (before ++ out) sections descriptors
unfolding lay_out write_payloads
write_payloads-AllPlaced cursor end [] [] before out e w h =
    let stays : cursor ≡ end = ap (λ p. p.1) (ok-injective e) in
    (omega (arith, ap length (ok-injective w)), tt)
write_payloads-AllPlaced cursor end [] (descriptor ∷ descriptors) before out e w h =
    absurd (nil≢cons (ap (λ p. p.0) (ok-injective e)))
write_payloads-AllPlaced cursor end ((kind, contents) ∷ sections) descriptors before out e w h =
    let round = lay_out-Round cursor end kind contents sections descriptors e in
    placed-Round cursor end kind contents sections descriptors before out h round w
      (write_payloads-AllPlaced round.next end sections round.others)
