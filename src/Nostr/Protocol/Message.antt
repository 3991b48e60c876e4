-- ===== src/Nostr/Protocol/Message.antt =====
-- A payment message is read back to what it was built from (crates/gp-nostr/src/protocol.rs).
use goblin_pay.Prelude.{
  ℕ, suc, ◌+◌, ◌*◌, ◌≤◌, ◌≡◌, refl, ap, sym, ◌∙◌, false, Option, none, some, List, [], ◌∷◌, ◌++◌,
  append_assoc, length, length-append, ltb, byte_len, utf8, utf8_char, trim, arith, codes,
  if◌then◌else◌,
}
use goblin_pay.Nostr.Protocol.{
  armor_begin, armor_end, max_slatepack, max_rumor_content, from_first, through_first, has_block,
  checked_armor, block_of, extract_slatepack, extract_subject, preamble, build_payment_content,
  build_rumor_tags, sanitized, subject_tags,
}

utf8-append : (s t : List ℕ) → utf8 (s ++ t) ≡ utf8 s ++ utf8 t
utf8-append [] t = refl
utf8-append (c ∷ cs) t =
    ap (λ bs. utf8_char c ++ bs) (utf8-append cs t)
    ∙ sym (append_assoc (utf8_char c) (utf8 cs) (utf8 t))

byte_len-append : (s t : List ℕ) → byte_len (s ++ t) ≡ byte_len s + byte_len t
byte_len-append s t = ap (λ bs. length bs) (utf8-append s t) ∙ length-append (utf8 s) (utf8 t)

-- The armor of one slatepack: a begin marker, and an end marker that stands at the end only.
pub record IsArmor (rest : List ℕ) : Type 0 where
  pub trimmed : trim (armor_begin ++ rest) ≡ armor_begin ++ rest
  pub one_end : through_first armor_end (armor_begin ++ rest) ≡ some (armor_begin ++ rest, [])
  pub small : byte_len (armor_begin ++ rest) ≤ 30 * 1024

found :
    (rest : List ℕ)
    → from_first armor_begin (preamble ++ 10 ∷ 10 ∷ (armor_begin ++ rest))
      ≡ some (armor_begin ++ rest)
unfolding from_first
found rest = refl

checked :
    (rest : List ℕ)
    → IsArmor rest
    → checked_armor (some (armor_begin ++ rest, [])) ≡ some (armor_begin ++ rest)
unfolding has_block from_first
checked rest a =
    let fits : ltb max_slatepack (byte_len (armor_begin ++ rest)) ≡ false =
      ground (arith, a.small) in
    ap (λ t. if ltb max_slatepack (byte_len t) then none else some t) a.trimmed
    ∙ ap (λ b. if b then none else some (armor_begin ++ rest)) fits

message_fits :
    (rest : List ℕ)
    → IsArmor rest
    → ltb max_rumor_content (byte_len (preamble ++ 10 ∷ 10 ∷ (armor_begin ++ rest))) ≡ false
message_fits rest a =
    let size : byte_len (preamble ++ 10 ∷ 10 ∷ (armor_begin ++ rest))
        ≡ 80 + suc (suc (byte_len (armor_begin ++ rest))) =
      byte_len-append preamble (10 ∷ 10 ∷ (armor_begin ++ rest)) in
    ap (λ n. ltb max_rumor_content n) size ∙ within (byte_len (armor_begin ++ rest)) a.small
  where
    within : (n : ℕ) → n ≤ 30 * 1024 → ltb max_rumor_content (80 + suc (suc n)) ≡ false
    within n h = ground (arith, h)

-- A payment message that is built around one slatepack of at most 30 KiB is read back to this very
-- armor; the subject of the tags built for a note is read as the note, sanitized on both sides.
pub extract_slatepack-build_payment_content :
    (rest : List ℕ) (note : Option (List ℕ))
    → IsArmor rest
    → (extract_slatepack (build_payment_content (armor_begin ++ rest)) ≡ some (armor_begin ++ rest))
      × (extract_subject (build_rumor_tags note) ≡ sanitized (sanitized note))
unfolding extract_slatepack build_payment_content build_rumor_tags extract_subject
extract_slatepack-build_payment_content rest note a = (
  ap (λ t. extract_slatepack (preamble ++ 10 ∷ 10 ∷ t)) a.trimmed
      ∙ (ap
            (λ b.
              if b
              then none
              else block_of (from_first armor_begin (preamble ++ 10 ∷ 10 ∷ (armor_begin ++ rest))))
            (message_fits rest a)
          ∙ (ap block_of (found rest) ∙ (ap checked_armor a.one_end ∙ checked rest a))),
  tags (sanitized note),
)
  where
    tags :
        (o : Option (List ℕ))
        → extract_subject ((codes "goblin" ∷ codes "1" ∷ []) ∷ subject_tags o) ≡ sanitized o
    tags none = refl
    tags (some n) = refl
