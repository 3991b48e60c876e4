-- ===== src/Nostr/Protocol.antt =====
-- Payment messages (crates/gp-nostr/src/protocol.rs). A text is the list of its
-- characters.
pub mod Armor
pub mod Message
use goblin_pay.Prelude.{
  ℕ, zero, suc, ◌+◌, ◌*◌, ◌≤◌, ◌<◌, String, Bool, true, false, ◌&&◌, ◌||◌, Option, none, some, List,
  [], ◌∷◌, ◌++◌, if◌then◌else◌, ltb, leb, ◌==◌, length, byte_len, take, codes, is_space, trim, map,
  unwrap_or,
}

abbrev pub max_wrap_content : ℕ
max_wrap_content = 64 * 1024

abbrev pub max_rumor_content : ℕ
max_rumor_content = 32 * 1024

abbrev pub max_slatepack : ℕ
max_slatepack = 30 * 1024

abbrev pub max_note_chars : ℕ
max_note_chars = 256

abbrev pub armor_begin : List ℕ
armor_begin = codes "BEGINSLATEPACK."

abbrev pub armor_end : List ℕ
armor_end = codes "ENDSLATEPACK."

-- `char::is_control`: Unicode's category Cc.
abbrev pub is_control : ℕ → Bool
is_control c = ltb c 32 || (leb 127 c && leb c 159)

-- The words of a text with one space between two: `split_whitespace().collect().join(" ")`. The
-- first flag says that a word stands in front, the second that a space is due before the next.
unfoldable pub collapse : Bool → Bool → List ℕ → List ℕ
collapse front gap [] = []
collapse front gap (c ∷ cs) =
    let skip = collapse front front cs in
    let next = collapse true false cs in
    if is_space c then skip else (if gap then b' ' ∷ c ∷ next else c ∷ next)

abbrev pub capped : List ℕ → Option (List ℕ)
capped [] = none
capped (c ∷ cs) = some (take max_note_chars (c ∷ cs))

unfoldable pub sanitize_note : List ℕ → Option (List ℕ)
unfolding collapse
sanitize_note raw =
    capped (trim (collapse false false (map (λ c. if is_control c then b' ' else c) raw)))

abbrev pub is_prefix : List ℕ → List ℕ → Bool
is_prefix [] s = true
is_prefix (p ∷ ps) [] = false
is_prefix (p ∷ ps) (c ∷ cs) = p == c && is_prefix ps cs

-- `&s[s.find(pat)?..]`: the text from the first occurrence on.
unfoldable pub from_first : List ℕ → List ℕ → Option (List ℕ)
from_first pat [] = if is_prefix pat [] then some [] else none
from_first pat (c ∷ cs) =
    let later = from_first pat cs in if is_prefix pat (c ∷ cs) then some (c ∷ cs) else later

abbrev pub drop : ℕ → List ℕ → List ℕ
drop zero s = s
drop (suc n) [] = []
drop (suc n) (c ∷ cs) = drop n cs

abbrev pub push_front : ℕ → Option (List ℕ × List ℕ) → Option (List ℕ × List ℕ)
push_front c none = none
push_front c (some (a, b)) = some (c ∷ a, b)

-- The text through the end of the first occurrence, and the rest.
unfoldable pub through_first : List ℕ → List ℕ → Option (List ℕ × List ℕ)
through_first pat [] = none
through_first pat (c ∷ cs) =
    let later = push_front c (through_first pat cs) in
    if is_prefix pat (c ∷ cs)
    then some (take (length pat) (c ∷ cs), drop (length pat) (c ∷ cs))
    else later

-- A second complete block: a begin marker with an end marker behind it.
unfoldable pub has_block : List ℕ → Bool
has_block rest = elim (from_first armor_begin rest) [
  | none ↦ false
  | some next ↦ elim (from_first armor_end next) [ none ↦ false | some _ ↦ true ]
]

abbrev pub checked_armor : Option (List ℕ × List ℕ) → Option (List ℕ)
checked_armor none = none
checked_armor (some (armor, rest)) =
    if has_block rest
    then none
    else if ltb max_slatepack (byte_len (trim armor))
    then none
    else some (trim armor)

abbrev pub block_of : Option (List ℕ) → Option (List ℕ)
block_of none = none
block_of (some s) = checked_armor (through_first armor_end s)

unfoldable pub extract_slatepack : List ℕ → Option (List ℕ)
extract_slatepack content =
    if ltb max_rumor_content (byte_len content)
    then none
    else block_of (from_first armor_begin content)

abbrev pub preamble : List ℕ
preamble = codes "[Goblin] GRIN payment message — open in Goblin (https://goblin.st) to process."

unfoldable pub build_payment_content : List ℕ → List ℕ
build_payment_content slatepack = preamble ++ 10 ∷ 10 ∷ trim slatepack

abbrev pub Tag : Type 0
Tag = List (List ℕ)

abbrev pub goblin_tag : Tag
goblin_tag = codes "goblin" ∷ codes "1" ∷ []

abbrev pub sanitized : Option (List ℕ) → Option (List ℕ)
sanitized none = none
sanitized (some note) = sanitize_note note

abbrev pub subject_tags : Option (List ℕ) → List Tag
subject_tags none = []
subject_tags (some note) = (codes "subject" ∷ note ∷ []) ∷ []

unfoldable pub build_rumor_tags : Option (List ℕ) → List Tag
unfolding sanitize_note
build_rumor_tags note = goblin_tag ∷ subject_tags (sanitized note)

abbrev pub is_subject : Tag → Bool
is_subject [] = false
is_subject (k ∷ vs) = is_prefix (codes "subject") k && length k == length (codes "subject")

-- The first `subject` tag that has a value decides.
unfoldable pub extract_subject : List Tag → Option (List ℕ)
extract_subject [] = none
extract_subject ([] ∷ ts) = extract_subject ts
extract_subject ((k ∷ []) ∷ ts) = extract_subject ts
extract_subject ((k ∷ v ∷ vs) ∷ ts) =
    let later = extract_subject ts in if is_subject (k ∷ v ∷ vs) then sanitize_note v else later
