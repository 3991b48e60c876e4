-- ===== src/Setup/Parts.antt =====
-- How the parser of environment files reads a text line by line.
use goblin_pay.Prelude.{
  ℕ, ◌≡◌, refl, ap, ◌∙◌, Bool, true, false, ◌&&◌, some, List, [], ◌∷◌, ◌++◌, append_assoc, ◌==◌,
  All, &&-true, ◌||◌, leb, is_space, trim, trim_start, trim_end, keep_end, Text, join, Without,
  split, split-append, drop_last_blank, split_once, split_once-append, keep_some, prepend, arith,
}
use goblin_pay.Setup.Env.{trimmed_line, parse_line, parse_env_file, setting_of, named}

-- The settings of a text, without the special case of the last line.
abbrev pub parts : Text → List (Text × Text)
parts s = keep_some parse_line (split 10 s)

parts-drop_last_blank :
    (ls : List Text) → keep_some parse_line (drop_last_blank ls) ≡ keep_some parse_line ls
parts-drop_last_blank [] = refl
parts-drop_last_blank ([] ∷ []) = refl
parts-drop_last_blank ((c ∷ cs) ∷ []) = refl
parts-drop_last_blank (p ∷ q ∷ ps) = ap (prepend (parse_line p)) (parts-drop_last_blank (q ∷ ps))

pub parse_env_file-parts : (s : Text) → parse_env_file s ≡ parts s
unfolding parse_env_file
parse_env_file-parts s = parts-drop_last_blank (split 10 s)

-- A value that stands on one line and that trimming leaves alone.
abbrev pub starts_blank : Text → Bool
starts_blank [] = false
starts_blank (c ∷ cs) = is_space c

pub record IsClean (v : Text) : Type 0 where
  pub starts : starts_blank v ≡ false
  pub ends : trim_end v ≡ v
  pub one_line : Without 10 v

pub trim_end-append :
    (s t : Text) (c : ℕ) (cs : Text) → trim_end t ≡ c ∷ cs → trim_end (s ++ t) ≡ s ++ c ∷ cs
trim_end-append [] t c cs e = e
trim_end-append (x ∷ []) t c cs e = ap (keep_end x) e
trim_end-append (x ∷ y ∷ s) t c cs e = ap (keep_end x) (trim_end-append (y ∷ s) t c cs e)

pub Without-append : (d : ℕ) (s t : Text) → Without d s → Without d t → Without d (s ++ t)
Without-append d [] t h k = k
Without-append d (c ∷ cs) t h k = (h.0, Without-append d cs t h.1 k)

trim_end_equals : (v : Text) → trim_end (b'=' ∷ v) ≡ b'=' ∷ trim_end v
trim_end_equals v = go (trim_end v)
  where
    go : (w : Text) → keep_end b'=' w ≡ b'=' ∷ w
    go [] = refl
    go (c ∷ cs) = refl

-- A variable's name: capitals, digits and underscores.
abbrev pub is_word : ℕ → Bool
is_word c = (leb b'A' c && leb c b'Z') || (leb b'0' c && leb c b'9') || c == b'_'

abbrev pub all_words : Text → Bool
all_words [] = true
all_words (c ∷ cs) = is_word c && all_words cs

abbrev pub is_key : Text → Bool
is_key [] = false
is_key (c ∷ cs) = all_words (c ∷ cs)

word-Without_equals : (s : Text) → all_words s ≡ true → Without b'=' s
word-Without_equals [] h = tt
word-Without_equals (c ∷ cs) h =
    (ground (arith, h), word-Without_equals cs (&&-true (is_word c) (all_words cs) h).1)

word-Without_line : (s : Text) → all_words s ≡ true → Without 10 s
word-Without_line [] h = tt
word-Without_line (c ∷ cs) h =
    (ground (arith, h), word-Without_line cs (&&-true (is_word c) (all_words cs) h).1)

word_not_space : (c : ℕ) → is_word c ≡ true → is_space c ≡ false
word_not_space c h = ground (arith, h)

word_not_comment : (c : ℕ) → is_word c ≡ true → (c == b'#') ≡ false
word_not_comment c h = ground (arith, h)

keep_end_word : (c : ℕ) (cs : Text) → is_word c ≡ true → keep_end c cs ≡ c ∷ cs
keep_end_word c [] h = rw (word_not_space c h) refl
keep_end_word c (d ∷ ds) h = refl

trim_end_words : (s : Text) → all_words s ≡ true → trim_end s ≡ s
trim_end_words [] h = refl
trim_end_words (c ∷ cs) h =
    let (first, rest) = &&-true (is_word c) (all_words cs) h in
    ap (keep_end c) (trim_end_words cs rest) ∙ keep_end_word c cs first

trim_key : (s : Text) → is_key s ≡ true → trim s ≡ s
trim_key [] h = absurd (cc h)
trim_key (c ∷ cs) h =
    let (first, rest) = &&-true (is_word c) (all_words cs) h in
    rw (word_not_space c first) (trim_end_words (c ∷ cs) h)

trim_line :
    (key v : Text) → is_key key ≡ true → IsClean v → trim (key ++ b'=' ∷ v) ≡ key ++ b'=' ∷ v
trim_line [] v h k = absurd (cc h)
trim_line (c ∷ cs) v h k =
    let (first, rest) = &&-true (is_word c) (all_words cs) h in
    rw (word_not_space c first)
      (trim_end-append (c ∷ cs) (b'=' ∷ v) b'=' v (trim_end_equals v ∙ ap (λ r. b'=' ∷ r) k.ends))

trimmed_line_of :
    (key s : Text)
    → is_key key ≡ true
    → trimmed_line (key ++ s) ≡ setting_of (split_once b'=' (key ++ s))
trimmed_line_of [] s h = absurd (cc h)
trimmed_line_of (c ∷ cs) s h =
    let (first, rest) = &&-true (is_word c) (all_words cs) h in rw (word_not_comment c first) refl

named_key : (key v : Text) → is_key key ≡ true → named key v ≡ some (key, v)
named_key [] v h = absurd (cc h)
named_key (c ∷ cs) v h = refl

all_words_of_key : (key : Text) → is_key key ≡ true → all_words key ≡ true
all_words_of_key [] h = refl
all_words_of_key (c ∷ cs) h = h

trim_start_clean : (v : Text) → starts_blank v ≡ false → trim_start v ≡ v
trim_start_clean [] h = refl
trim_start_clean (c ∷ cs) h = rw h refl

pub trim_clean : (v : Text) → IsClean v → trim v ≡ v
trim_clean v k = ap trim_end (trim_start_clean v k.starts) ∙ k.ends

pub parse_line_setting :
    (key v : Text) → is_key key ≡ true → IsClean v → parse_line (key ++ b'=' ∷ v) ≡ some (key, v)
parse_line_setting key v h k =
    ap trimmed_line (trim_line key v h k)
    ∙ trimmed_line_of key (b'=' ∷ v) h
    ∙ ap setting_of
        (split_once-append b'=' key v refl (word-Without_equals key (all_words_of_key key h)))
    ∙ ap (λ t. named t (trim v)) (trim_key key h)
    ∙ ap (named key) (trim_clean v k)
    ∙ named_key key v h

parts_line :
    (l rest : Text) → Without 10 l → parts (l ++ 10 ∷ rest) ≡ prepend (parse_line l) (parts rest)
parts_line l rest h = ap (keep_some parse_line) (split-append 10 l rest h refl)

-- A text that ends its line and adds no setting to whatever follows it.
abbrev pub IsNote : Text → Type 0
IsNote t = (rest : Text) → parts (t ++ rest) ≡ parts rest

-- What a file is made of: text without settings, and settings with what follows their line.
pub data Piece : Type 0 where
  note : Text → Piece
  assign : Text → Text → Text → Piece

abbrev pub piece_text : Piece → Text
piece_text (note t) = t
piece_text (assign key v tail) = key ++ b'=' ∷ (v ++ 10 ∷ tail)

abbrev pub pieces_text : List Piece → Text
pieces_text [] = []
pieces_text (p ∷ ps) = piece_text p ++ pieces_text ps

abbrev pub assigned : List Piece → List (Text × Text)
assigned [] = []
assigned (note t ∷ ps) = assigned ps
assigned (assign key v tail ∷ ps) = (key, v) ∷ assigned ps

abbrev pub Reads : Piece → Type 0
Reads (note t) = IsNote t
Reads (assign key v tail) = (is_key key ≡ true) × IsClean v × IsNote tail

parts_assign :
    (key v tail rest : Text)
    → is_key key ≡ true
    → IsClean v
    → IsNote tail
    → parts ((key ++ b'=' ∷ (v ++ 10 ∷ tail)) ++ rest) ≡ (key, v) ∷ parts rest
parts_assign key v tail rest h k e =
    ap parts regroup
    ∙ parts_line (key ++ b'=' ∷ v) (tail ++ rest) (
        Without-append 10 key (b'=' ∷ v) (word-Without_line key (all_words_of_key key h))
          (refl, k.one_line))
    ∙ ap (λ o. prepend o (parts (tail ++ rest))) (parse_line_setting key v h k)
    ∙ ap (λ r. (key, v) ∷ r) (e rest)
  where
    regroup : (key ++ b'=' ∷ (v ++ 10 ∷ tail)) ++ rest ≡ (key ++ b'=' ∷ v) ++ 10 ∷ (tail ++ rest)
    regroup = simp append_assoc

pub parts-pieces_text : (ps : List Piece) → All Reads ps → parts (pieces_text ps) ≡ assigned ps
parts-pieces_text [] h = refl
parts-pieces_text (note t ∷ ps) (h, hs) = h (pieces_text ps) ∙ parts-pieces_text ps hs
parts-pieces_text (assign key v tail ∷ ps) (h, hs) =
    parts_assign key v tail (pieces_text ps) h.0 h.1 h.2
    ∙ ap (λ r. (key, v) ∷ r) (parts-pieces_text ps hs)

-- Clean texts, joined by commas, are clean.
trim_end-join :
    (p : Text) (ps : List Text)
    → All IsClean (p ∷ ps)
    → trim_end (join b',' (p ∷ ps)) ≡ join b',' (p ∷ ps)
trim_end-join p [] h = h.0.ends
trim_end-join p (q ∷ ps) h =
    trim_end-append p (b',' ∷ join b',' (q ∷ ps)) b',' (join b',' (q ∷ ps))
      (comma (join b',' (q ∷ ps)) (trim_end-join q ps h.1))
  where
    comma : (w : Text) → trim_end w ≡ w → trim_end (b',' ∷ w) ≡ b',' ∷ w
    comma [] e = refl
    comma (c ∷ cs) e = ap (keep_end b',') e

starts_blank-join : (ps : List Text) → All IsClean ps → starts_blank (join b',' ps) ≡ false
starts_blank-join [] h = refl
starts_blank-join (p ∷ []) h = h.0.starts
starts_blank-join ([] ∷ q ∷ ps) h = refl
starts_blank-join ((c ∷ cs) ∷ q ∷ ps) h = h.0.starts

Without-join : (ps : List Text) → All IsClean ps → Without 10 (join b',' ps)
Without-join [] h = tt
Without-join (p ∷ []) h = h.0.one_line
Without-join (p ∷ q ∷ ps) h =
    Without-append 10 p (b',' ∷ join b',' (q ∷ ps)) h.0.one_line (refl, Without-join (q ∷ ps) h.1)

pub join-IsClean : (ps : List Text) → All IsClean ps → IsClean (join b',' ps)
join-IsClean [] h = record { starts = refl; ends = refl; one_line = tt }
join-IsClean (p ∷ ps) h = record {
  starts = starts_blank-join (p ∷ ps) h;
  ends = trim_end-join p ps h;
  one_line = Without-join (p ∷ ps) h;
}
