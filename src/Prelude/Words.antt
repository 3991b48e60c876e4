-- ===== src/Prelude/Words.antt =====
-- Texts as lists of codes: equality, lower case, parts, lines, and the lemmas on parts that are
-- clean.
use Prim.Native.Nat.{ℕ, ◌+◌}
use mathlib.Core.Path.{◌≡◌, refl, ap, ◌∙◌}
use mathlib.Core.Logic.{◌↔◌}
use mathlib.Core.Bool.{Bool, true, false, ◌&&◌}
use mathlib.Core.Option.{Option, none, some}
use mathlib.Core.List.{List, [], ◌∷◌, ◌++◌}
use native.Mathlib.Omega.{arith}
use goblin_pay.Prelude.Tests.{◌==◌, leb, if◌then◌else◌}
use goblin_pay.Prelude.Codes.{trim}
use goblin_pay.Prelude.Lists.{All}

abbrev pub Text : Type 0
Text = List ℕ

abbrev pub text_eq : Text → Text → Bool
text_eq [] [] = true
text_eq [] (d ∷ ds) = false
text_eq (c ∷ cs) [] = false
text_eq (c ∷ cs) (d ∷ ds) = c == d && text_eq cs ds

pub text_eq_iff : (s t : Text) → (text_eq s t ≡ true) ↔ (s ≡ t)
text_eq_iff [] [] = ground arith
text_eq_iff [] (d ∷ ds) = (λ h. cc h, λ h. absurd (cc h))
text_eq_iff (c ∷ cs) [] = (λ h. cc h, λ h. absurd (cc h))
text_eq_iff (c ∷ cs) (d ∷ ds) = ground (arith, text_eq_iff cs ds)

abbrev pub text_mem : Text → List Text → Bool
text_mem s [] = false
text_mem s (t ∷ ts) = if text_eq t s then true else text_mem s ts

abbrev pub is_blank : Text → Bool
is_blank [] = true
is_blank (c ∷ cs) = false

-- `str::to_lowercase` on ASCII
abbrev pub lower_code : ℕ → ℕ
lower_code c = if leb b'A' c && leb c b'Z' then c + 32 else c

abbrev pub lowercase : Text → Text
lowercase [] = []
lowercase (c ∷ cs) = lower_code c ∷ lowercase cs

abbrev pub starts_with : Text → Text → Bool
starts_with [] s = true
starts_with (p ∷ ps) [] = false
starts_with (p ∷ ps) (c ∷ cs) = p == c && starts_with ps cs

-- `str::trim_end_matches` of the codes that pass a test
abbrev pub keep_unless : (ℕ → Bool) → ℕ → Text → Text
keep_unless p c [] = if p c then [] else c ∷ []
keep_unless p c (e ∷ es) = c ∷ e ∷ es

abbrev pub trim_end_matches : (ℕ → Bool) → Text → Text
trim_end_matches p [] = []
trim_end_matches p (c ∷ cs) = keep_unless p c (trim_end_matches p cs)

-- The first part gets one more code in front.
abbrev pub push_part : ℕ → List Text → List Text
push_part c [] = (c ∷ []) ∷ []
push_part c (p ∷ ps) = (c ∷ p) ∷ ps

-- `str::split(d)`: a text without the separator is its one part.
abbrev pub split : ℕ → Text → List Text
split d [] = [] ∷ []
split d (c ∷ cs) = let rest = split d cs in if c == d then [] ∷ rest else push_part c rest

-- `[Text]::join(d)`
abbrev pub join : ℕ → List Text → Text
join d [] = []
join d (p ∷ []) = p
join d (p ∷ q ∷ ps) = p ++ d ∷ join d (q ∷ ps)

-- `str::lines` on texts without carriage returns: no line stands behind the last line feed.
abbrev pub drop_last_blank : List Text → List Text
drop_last_blank [] = []
drop_last_blank ([] ∷ []) = []
drop_last_blank ((c ∷ cs) ∷ []) = (c ∷ cs) ∷ []
drop_last_blank (p ∷ q ∷ ps) = p ∷ drop_last_blank (q ∷ ps)

abbrev pub lines : Text → List Text
lines s = drop_last_blank (split 10 s)

-- `str::split_once(d)`
abbrev pub push_key : ℕ → Option (Text × Text) → Option (Text × Text)
push_key c none = none
push_key c (some (a, b)) = some (c ∷ a, b)

abbrev pub split_once : ℕ → Text → Option (Text × Text)
split_once d [] = none
split_once d (c ∷ cs) =
    let later = push_key c (split_once d cs) in if c == d then some ([], cs) else later

-- No code of the text is `d`.
abbrev pub Without : ℕ → Text → Type 0
Without d s = All (λ c. (c == d) ≡ false) s

pub split-Without : (d : ℕ) (s : Text) → Without d s → split d s ≡ s ∷ []
split-Without d [] h = refl
split-Without d (c ∷ cs) h = rw h.0 (ap (push_part c) (split-Without d cs h.1))

pub split-append :
    (d : ℕ) (s rest : Text)
    → Without d s
    → (d == d) ≡ true
    → split d (s ++ d ∷ rest) ≡ s ∷ split d rest
split-append d [] rest h e = rw e refl
split-append d (c ∷ cs) rest h e = rw h.0 (ap (push_part c) (split-append d cs rest h.1 e))

pub split_once-append :
    (d : ℕ) (s rest : Text)
    → (d == d) ≡ true
    → Without d s
    → split_once d (s ++ d ∷ rest) ≡ some (s, rest)
split_once-append d [] rest e h = rw e refl
split_once-append d (c ∷ cs) rest e h = rw h.0 (ap (push_key c) (split_once-append d cs rest e h.1))

pub split_once-Without : (d : ℕ) (s : Text) → Without d s → split_once d s ≡ none
split_once-Without d [] h = refl
split_once-Without d (c ∷ cs) h = rw h.0 (ap (push_key c) (split_once-Without d cs h.1))

-- The parts of joined texts are these texts.
pub split-join :
    (d : ℕ) (p : Text) (ps : List Text)
    → All (Without d) (p ∷ ps)
    → split d (join d (p ∷ ps)) ≡ p ∷ ps
split-join d p [] h = split-Without d p h.0
split-join d p (q ∷ ps) h =
    split-append d p (join d (q ∷ ps)) h.0 (ground arith) ∙ ap (λ r. p ∷ r) (split-join d q ps h.1)

-- A text that trimming leaves alone.
abbrev pub IsTrimmed : Text → Type 0
IsTrimmed s = trim s ≡ s
