-- ===== src/Prelude/Utf8.antt =====
-- UTF-8 (RFC 3629): the bytes of a text, and the text of its bytes.
use Prim.Native.Nat.{ℕ, zero, suc, ◌+◌, ◌-◌, ◌*◌, ◌/◌, ◌%◌, ◌<◌}
use mathlib.Core.Path.{◌≡◌, refl, ap, ◌∙◌}
use mathlib.Core.Logic.{inl, inr}
use mathlib.Core.Bool.{true, false}
use mathlib.Core.Option.{Option, none, some}
use mathlib.Core.List.{List, [], ◌∷◌, ◌++◌}
use native.Mathlib.Omega.{arith}
use goblin_pay.Prelude.Tests.{ltb, if◌then◌else◌, Bool-cases}
use goblin_pay.Prelude.Lists.{All, length}
use goblin_pay.Prelude.Words.{Text}

-- The payload of a byte behind the first.
abbrev pub trailing : ℕ → ℕ
trailing n = 128 + n % 64

abbrev pub utf8_char : ℕ → List ℕ
utf8_char c =
    if ltb c 128
    then c ∷ []
    else if ltb c 2048
    then (192 + c / 64) ∷ trailing c ∷ []
    else if ltb c 65536
    then (224 + c / 4096) ∷ trailing (c / 64) ∷ trailing c ∷ []
    else (240 + c / 262144) ∷ trailing (c / 4096) ∷ trailing (c / 64) ∷ trailing c ∷ []

-- `str::as_bytes`
abbrev pub utf8 : Text → List ℕ
utf8 [] = []
utf8 (c ∷ cs) = utf8_char c ++ utf8 cs

-- `str::len`
abbrev pub byte_len : Text → ℕ
byte_len s = length (utf8 s)

abbrev pub IsByte : ℕ → Type 0
IsByte b = b < 256

-- No character has a greater code.
abbrev pub IsChar : ℕ → Type 0
IsChar c = c < 1_114_112

abbrev pub push : ℕ → Option Text → Option Text
push c none = none
push c (some cs) = some (c ∷ cs)

-- The reader: so many bytes of a character are still due, and what of it is read.
abbrev pub read_utf8 : ℕ → ℕ → List ℕ → Option Text
read_utf8 zero code [] = some []
read_utf8 (suc due) code [] = none
read_utf8 zero code (b ∷ bs) =
    let one = push b (read_utf8 0 0 bs) in
    let two = read_utf8 1 (b - 192) bs in
    let three = read_utf8 2 (b - 224) bs in
    let four = read_utf8 3 (b - 240) bs in
    if ltb b 128 then one else if ltb b 224 then two else if ltb b 240 then three else four
read_utf8 (suc zero) code (b ∷ bs) = push (code * 64 + (b - 128)) (read_utf8 0 0 bs)
read_utf8 (suc (suc due)) code (b ∷ bs) = read_utf8 (suc due) (code * 64 + (b - 128)) bs

abbrev pub from_utf8 : List ℕ → Option Text
from_utf8 bs = read_utf8 0 0 bs

read_char :
    (c : ℕ) (bs : List ℕ) → IsChar c → read_utf8 0 0 (utf8_char c ++ bs) ≡ push c (read_utf8 0 0 bs)
read_char c bs h = elim (Bool-cases (ltb c 128)) [
  | inl e ↦ rw e (rw e refl)
  | inr e ↦ elim (Bool-cases (ltb c 2048)) [
    | inl e1 ↦
        let a : ltb (192 + c / 64) 128 ≡ false = ground arith in
        let b : ltb (192 + c / 64) 224 ≡ true = ground arith in
        let q : (192 + c / 64 - 192) * 64 + (trailing c - 128) ≡ c = omega arith in
        rw e (rw e1 (rw a (rw b (ap (λ n. push n (read_utf8 0 0 bs)) q))))
    | inr e1 ↦ elim (Bool-cases (ltb c 65536)) [
      | inl e2 ↦
          let a : ltb (224 + c / 4096) 128 ≡ false = ground arith in
          let b : ltb (224 + c / 4096) 224 ≡ false = ground arith in
          let d : ltb (224 + c / 4096) 240 ≡ true = ground arith in
          let q : ((224 + c / 4096 - 224) * 64 + (trailing (c / 64) - 128)) * 64
                + (trailing c - 128)
              ≡ c =
            omega arith in
          rw e (rw e1 (rw e2 (rw a (rw b (rw d (ap (λ n. push n (read_utf8 0 0 bs)) q))))))
      | inr e2 ↦
          let a : ltb (240 + c / 262144) 128 ≡ false = ground arith in
          let b : ltb (240 + c / 262144) 224 ≡ false = ground arith in
          let d : ltb (240 + c / 262144) 240 ≡ false = ground arith in
          let q : (((240 + c / 262144 - 240) * 64 + (trailing (c / 4096) - 128)) * 64
                    + (trailing (c / 64) - 128))
                  * 64
                + (trailing c - 128)
              ≡ c =
            omega arith in
          rw e (rw e1 (rw e2 (rw a (rw b (rw d (ap (λ n. push n (read_utf8 0 0 bs)) q))))))
    ]
  ]
]

-- A text comes back from its bytes.
pub from_utf8-utf8 : (s : Text) → All IsChar s → from_utf8 (utf8 s) ≡ some s
from_utf8-utf8 [] h = refl
from_utf8-utf8 (c ∷ cs) h = read_char c (utf8 cs) h.0 ∙ ap (push c) (from_utf8-utf8 cs h.1)

All-bytes : (s t : List ℕ) → All IsByte s → All IsByte t → All IsByte (s ++ t)
All-bytes [] t h k = k
All-bytes (b ∷ bs) t h k = (h.0, All-bytes bs t h.1 k)

char_bytes : (c : ℕ) → IsChar c → All IsByte (utf8_char c)
char_bytes c h = elim (Bool-cases (ltb c 128)) [
  | inl e ↦ rw e (ground arith, tt)
  | inr e ↦ elim (Bool-cases (ltb c 2048)) [
    | inl e1 ↦ rw e (rw e1 (ground arith, (ground arith, tt)))
    | inr e1 ↦ elim (Bool-cases (ltb c 65536)) [
      | inl e2 ↦ rw e (rw e1 (rw e2 (ground arith, (ground arith, (ground arith, tt)))))
      | inr e2 ↦ rw e (rw e1 (rw e2 (omega arith, (omega arith, (omega arith, (omega arith, tt))))))
    ]
  ]
]

pub utf8-IsByte : (s : Text) → All IsChar s → All IsByte (utf8 s)
utf8-IsByte [] h = tt
utf8-IsByte (c ∷ cs) h = All-bytes (utf8_char c) (utf8 cs) (char_bytes c h.0) (utf8-IsByte cs h.1)
