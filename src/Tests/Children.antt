-- ===== src/Tests/Children.antt =====
-- A child secret over a hash that keeps its bytes, where a scalar has more than two: the first counter
-- gives none, the second does.
use goblin_pay.Prelude.{ℕ, ◌≡◌, refl, some, List, [], ◌∷◌, length, ltb, arith}
use goblin_pay.Derive.{Curve, digest, child_secret}
use goblin_pay.Derive.Loop.{IsFirst, IsHashOf, child_secret-IsFirst}

abbrev plain_curve : Curve
plain_curve = record {
  sha256 = λ bytes. bytes;
  is_scalar = λ bytes. ltb 2 (length bytes);
  xonly_hex = λ bytes. "a0";
}

abbrev short_context : List (List ℕ)
short_context = (5 ∷ []) ∷ []

child_secret-IsFirst_example :
    (found : ℕ) × (child_secret plain_curve (7 ∷ []) short_context
      ≡ some (digest plain_curve (7 ∷ []) short_context found))
    × IsFirst plain_curve (7 ∷ []) short_context 0 found
    × IsHashOf plain_curve (7 ∷ []) short_context found
child_secret-IsFirst_example =
    child_secret-IsFirst plain_curve (7 ∷ []) short_context 1 (omega arith) refl
