-- ===== src/Tests/Mail.antt =====
-- A payment message around a short armor.
use goblin_pay.Prelude.{ℕ, ◌≡◌, refl, ◌++◌, some, List, arith, codes}
use goblin_pay.Nostr.Protocol.{
  armor_begin, through_first, extract_slatepack, extract_subject, build_payment_content,
  build_rumor_tags, sanitized,
}
use goblin_pay.Nostr.Protocol.Message.{IsArmor, extract_slatepack-build_payment_content}

abbrev body : List ℕ
body = codes " 4H1qx1wHe668tFW. ENDSLATEPACK."

body-IsArmor : IsArmor body
unfolding through_first
body-IsArmor = record { trimmed = refl; one_end = refl; small = omega arith }

extract_slatepack-build_payment_content_example :
    (extract_slatepack (build_payment_content (armor_begin ++ body)) ≡ some (armor_begin ++ body))
    × (extract_subject (build_rumor_tags (some (codes "café  au lait")))
        ≡ sanitized (sanitized (some (codes "café  au lait"))))
extract_slatepack-build_payment_content_example =
    extract_slatepack-build_payment_content body (some (codes "café  au lait")) body-IsArmor
