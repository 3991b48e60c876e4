-- ===== src/Nostr/Protocol/Armor.antt =====
-- What a sanitized note is (crates/gp-nostr/src/protocol.rs, sanitize_note).
use goblin_pay.Prelude.{
  ℕ, zero, suc, ◌≤◌, ◌≡◌, ◌⊎◌, inl, inr, refl, Bool, true, false, some, List, [], ◌∷◌, length, map,
  some_inj, subst, arith, length-take, All, Bool-cases, if◌then◌else◌, take, is_space, trim,
  trim_start, trim_end, keep_end, ◌||◌, ap, sym, ◌∙◌, not, select,
}
use goblin_pay.Nostr.Protocol.{is_control, collapse, sanitize_note, capped, max_note_chars}

-- No control character, and white space only as one plain space in front of a word; the flag says that
-- a space may stand first.
abbrev pub IsTidy : Bool → List ℕ → Type 0
IsTidy b [] = Unit
IsTidy b (c ∷ cs) =
    (is_control c ≡ false)
    × (((is_space c ≡ false) × IsTidy true cs) ⊎ ((b ≡ true) × (c ≡ b' ') × IsTidy false cs))

abbrev blanked : ℕ → ℕ
blanked c = if is_control c then b' ' else c

blanked_clean : (cs : List ℕ) → All (λ c. is_control c ≡ false) (map blanked cs)
blanked_clean [] = tt
blanked_clean (c ∷ cs) = elim (Bool-cases (is_control c)) [
  | inl e ↦ (rw e refl, blanked_clean cs)
  | inr e ↦ (rw e e, blanked_clean cs)
]

either : (b : Bool) → (b ≡ false) ⊎ (b ≡ true)
either true = inr refl
either false = inl refl

word-IsTidy :
    (front gap : Bool) (c : ℕ) (rest : List ℕ)
    → (gap ≡ false) ⊎ (front ≡ true)
    → is_control c ≡ false
    → is_space c ≡ false
    → IsTidy true rest
    → IsTidy front (if gap then b' ' ∷ c ∷ rest else c ∷ rest)
word-IsTidy front false c rest k h e t = (h, inl (e, t))
word-IsTidy front true c rest (inl p) h e t = absurd (cc p)
word-IsTidy front true c rest (inr p) h e t = (refl, inr (p, refl, (h, inl (e, t))))

collapse-IsTidy :
    (front gap : Bool) (cs : List ℕ)
    → (gap ≡ false) ⊎ (front ≡ true)
    → All (λ c. is_control c ≡ false) cs
    → IsTidy front (collapse front gap cs)
unfolding collapse
collapse-IsTidy front gap [] k h = tt
collapse-IsTidy front gap (c ∷ cs) k h = elim (Bool-cases (is_space c)) [
  | inl e ↦ rw e (collapse-IsTidy front front cs (either front) h.1)
  | inr e ↦
      let rest : IsTidy true (collapse true false cs) =
        collapse-IsTidy true false cs (inl refl) h.1 in
      rw e (word-IsTidy front gap c (collapse true false cs) k h.0 e rest)
]

keep_end-IsTidy : (b : Bool) (c : ℕ) (t : List ℕ) → IsTidy b (c ∷ t) → IsTidy b (keep_end c t)
keep_end-IsTidy b c [] h = elim (Bool-cases (is_space c)) [ inl e ↦ rw e tt | inr e ↦ rw e h ]
keep_end-IsTidy b c (d ∷ ds) h = h

trim_end-IsTidy : (b : Bool) (cs : List ℕ) → IsTidy b cs → IsTidy b (trim_end cs)
trim_end-IsTidy b [] h = tt
trim_end-IsTidy b (c ∷ cs) (h, inl (e, k)) =
    keep_end-IsTidy b c (trim_end cs) (h, inl (e, trim_end-IsTidy true cs k))
trim_end-IsTidy b (c ∷ cs) (h, inr (p, e, k)) =
    keep_end-IsTidy b c (trim_end cs) (h, inr (p, e, trim_end-IsTidy false cs k))

trim-IsTidy : (cs : List ℕ) → IsTidy false cs → IsTidy false (trim cs)
trim-IsTidy [] h = tt
trim-IsTidy (c ∷ cs) (h, inl (e, k)) = rw e (trim_end-IsTidy false (c ∷ cs) (h, inl (e, k)))
trim-IsTidy (c ∷ cs) (h, inr (p, e, k)) = absurd (cc p)

take-IsTidy : (b : Bool) (n : ℕ) (cs : List ℕ) → IsTidy b cs → IsTidy b (take n cs)
take-IsTidy b zero cs h = tt
take-IsTidy b (suc n) [] h = tt
take-IsTidy b (suc n) (c ∷ cs) (h, inl (e, k)) = (h, inl (e, take-IsTidy true n cs k))
take-IsTidy b (suc n) (c ∷ cs) (h, inr (p, e, k)) = (h, inr (p, e, take-IsTidy false n cs k))

-- What a reader sees: neither control characters nor white space.
abbrev pub is_visible : ℕ → Bool
is_visible c = not (is_control c || is_space c)

abbrev pub visible : List ℕ → List ℕ
visible cs = select is_visible cs

hidden : (a b : Bool) → (a ≡ true) ⊎ (b ≡ true) → not (a || b) ≡ false
hidden true b h = refl
hidden false true h = refl
hidden false false (inl p) = absurd (cc p)
hidden false false (inr p) = absurd (cc p)

space_hidden : (c : ℕ) → is_space c ≡ true → is_visible c ≡ false
space_hidden c e = hidden (is_control c) (is_space c) (inr e)

visible-blanked : (cs : List ℕ) → visible (map blanked cs) ≡ visible cs
visible-blanked [] = refl
visible-blanked (c ∷ cs) = elim (Bool-cases (is_control c)) [
  | inl e ↦
      let h : is_visible c ≡ false = hidden (is_control c) (is_space c) (inl e) in
      let space : blanked c ≡ b' ' = rw e refl in
      ap (λ d. if is_visible d then d ∷ visible (map blanked cs) else visible (map blanked cs))
        space
      ∙ (visible-blanked cs ∙ sym (ap (λ b. if b then c ∷ visible cs else visible cs) h))
  | inr e ↦
      let same : blanked c ≡ c = rw e refl in
      ap (λ d. if is_visible d then d ∷ visible (map blanked cs) else visible (map blanked cs)) same
      ∙ ap (λ vs. if is_visible c then c ∷ vs else vs) (visible-blanked cs)
]

visible-collapse : (front gap : Bool) (cs : List ℕ) → visible (collapse front gap cs) ≡ visible cs
unfolding collapse
visible-collapse front gap [] = refl
visible-collapse front gap (c ∷ cs) = elim (Bool-cases (is_space c)) [
  | inl e ↦
      ap
        (λ b. visible (
          if b
          then collapse front front cs
          else (if gap then b' ' ∷ c ∷ collapse true false cs else c ∷ collapse true false cs)))
        e
      ∙ (visible-collapse front front cs
          ∙ sym (ap (λ b. if b then c ∷ visible cs else visible cs) (space_hidden c e)))
  | inr e ↦
      ap
        (λ b. visible (
          if b
          then collapse front front cs
          else (if gap then b' ' ∷ c ∷ collapse true false cs else c ∷ collapse true false cs)))
        e
      ∙ (spaced gap
          ∙ ap (λ vs. if is_visible c then c ∷ vs else vs) (visible-collapse true false cs))
]
  where
    spaced :
        (g : Bool)
        → visible (if g then b' ' ∷ c ∷ collapse true false cs else c ∷ collapse true false cs)
          ≡ visible (c ∷ collapse true false cs)
    spaced true = refl
    spaced false = refl

visible-keep_end : (c : ℕ) (t : List ℕ) → visible (keep_end c t) ≡ visible (c ∷ t)
visible-keep_end c [] = elim (Bool-cases (is_space c)) [
  | inl e ↦
      ap (λ b. visible (if b then [] else c ∷ [])) e
      ∙ sym (ap (λ b. if b then c ∷ [] else []) (space_hidden c e))
  | inr e ↦ ap (λ b. visible (if b then [] else c ∷ [])) e
]
visible-keep_end c (d ∷ ds) = refl

visible-trim_end : (cs : List ℕ) → visible (trim_end cs) ≡ visible cs
visible-trim_end [] = refl
visible-trim_end (c ∷ cs) =
    visible-keep_end c (trim_end cs)
    ∙ ap (λ vs. if is_visible c then c ∷ vs else vs) (visible-trim_end cs)

visible-trim_start : (cs : List ℕ) → visible (trim_start cs) ≡ visible cs
visible-trim_start [] = refl
visible-trim_start (c ∷ cs) = elim (Bool-cases (is_space c)) [
  | inl e ↦
      ap (λ b. visible (if b then trim_start cs else c ∷ cs)) e
      ∙ (visible-trim_start cs
          ∙ sym (ap (λ b. if b then c ∷ visible cs else visible cs) (space_hidden c e)))
  | inr e ↦ ap (λ b. visible (if b then trim_start cs else c ∷ cs)) e
]

-- The note is the head, of at most 256 characters, of a tidy text with the visible characters of the
-- raw one.
abbrev pub IsNoteOf : List ℕ → List ℕ → Type 0
IsNoteOf raw note =
    (1 ≤ length note)
    × (length note ≤ 256)
    × ((text : List ℕ) × (note ≡ take 256 text) × IsTidy false text × (visible text ≡ visible raw))
    × IsTidy false note

-- A note that is kept is not empty and has at most 256 characters; it has no control character, does
-- not begin with white space, and has white space only as single plain spaces. It is the head, cut at 256
-- characters, of such a text that has all visible characters of the raw note, in their order.
pub sanitize_note-IsNoteOf : (raw note : List ℕ) → sanitize_note raw ≡ some note → IsNoteOf raw note
unfolding sanitize_note
sanitize_note-IsNoteOf raw note e =
    let words = collapse false false (map blanked raw) in
    go (trim words)
      (trim-IsTidy words (collapse-IsTidy false false _ (inl refl) (blanked_clean raw)))
      (visible-trim_end (trim_start words)
        ∙ (visible-trim_start words
            ∙ (visible-collapse false false (map blanked raw) ∙ visible-blanked raw)))
      e
  where
    go :
        (t : List ℕ)
        → IsTidy false t
        → visible t ≡ visible raw
        → capped t ≡ some note
        → IsNoteOf raw note
    go [] h v q = absurd (cc q)
    go (c ∷ cs) h v q = subst (IsNoteOf raw) (some_inj q) (
      omega arith,
      length-take max_note_chars (c ∷ cs),
      (c ∷ cs, refl, h, v),
      take-IsTidy false max_note_chars (c ∷ cs) h,
    )
