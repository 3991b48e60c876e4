-- ===== src/Setup/File.antt =====
-- The environment file that the wizard writes (crates/gp-core/src/setup.rs, render_env), read back by
-- the parser that the server uses for it (parse_env_file).
use goblin_pay.Prelude.{
  ◌≡◌, refl, ap, sym, ◌∙◌, Bool-cases, inl, inr, arith, Bool, true, false, List, [], ◌∷◌, ◌++◌, All,
  codes, Text, join,
}
use goblin_pay.Setup.{RestartMode, unattended, manual}
use goblin_pay.Setup.Env.{
  SetupParams, parse_env_file, render_env, concat, rail_line, pieces_after, password_note,
}
use goblin_pay.Setup.Parts.{
  parts, parse_env_file-parts, IsClean, Piece, note, assign, piece_text, pieces_text, assigned,
  Reads, parts-pieces_text, join-IsClean,
}

-- Values that stand on one line, without blanks at their ends.
pub record AreClean (p : SetupParams) : Type 0 where
  pub bind : IsClean p.bind
  pub public_url : IsClean p.public_url
  pub webhook_url : IsClean p.webhook_url
  pub node_url : IsClean p.node_url
  pub relays : All IsClean p.relays
  pub currencies : All IsClean p.currencies
  pub api_token : IsClean p.api_token
  pub admin_token : IsClean p.admin_token
  pub webhook_secret : IsClean p.webhook_secret
  pub data_dir : IsClean p.data_dir
  pub db_path : IsClean p.db_path
  pub wallet_password_file : IsClean p.wallet_password_file

abbrev pub rail_setting : Bool → List (Text × Text)
rail_setting true = (codes "GP_GRIN1_RAIL", codes "on") ∷ []
rail_setting false = []

-- The settings of the file, in its order.
abbrev pub settings : SetupParams → List (Text × Text)
settings p =
    (codes "GP_BIND", p.bind)
    ∷ (codes "GP_PUBLIC_URL", p.public_url)
    ∷ (codes "GP_RELAY_MODE", codes "external")
    ∷ (codes "GP_RELAYS", join b',' p.relays)
    ∷ (codes "GP_NODE_URL", p.node_url)
    ∷ (codes "GP_RATE_CURRENCIES", join b',' p.currencies)
    ∷ (codes "GP_MATCH_MODE", codes "derived")
    ∷ (codes "GP_API_TOKEN", p.api_token)
    ∷ (codes "GP_ADMIN_TOKEN", p.admin_token)
    ∷ (codes "GP_WEBHOOK_URL", p.webhook_url)
    ∷ (codes "GP_WEBHOOK_SECRET", p.webhook_secret)
    ∷ (codes "GP_WALLET_PASSWORD_FILE", p.wallet_password_file)
    ∷ (codes "GP_DATA_DIR", p.data_dir)
    ∷ (codes "GP_DB_PATH", p.db_path)
    ∷ rail_setting p.grin1_rail

-- The same file as pieces.
abbrev before : SetupParams → List Piece
before p =
    note (codes "# GoblinPay configuration, generated by `gp-server setup`.\n")
    ∷ note (codes "# Non-secret config plus bearer tokens (root-owned, mode 0640).\n")
    ∷ note (codes "# The wallet password is a separate 0400 credential file; the Grin\n")
    ∷ note (codes "# seed is NOT here (it lives encrypted at rest and in your written backup).\n\n")
    ∷ note (codes "# --- local listen address (loopback; keep it behind your proxy) ---\n")
    ∷ assign (codes "GP_BIND") p.bind (10 ∷ [])
    ∷ note (codes "# --- public URL customers reach this till at ---\n")
    ∷ assign (codes "GP_PUBLIC_URL") p.public_url (10 ∷ [])
    ∷ note (codes "# --- relays (external vetted pool; swap for your own if you like) ---\n")
    ∷ assign (codes "GP_RELAY_MODE") (codes "external") []
    ∷ assign (codes "GP_RELAYS") (join b',' p.relays) (10 ∷ [])
    ∷ note
        (codes "# --- Grin node (read-only: confirmations + balance), health-probed at setup ---\n")
    ∷ assign (codes "GP_NODE_URL") p.node_url (10 ∷ [])
    ∷ note (codes "# --- pricing ---\n")
    ∷ assign (codes "GP_RATE_CURRENCIES") (join b',' p.currencies) []
    ∷ assign (codes "GP_MATCH_MODE") (codes "derived") (10 ∷ [])
    ∷ note (codes "# --- connector + admin bearer tokens (capabilities) ---\n")
    ∷ assign (codes "GP_API_TOKEN") p.api_token []
    ∷ assign (codes "GP_ADMIN_TOKEN") p.admin_token (10 ∷ [])
    ∷ note (codes "# --- webhook to your shop (HMAC-signed) ---\n")
    ∷ assign (codes "GP_WEBHOOK_URL") p.webhook_url []
    ∷ assign (codes "GP_WEBHOOK_SECRET") p.webhook_secret (10 ∷ [])
    ∷ []

abbrev rail : Bool → Piece
rail true = assign (codes "GP_GRIN1_RAIL") (codes "on") []
rail false = note (codes "#GP_GRIN1_RAIL=on\n")

abbrev after : SetupParams → List Piece
after p =
    assign (codes "GP_WALLET_PASSWORD_FILE") p.wallet_password_file (10 ∷ [])
    ∷ note (codes "# --- managed state ---\n")
    ∷ assign (codes "GP_DATA_DIR") p.data_dir []
    ∷ assign (codes "GP_DB_PATH") p.db_path (10 ∷ [])
    ∷ note (codes "# --- grin1 / Tor rail (advanced; default off) ---\n")
    ∷ rail p.grin1_rail
    ∷ []

abbrev texts : List Piece → List Text
texts [] = []
texts (p ∷ ps) = piece_text p ∷ texts ps

abbrev notes : List Text → List Piece
notes [] = []
notes (t ∷ ts) = note t ∷ notes ts

abbrev pieces : SetupParams → List Piece
pieces p = before p ++ (notes (password_note p.restart_mode p.unattended_encrypted) ++ after p)

texts-notes : (ts : List Text) → texts (notes ts) ≡ ts
texts-notes [] = refl
texts-notes (t ∷ ts) = ap (λ r. t ∷ r) (texts-notes ts)

pieces_text-append :
    (ps qs : List Piece) (ts : List Text)
    → pieces_text qs ≡ concat ts
    → pieces_text (ps ++ qs) ≡ concat (texts ps ++ ts)
pieces_text-append [] qs ts e = e
pieces_text-append (p ∷ ps) qs ts e = ap (λ r. piece_text p ++ r) (pieces_text-append ps qs ts e)

assigned-notes : (ts : List Text) (ps : List Piece) → assigned (notes ts ++ ps) ≡ assigned ps
assigned-notes [] ps = refl
assigned-notes (t ∷ ts) ps = assigned-notes ts ps

All-append : (ps qs : List Piece) → All Reads ps → All Reads qs → All Reads (ps ++ qs)
All-append [] qs h k = k
All-append (p ∷ ps) qs h k = (h.0, All-append ps qs h.1 k)

rail_text : (r : Bool) → piece_text (rail r) ≡ rail_line r
rail_text true = refl
rail_text false = refl

after_text : (p : SetupParams) → pieces_text (after p) ≡ concat (pieces_after p)
after_text p = rw (rail_text p.grin1_rail) refl

pieces_text-pieces : (p : SetupParams) → pieces_text (pieces p) ≡ render_env p
unfolding render_env
pieces_text-pieces p =
    let note_texts = password_note p.restart_mode p.unattended_encrypted in
    pieces_text-append (before p) (notes note_texts ++ after p) (note_texts ++ pieces_after p) (
      pieces_text-append (notes note_texts) (after p) (pieces_after p) (after_text p)
      ∙ ap (λ ts. concat (ts ++ pieces_after p)) (texts-notes note_texts))

rail_Reads : (r : Bool) → Reads (rail r)
rail_Reads true =
    (refl, record { starts = refl; ends = refl; one_line = (refl, (refl, tt)) }, λ rest. refl)
rail_Reads false = λ rest. refl

notes-Reads : (m : RestartMode) (encrypted : Bool) → All Reads (notes (password_note m encrypted))
notes-Reads unattended true = (λ rest. refl, (λ rest. refl, tt))
notes-Reads unattended false = (λ rest. refl, (λ rest. refl, tt))
notes-Reads manual encrypted = (λ rest. refl, (λ rest. refl, tt))

external-IsClean : IsClean (codes "external")
external-IsClean = record { starts = refl; ends = refl; one_line = ground arith }

derived-IsClean : IsClean (codes "derived")
derived-IsClean = record { starts = refl; ends = refl; one_line = ground arith }

before-Reads : (p : SetupParams) → AreClean p → All Reads (before p)
before-Reads p h = (
  λ rest. refl,
  (
    λ rest. refl,
    (
      λ rest. refl,
      (
        λ rest. refl,
        (
          λ rest. refl,
          (
            (refl, h.bind, λ rest. refl),
            (
              λ rest. refl,
              (
                (refl, h.public_url, λ rest. refl),
                (
                  λ rest. refl,
                  (
                    (refl, external-IsClean, λ rest. refl),
                    (
                      (refl, join-IsClean p.relays h.relays, λ rest. refl),
                      (
                        λ rest. refl,
                        (
                          (refl, h.node_url, λ rest. refl),
                          (
                            λ rest. refl,
                            (
                              (refl, join-IsClean p.currencies h.currencies, λ rest. refl),
                              (
                                (refl, derived-IsClean, λ rest. refl),
                                (
                                  λ rest. refl,
                                  (
                                    (refl, h.api_token, λ rest. refl),
                                    (
                                      (refl, h.admin_token, λ rest. refl),
                                      (
                                        λ rest. refl,
                                        (
                                          (refl, h.webhook_url, λ rest. refl),
                                          ((refl, h.webhook_secret, λ rest. refl), tt),
                                        ),
                                      ),
                                    ),
                                  ),
                                ),
                              ),
                            ),
                          ),
                        ),
                      ),
                    ),
                  ),
                ),
              ),
            ),
          ),
        ),
      ),
    ),
  ),
)

after-Reads : (p : SetupParams) → AreClean p → All Reads (after p)
after-Reads p h = (
  (refl, h.wallet_password_file, λ rest. refl),
  (
    λ rest. refl,
    (
      (refl, h.data_dir, λ rest. refl),
      ((refl, h.db_path, λ rest. refl), (λ rest. refl, (rail_Reads p.grin1_rail, tt))),
    ),
  ),
)

assigned-after : (p : SetupParams) → assigned (before p ++ after p) ≡ settings p
assigned-after p = elim (Bool-cases p.grin1_rail) [ inl e ↦ rw e refl | inr e ↦ rw e refl ]

-- The file that the wizard writes is read back, in either restart mode, to exactly the settings it
-- stands for: the fifteen or fourteen variables with the wizard's values, and nothing from its comments,
-- if each value stands on one line and has no blanks at its ends.
pub parse_env_file-render_env :
    (p : SetupParams) → AreClean p → parse_env_file (render_env p) ≡ settings p
parse_env_file-render_env p h =
    let note_texts = password_note p.restart_mode p.unattended_encrypted in
    parse_env_file-parts (render_env p)
    ∙ ap parts (sym (pieces_text-pieces p))
    ∙ parts-pieces_text (pieces p) (
        All-append (before p) (notes note_texts ++ after p) (before-Reads p h) (
          All-append (notes note_texts) (after p)
            (notes-Reads p.restart_mode p.unattended_encrypted) (after-Reads p h)))
    ∙ ap (λ ps. assigned (before p) ++ ps) (assigned-notes note_texts (after p))
    ∙ assigned-after p
