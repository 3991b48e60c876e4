-- ===== src/Setup/Env.antt =====
-- The environment file of the setup wizard (crates/gp-core/src/setup.rs): how it is read, and the text
-- that `render_env` writes.
use goblin_pay.Prelude.{
  String, Bool, true, false, Option, none, some, List, [], ◌∷◌, ◌++◌, if◌then◌else◌, ◌==◌, codes,
  trim, Text, is_blank, join, lines, split_once, keep_some,
}
use goblin_pay.Setup.{RestartMode, unattended, manual}

-- One line of an environment file.
abbrev pub is_comment : Text → Bool
is_comment [] = false
is_comment (c ∷ cs) = c == b'#'

abbrev pub named : Text → Text → Option (Text × Text)
named key value = if is_blank key then none else some (key, value)

abbrev pub setting_of : Option (Text × Text) → Option (Text × Text)
setting_of none = none
setting_of (some (key, value)) = named (trim key) (trim value)

abbrev pub trimmed_line : Text → Option (Text × Text)
trimmed_line line =
    if is_blank line
    then none
    else if is_comment line
    then none
    else setting_of (split_once b'=' line)

abbrev pub parse_line : Text → Option (Text × Text)
parse_line line = trimmed_line (trim line)

unfoldable pub parse_env_file : Text → List (Text × Text)
parse_env_file contents = keep_some parse_line (lines contents)

pub record SetupParams : Type 0 where
  pub bind : Text
  pub public_url : Text
  pub webhook_url : Text
  pub node_url : Text
  pub relays : List Text
  pub currencies : List Text
  pub grin1_rail : Bool
  pub api_token : Text
  pub admin_token : Text
  pub webhook_secret : Text
  pub data_dir : Text
  pub db_path : Text
  pub wallet_password_file : Text
  pub restart_mode : RestartMode
  pub unattended_encrypted : Bool

-- A text from pieces, and the line that `format!("KEY={}…", value)` makes.
abbrev pub text : List String → Text
text [] = []
text (s ∷ ss) = codes s ++ text ss

abbrev pub setting : String → Text → String → Text
setting key value tail = codes key ++ b'=' ∷ (value ++ codes tail)

abbrev pub password_note : RestartMode → Bool → List Text
password_note unattended true =
    codes "# --- wallet password: restart mode UNATTENDED (ENCRYPTED at rest) ---\n"
    ∷ text (
        "# You chose this password; it was sealed to THIS host with\n"
        ∷ "# `systemd-creds encrypt` (see the gp-server.service.d/encrypted.conf\n"
        ∷ "# drop-in). The file on disk is CIPHERTEXT, not plaintext, so a stolen\n"
        ∷ "# or copied disk yields no wallet key; systemd decrypts it into a tmpfs\n"
        ∷ "# credentials dir at each start, so the service still auto-restarts.\n"
        ∷ "# Honest trade-off: a compromise of the RUNNING host still means wallet\n"
        ∷ "# compromise (systemd can decrypt it there), so keep the till a small hot\n"
        ∷ "# float and sweep to your own wallet regularly. The GP_WALLET_PASSWORD_FILE\n"
        ∷ "# below is the runtime (decrypted) credential path; the systemd unit sets\n"
        ∷ "# it too.\n" ∷ [])
    ∷ []
password_note unattended false =
    codes "# --- wallet password: restart mode UNATTENDED (plaintext fallback) ---\n"
    ∷ text (
        "# WARNING: `systemd-creds` was not available at setup, so the chosen\n"
        ∷ "# password fell back to a root-owned 0400 PLAINTEXT file (below). It is\n"
        ∷ "# off the world-readable env file, but it is still plaintext at rest.\n"
        ∷ "# For encryption at rest, install systemd >= 250 with a host credential\n"
        ∷ "# key and re-run `gp-server setup --reconfigure`. Honest trade-off: a\n"
        ∷ "# full-machine compromise means wallet compromise; keep the till a small\n"
        ∷ "# hot float and sweep to your own wallet regularly.\n" ∷ [])
    ∷ []
password_note manual encrypted =
    codes "# --- wallet password: restart mode MANUAL (nothing on disk) ---\n"
    ∷ text (
        "# You chose this password; it is NOT stored on disk. You re-enter it\n"
        ∷ "# after every restart, into the tmpfs credential below (see the\n"
        ∷ "# gp-server.service.d/manual.conf drop-in). Max protection against\n"
        ∷ "# disk/machine theft; the service will not auto-restart on its own.\n" ∷ [])
    ∷ []

abbrev pub rail_line : Bool → Text
rail_line true = codes "GP_GRIN1_RAIL=on\n"
rail_line false = codes "#GP_GRIN1_RAIL=on\n"

-- What `render_env` pushes, in order, around the note on the password.
abbrev pub pieces_before : SetupParams → List Text
pieces_before p =
    codes "# GoblinPay configuration, generated by `gp-server setup`.\n"
    ∷ codes "# Non-secret config plus bearer tokens (root-owned, mode 0640).\n"
    ∷ codes "# The wallet password is a separate 0400 credential file; the Grin\n"
    ∷ codes "# seed is NOT here (it lives encrypted at rest and in your written backup).\n\n"
    ∷ codes "# --- local listen address (loopback; keep it behind your proxy) ---\n"
    ∷ setting "GP_BIND" p.bind "\n\n"
    ∷ codes "# --- public URL customers reach this till at ---\n"
    ∷ setting "GP_PUBLIC_URL" p.public_url "\n\n"
    ∷ codes "# --- relays (external vetted pool; swap for your own if you like) ---\n"
    ∷ codes "GP_RELAY_MODE=external\n"
    ∷ setting "GP_RELAYS" (join b',' p.relays) "\n\n"
    ∷ codes "# --- Grin node (read-only: confirmations + balance), health-probed at setup ---\n"
    ∷ setting "GP_NODE_URL" p.node_url "\n\n"
    ∷ codes "# --- pricing ---\n"
    ∷ setting "GP_RATE_CURRENCIES" (join b',' p.currencies) "\n"
    ∷ codes "GP_MATCH_MODE=derived\n\n"
    ∷ codes "# --- connector + admin bearer tokens (capabilities) ---\n"
    ∷ setting "GP_API_TOKEN" p.api_token "\n"
    ∷ setting "GP_ADMIN_TOKEN" p.admin_token "\n\n"
    ∷ codes "# --- webhook to your shop (HMAC-signed) ---\n"
    ∷ setting "GP_WEBHOOK_URL" p.webhook_url "\n"
    ∷ setting "GP_WEBHOOK_SECRET" p.webhook_secret "\n\n"
    ∷ []

abbrev pub pieces_after : SetupParams → List Text
pieces_after p =
    setting "GP_WALLET_PASSWORD_FILE" p.wallet_password_file "\n\n"
    ∷ codes "# --- managed state ---\n"
    ∷ setting "GP_DATA_DIR" p.data_dir "\n"
    ∷ setting "GP_DB_PATH" p.db_path "\n\n"
    ∷ codes "# --- grin1 / Tor rail (advanced; default off) ---\n"
    ∷ rail_line p.grin1_rail
    ∷ []

abbrev pub concat : List Text → Text
concat [] = []
concat (t ∷ ts) = t ++ concat ts

unfoldable pub render_env : SetupParams → Text
render_env p =
    concat
      (pieces_before p ++ (password_note p.restart_mode p.unattended_encrypted ++ pieces_after p))
