-- ===== src/Setup.antt =====
-- The building blocks of the setup wizard (crates/gp-core/src/setup.rs): answers, node choice, and the
-- environment file that it writes and reads back. Texts are ASCII, without carriage returns.
pub mod Env
pub mod Parts
pub mod File
pub mod Boot
use goblin_pay.Prelude.{
  ℕ, String, Bool, true, false, not, ◌&&◌, ◌||◌, Option, none, some, List, [], ◌∷◌, ◌++◌,
  if◌then◌else◌, ◌==◌, codes, trim, Text, text_eq, is_blank, lowercase, starts_with,
  trim_end_matches, split, join, lines, split_once, select, map, keep_some,
}
use goblin_pay.Config.{default_bind}
use goblin_pay.Config.Load.{is_slash}
use goblin_pay.Config.Valid.{is_http}

abbrev pub curated_nodes : List Text
curated_nodes =
    codes "https://main.gri.mw" ∷ codes "https://api.grin.money" ∷ codes "https://grincoin.org" ∷ []

abbrev pub default_relays : List Text
default_relays = codes "wss://relay.floonet.dev" ∷ codes "wss://offchain.pub" ∷ []

abbrev pub default_currency : Text
default_currency = codes "usd"

abbrev pub webhook_path : Text
webhook_path = codes "/wp-json/goblinpay/v1/webhook"

pub data RestartMode : Type 0 where
  unattended manual : RestartMode

-- Why an answer is not taken.
pub data AnswerError : Type 0 where
  empty_password no_url no_scheme : AnswerError

pub data Answer (A : Type 0) : Type 0 where
  taken : A → Answer A
  declined : AnswerError → Answer A

unfoldable pub validate_password : Text → Answer (Unit {0})
validate_password pw = if is_blank pw then declined empty_password else taken tt

unfoldable pub passwords_match : Text → Text → Bool
passwords_match first second = text_eq first second

unfoldable pub restart_mode_of : Text → RestartMode → RestartMode
restart_mode_of s default =
    if text_eq s (codes "1") || text_eq s (codes "u") || text_eq s (codes "unattended")
    then unattended
    else if text_eq s (codes "2") || text_eq s (codes "m") || text_eq s (codes "manual")
    then manual
    else default

unfoldable pub parse_restart_mode_default : Text → RestartMode → RestartMode
unfolding restart_mode_of
parse_restart_mode_default input default = restart_mode_of (lowercase (trim input)) default

unfoldable pub parse_restart_mode : Text → RestartMode
unfolding parse_restart_mode_default
parse_restart_mode input = parse_restart_mode_default input unattended

abbrev pub is_yes : Text → Bool
is_yes s = text_eq s (codes "y") || text_eq s (codes "yes")

abbrev pub is_no : Text → Bool
is_no s = text_eq s (codes "n") || text_eq s (codes "no")

unfoldable pub parse_ack : Text → Bool
parse_ack input = is_yes (lowercase (trim input))

abbrev pub yes_no_of : Text → Bool → Bool
yes_no_of s default =
    if is_blank s then default else if is_yes s then true else if is_no s then false else default

unfoldable pub parse_yes_no : Text → Bool → Bool
parse_yes_no input default = yes_no_of (lowercase (trim input)) default

abbrev pub checked_url : Text → Answer Text
checked_url t =
    if is_blank t then declined no_url else if not (is_http t) then declined no_scheme else taken t

unfoldable pub normalize_url : Text → Answer Text
normalize_url input = checked_url (trim_end_matches is_slash (trim input))

abbrev pub with_path : Answer Text → Answer Text
with_path (taken url) = taken (url ++ webhook_path)
with_path (declined e) = declined e

unfoldable pub webhook_url_from_shop : Text → Answer Text
unfolding normalize_url
webhook_url_from_shop shop = with_path (normalize_url shop)

-- The text behind the first `://`, or the whole text.
abbrev pub is_scheme_end : Text → Bool
is_scheme_end s = starts_with (codes "://") s

abbrev pub drop_three : Text → Text
drop_three (a ∷ b ∷ c ∷ s) = s
drop_three s = s

unfoldable pub after_scheme : Text → Option Text
after_scheme [] = none
after_scheme (c ∷ cs) =
    let later = after_scheme cs in
    if is_scheme_end (c ∷ cs) then some (drop_three (c ∷ cs)) else later

-- The text from its first slash on.
unfoldable pub from_slash : Text → Text
from_slash [] = []
from_slash (c ∷ cs) = let later = from_slash cs in if is_slash c then c ∷ cs else later

abbrev pub path_of : Text → Option Text → Text
path_of url none = from_slash url
path_of url (some rest) = from_slash rest

unfoldable pub base_path : Text → Text
unfolding after_scheme from_slash
base_path public_url = trim_end_matches is_slash (path_of public_url (after_scheme public_url))

abbrev pub or_default_bind : Text → Text
or_default_bind t = if is_blank t then default_bind else t

unfoldable pub normalize_bind : Text → Text
normalize_bind input = or_default_bind (trim input)

abbrev pub or_usd : List Text → List Text
or_usd [] = default_currency ∷ []
or_usd (x ∷ xs) = x ∷ xs

unfoldable pub parse_currencies : Text → List Text
parse_currencies input =
    or_usd (select (λ s. not (is_blank s)) (map (λ s. lowercase (trim s)) (split b',' input)))

-- The first candidate that answers the probe; the probe is what each node answers.
unfoldable pub select_node : List Text → (Text → Bool) → Option Text
select_node [] probe = none
select_node (url ∷ urls) probe =
    let later = select_node urls probe in if probe url then some url else later
