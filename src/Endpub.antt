-- ===== src/Endpub.antt =====
-- Per-user endpubs with rolling rotation (crates/gp-core/src/endpub.rs). The child derivation is
-- an argument: it maps a user and an epoch to a public key. A random user id is an argument too.
use goblin_pay.Prelude.{
  ℕ, ◌+◌, String, Bool, ◌&&◌, Option, none, some, List, [], ◌∷◌, ◌++◌, if◌then◌else◌, ltb, leb,
  ◌==◌, str_eq, unwrap_or, select, first, update_where, any,
}
use goblin_pay.Prelude.Int.{ℤ, pos, ltb_ℤ, pos_part}
use goblin_pay.Store.{
  User, Endpub, Store, Result, ok, err, constraint, row_not_found, Action, ◌>>=◌, ◌>>◌, pure, ok_or,
  statement, query, execute,
}
use mathlib.Core.Option

abbrev pub is_user : String → User → Bool
is_user i u = str_eq u.id i

-- The primary key of `endpub_assignment`.
abbrev pub is_assignment : String → ℕ → Endpub → Bool
is_assignment i epoch a = str_eq a.user_id i && a.epoch == epoch

-- `INSERT OR IGNORE`
abbrev pub insert_or_ignore : Endpub → Store → Store
insert_or_ignore a s =
    if any (is_assignment a.user_id a.epoch) s.endpubs
    then s
    else record s { endpubs = s.endpubs ++ a ∷ [] }

abbrev pub assignment : (String → ℕ → String) → String → ℕ → ℕ → Endpub
assignment derive user_id epoch now = record {
  user_id = user_id;
  epoch = epoch;
  pubkey = derive user_id epoch;
  created_at = now;
}

unfoldable pub assign : (String → ℕ → String) → String → ℕ → Action Endpub
assign derive user_id epoch = do
  execute (λ s. insert_or_ignore (assignment derive user_id epoch s.clock) s)
  found ← query (λ s. first (is_assignment user_id epoch) s.endpubs)
  ok_or found row_not_found

unfoldable pub get_user : String → Action (Option User)
get_user i = query (λ s. first (is_user i) s.users)

abbrev pub insert_user : User → Store → Result (Unit {0}) × Store
insert_user u s =
    if any (is_user u.id) s.users
    then (err constraint, s)
    else (ok tt, record s { users = s.users ++ u ∷ [] })

abbrev pub new_user : String → Option ℤ → ℕ → User
new_user i interval now = record {
  id = i;
  rotate_interval = interval;
  epoch = 0;
  last_rotated_at = now;
  created_at = now;
}

-- The id is the caller's, else a random one.
unfoldable pub create_user :
    (String → ℕ → String) → String → Option String → Option ℤ → Action (User × Endpub)
create_user derive random_id requested interval = do
  let i = unwrap_or requested random_id
  statement (λ s. insert_user (new_user i interval s.clock) s)
  endpub ← assign derive i 0
  found ← get_user i
  user ← ok_or found row_not_found
  pure (user, endpub)

-- `ORDER BY epoch DESC LIMIT 1`
abbrev pub latest : Endpub → Option Endpub → Endpub
latest a none = a
latest a (some b) = if ltb a.epoch b.epoch then b else a

abbrev pub latest_of : List Endpub → Option Endpub
latest_of [] = none
latest_of (a ∷ as') = some (latest a (latest_of as'))

unfoldable pub current_endpub : String → Action (Option Endpub)
current_endpub i = query (λ s. latest_of (select (λ (a : Endpub). str_eq a.user_id i) s.endpubs))

unfoldable pub set_rotate_interval : String → Option ℤ → Action Bool
set_rotate_interval i interval = statement (λ s. (
  ok (any (is_user i) s.users),
  record s {
    users = update_where (is_user i) (λ u. record u { rotate_interval = interval }) s.users;
  },
))

abbrev pub advance : ℕ → ℕ → User → User
advance epoch now u = record u { epoch = epoch; last_rotated_at = now }

unfoldable pub rotate : (String → ℕ → String) → String → Action Endpub
rotate derive i = do
  found ← get_user i
  user ← ok_or found row_not_found
  let next = user.epoch + 1
  execute (λ s. record s { users = update_where (is_user i) (advance next s.clock) s.users })
  assign derive i next

-- The loop of `rotate_due`, with the number rotated so far. An interval of 0 or less is off.
unfoldable pub rotate_each : (String → ℕ → String) → ℤ → ℕ → List User → Action ℕ
rotate_each derive global_interval rotated [] = pure rotated
rotate_each derive global_interval rotated (u ∷ us) =
    let interval = unwrap_or u.rotate_interval global_interval in
    let skip = rotate_each derive global_interval rotated us in
    let next = rotate_each derive global_interval (rotated + 1) us in
    let clocked = (do
      now ← query (λ s. s.clock)
      if leb (u.last_rotated_at + pos_part interval) now
          then rotate derive u.id >>= (λ _. next)
          else skip) in
    if ltb_ℤ (pos 0) interval then clocked else skip

unfoldable pub rotate_due : (String → ℕ → String) → ℤ → Action ℕ
rotate_due derive global_interval = do
  users ← query (λ s. s.users)
  rotate_each derive global_interval 0 users

-- `JOIN user ON … WHERE a.epoch >= u.epoch - overlap`
abbrev pub is_watched : ℕ → List User → Endpub → Bool
is_watched overlap users a =
    any (λ u. str_eq u.id a.user_id && leb u.epoch (a.epoch + overlap)) users

-- `ORDER BY user_id, epoch` is left out: the result is a set of keys to watch.
unfoldable pub watched_pubkeys : ℤ → Action (List Endpub)
watched_pubkeys overlap = query (λ s. select (is_watched (pos_part overlap) s.users) s.endpubs)

unfoldable pub user_for_pubkey : String → Action (Option (String × ℕ))
user_for_pubkey key = query (λ s.
    Option.map (λ (a : Endpub). (a.user_id, a.epoch))
      (first (λ (a : Endpub). str_eq a.pubkey key) s.endpubs))

-- To unfold this is to unfold the module's functions.
unfoldable pub endpubs_code : Unit {0}
unfolding assign get_user create_user current_endpub set_rotate_interval rotate rotate_each
    rotate_due watched_pubkeys user_for_pubkey
endpubs_code = tt
