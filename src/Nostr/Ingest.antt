-- ===== src/Nostr/Ingest.antt =====
-- The guarded ingest pipeline (crates/gp-nostr/src/ingest.rs). The directory of keys, the decryption
-- of a wrap and the wallet behind `receive` are parameters; time is the second of the call.
pub mod Once
pub mod Rate
use goblin_pay.Prelude.{
  ℕ, zero, suc, ◌+◌, ◌-◌, ◌*◌, ◌<◌, ◌≤◌, String, Bool, true, false, not, ◌&&◌, ◌||◌, Option, none,
  some, is_some, List, [], ◌∷◌, ◌++◌, if◌then◌else◌, ltb, leb, ◌==◌, length, byte_len, select, any,
  str_eq,
}
use goblin_pay.Nostr.Protocol.{
  Tag, max_wrap_content, max_rumor_content, extract_slatepack, extract_subject, from_first,
  through_first, has_block,
}

abbrev pub rate_per_sender_per_hour : ℕ
rate_per_sender_per_hour = 10

abbrev pub global_unwrap_per_min : ℕ
global_unwrap_per_min = 120

abbrev pub rate_map_cap : ℕ
rate_map_cap = 10_000

pub data DropReason : Type 0 where
  already_processed own_message not_a_dm no_slatepack : DropReason
  not_a_gift_wrap oversized_wrap not_a_watched_identity unwrap_failed : DropReason
  slate_already_received invalid_slatepack : DropReason

pub data IngestDecision : Type 0 where
  auto_receive : IngestDecision
  drop_it : DropReason → IngestDecision

pub record IngestContext : Type 0 where
  pub sender : String
  pub is_self : Bool
  pub rumor_is_dm : Bool
  pub has_slatepack : Bool
  pub duplicate : Bool

unfoldable pub decide : IngestContext → IngestDecision
decide c =
    if c.duplicate
    then drop_it already_processed
    else if c.is_self
    then drop_it own_message
    else if not c.rumor_is_dm
    then drop_it not_a_dm
    else if not c.has_slatepack
    then drop_it no_slatepack
    else auto_receive

-- The hits of each sender, and of the global ceiling under its own key.
abbrev pub RateMap : Type 0
RateMap = List (String × List ℕ)

abbrev pub global_key : String
global_key = "\0global"

abbrev pub hits_of : String → RateMap → List ℕ
hits_of k [] = []
hits_of k ((j, hs) ∷ m) = if str_eq j k then hs else hits_of k m

abbrev pub set_hits : String → List ℕ → RateMap → RateMap
set_hits k hs [] = (k, hs) ∷ []
set_hits k hs ((j, gs) ∷ m) = if str_eq j k then (j, hs) ∷ m else (j, gs) ∷ set_hits k hs m

-- `now - t < window`
abbrev pub within : ℕ → ℕ → ℕ → Bool
within now window t = ltb (now - t) window

abbrev pub recent : ℕ → ℕ → List ℕ → List ℕ
recent now window = select (within now window)

abbrev pub prune : ℕ → RateMap → RateMap
prune now m = if ltb rate_map_cap (length m) then select (λ e. any (within now 3600) e.1) m else m

unfoldable pub allow_sender : ℕ → String → RateMap → Bool × RateMap
allow_sender now sender m =
    let hits = recent now 3600 (hits_of sender m) in
    if leb rate_per_sender_per_hour (length hits)
    then (false, set_hits sender hits m)
    else (true, prune now (set_hits sender (hits ++ now ∷ []) m))

unfoldable pub allow_global_unwrap : ℕ → RateMap → Bool × RateMap
allow_global_unwrap now m =
    let hits = recent now 60 (hits_of global_key m) in
    if leb global_unwrap_per_min (length hits)
    then (false, set_hits global_key hits m)
    else (true, set_hits global_key (hits ++ now ∷ []) m)

pub record Event : Type 0 where
  pub id : String
  pub is_gift_wrap : Bool
  pub content : List ℕ
  -- The value of the first `p` tag.
  pub recipient : Option String

pub record Rumor : Type 0 where
  pub id : String
  pub is_dm : Bool
  pub content : List ℕ
  pub tags : List Tag

pub record Unwrapped : Type 0 where
  pub sender : String
  pub rumor : Rumor

pub record ReceivedPayment : Type 0 where
  pub slate_id : String
  pub amount_nano : ℕ
  pub s2_armor : String

pub data ReceiveResult : Type 0 where
  received_ok : ReceivedPayment → ReceiveResult
  duplicate_slate rejected_slate failed_receive : ReceiveResult

pub record IncomingContext : Type 0 where
  pub payer_hex : String
  pub recipient_hex : String
  pub memo_text : Option (List ℕ)

-- What the pipeline is built over: the master identity, the directory (the hex of the key that it
-- holds for a recipient), the decryption with such a key, and the wallet handoff over its state.
pub record Services (W : Type 0) : Type 0 where
  pub master : String
  pub resolve : String → Option String
  pub unwrap : String → Event → Option Unwrapped
  pub receive : List ℕ → IncomingContext → W → ReceiveResult × W

pub record IngestState (W : Type 0) : Type 0 where
  pub seen : List String
  pub rate : RateMap
  pub wallet : W

pub data IngestOutcome : Type 0 where
  received_outcome : ReceivedPayment → String → String → IngestOutcome
  dropped : DropReason → IngestOutcome
  rate_limited failed : IngestOutcome

abbrev pub is_seen : String → List String → Bool
is_seen k seen = any (str_eq k) seen

module _ {W : Type 0} (v : Services W) where
  abbrev pub Handler : Type 0
  Handler = IngestState W → IngestOutcome × IngestState W

  abbrev pub mark : String → IngestState W → IngestState W
  mark k s = record s { seen = k ∷ s.seen }

  abbrev pub drop_marked : String → DropReason → Handler
  drop_marked wrap r s = (dropped r, mark wrap s)

  abbrev pub drop_both : String → String → DropReason → Handler
  drop_both wrap rumor r s = (dropped r, mark rumor (mark wrap s))

  -- The slate marker, `slate:<id>`; the marker text is an argument.
  unfoldable pub after_receive :
      (String → String) → String → Unwrapped → String → ReceiveResult → Handler
  after_receive slate_key wrap u key (received_ok p) s =
      (received_outcome p key u.sender, mark (slate_key p.slate_id) (mark u.rumor.id (mark wrap s)))
  after_receive slate_key wrap u key duplicate_slate s =
      drop_both wrap u.rumor.id slate_already_received s
  after_receive slate_key wrap u key rejected_slate s =
      drop_both wrap u.rumor.id invalid_slatepack s
  after_receive slate_key wrap u key failed_receive s = (failed, s)

  -- Steps 5 and 6: the sender's limit and the handoff.
  unfoldable pub hand_over : (String → String) → ℕ → String → String → Unwrapped → List ℕ → Handler
  hand_over slate_key now wrap key u armor s =
      let (allowed, rate) = allow_sender now u.sender s.rate in
      let s₁ = record s { rate = rate } in
      let ctx : IncomingContext = record {
        payer_hex = u.sender;
        recipient_hex = key;
        memo_text = extract_subject u.rumor.tags;
      } in
      let (result, w) = v.receive armor ctx s₁.wallet in
      if allowed
      then after_receive slate_key wrap u key result (record s₁ { wallet = w })
      else (rate_limited, s₁)

  abbrev pub context_of : Unwrapped → Option (List ℕ) → List String → IngestContext
  context_of u armor seen = record {
    sender = u.sender;
    is_self = str_eq u.sender v.master;
    rumor_is_dm = u.rumor.is_dm && leb (byte_len u.rumor.content) max_rumor_content;
    has_slatepack = is_some armor;
    duplicate = is_seen u.rumor.id seen;
  }

  -- Step 4: the policy. `auto_receive` comes with an armor.
  unfoldable pub judge :
      (String → String)
      → ℕ
      → String
      → String
      → Unwrapped
      → IngestDecision
      → Option (List ℕ)
      → Handler
  judge slate_key now wrap key u (drop_it r) armor s = drop_both wrap u.rumor.id r s
  judge slate_key now wrap key u auto_receive none s = (failed, s)
  judge slate_key now wrap key u auto_receive (some armor) s =
      hand_over slate_key now wrap key u armor s

  unfoldable pub opened : (String → String) → ℕ → String → String → Option Unwrapped → Handler
  opened slate_key now wrap key none s = drop_marked wrap unwrap_failed s
  opened slate_key now wrap key (some u) s =
      let armor = extract_slatepack u.rumor.content in
      judge slate_key now wrap key u (decide (context_of u armor s.seen)) armor s

  unfoldable pub addressed : (String → String) → ℕ → Event → Option String → Handler
  addressed slate_key now e none s = drop_marked e.id not_a_watched_identity s
  addressed slate_key now e (some key) s = opened slate_key now e.id key (v.unwrap key e) s

  abbrev pub resolved : Option String → Option String
  resolved none = none
  resolved (some hex) = v.resolve hex

  unfoldable pub admitted : (String → String) → ℕ → Event → Bool × RateMap → Handler
  admitted slate_key now e (true, rate) s =
      addressed slate_key now e (resolved e.recipient) (record s { rate = rate })
  admitted slate_key now e (false, rate) s = (rate_limited, record s { rate = rate })

  -- One gift wrap event at the second `now`.
  unfoldable pub handle_wrap : (String → String) → ℕ → Event → Handler
  handle_wrap slate_key now e s =
      if not e.is_gift_wrap
      then (dropped not_a_gift_wrap, s)
      else if ltb max_wrap_content (byte_len e.content)
      then drop_marked e.id oversized_wrap s
      else if is_seen e.id s.seen
      then (dropped already_processed, s)
      else admitted slate_key now e (allow_global_unwrap now s.rate) s

-- To unfold this is to unfold the handler.
unfoldable pub ingesting : Unit {0}
unfolding decide allow_sender allow_global_unwrap after_receive hand_over judge opened addressed
    admitted handle_wrap extract_slatepack from_first through_first has_block
ingesting = tt
