-- ===== src/Matchmaking/Samples.antt =====
-- Sample data for the tests and witnesses of the matchmaking addon: a codec, tickets, a profile.
use shulker.Prelude.{
  ℕ, zero, suc, ◌^◌, ◌<◌, ◌≡◌, refl, String, List, [], ◌∷◌, Option, none, some, arith, ltb, lt→ltb,
  if◌then◌else◌,
}
use Prim.Native.String.{◌++◌}
use shulker.Prelude.Int32.{I32}
use shulker.OpenMatch.{Codec, Ticket, Backfill, MatchProfile, Pool}
use shulker.Matchmaking.Extensions.{
  set_min_players_in_profile, set_max_players_in_profile, set_available_slots_in_backfill,
  set_game_server_id_in_backfill,
}

-- Encoded values that say what they encode.
pub data Wire : Type 0 where
  int : ℕ → Wire
  text : String → Wire

abbrev decode_int : Wire → Option I32
decode_int (int n) = if ltb n (2 ^ 32) then some n else none
decode_int (text s) = none

abbrev decode_text : Wire → Option String
decode_text (int n) = none
decode_text (text s) = some s

pub decode_int_lem : (v : I32) → v < 2 ^ 32 → decode_int (int v) ≡ some v
decode_int_lem v h = rw (lt→ltb v (2 ^ 32) h)

pub decode_int_range : (b : Wire) (v : I32) → decode_int b ≡ some v → v < 2 ^ 32
decode_int_range (int n) v h = ground arith
decode_int_range (text s) v h = cc

abbrev pub wire : Codec Wire
wire = record {
  encode_i32 = int;
  decode_i32 = decode_int;
  encode_string = text;
  decode_string = decode_text;
  decode-encode_i32 = decode_int_lem;
  decode_i32_range = decode_int_range;
  decode-encode_string = λ s. refl;
}

-- `a`, `aa`, ...: a stream of identifiers.
abbrev pub uuid : ℕ → String
uuid zero = "a"
uuid (suc n) = "a" ++ uuid n

abbrev pub ticket : String → Ticket Wire
ticket id = record {
  id = id;
  assignment = none;
  search_fields = none;
  extensions = [];
  persistent_field = [];
  create_time = none;
}

abbrev pub two_tickets : List (Ticket Wire)
two_tickets = ticket "t1" ∷ ticket "t2" ∷ []

abbrev pub seven_tickets : List (Ticket Wire)
seven_tickets =
    ticket "t1"
    ∷ ticket "t2"
    ∷ ticket "t3"
    ∷ ticket "t4"
    ∷ ticket "t5"
    ∷ ticket "t6"
    ∷ ticket "t7"
    ∷ []

abbrev pub bare_profile : MatchProfile Wire
bare_profile = record { name = "shulker_lobby"; pools = []; extensions = [] }

abbrev bare_backfill : Backfill Wire
bare_backfill = record {
  id = "b1";
  search_fields = none;
  extensions = [];
  persistent_field = [];
  create_time = none;
  generation = 0;
}

abbrev pub lobby_pool : Pool
lobby_pool = record { name = "pool_default"; tag_present_filters = record { tag = "lobby" } ∷ [] }

-- Between 2 and 4 players.
unfoldable pub lobby_profile : MatchProfile Wire
lobby_profile = set_max_players_in_profile wire (set_min_players_in_profile wire bare_profile 2) 4

-- A running server with 1 free place.
unfoldable pub lobby_backfill : Backfill Wire
lobby_backfill =
    set_game_server_id_in_backfill wire (set_available_slots_in_backfill wire bare_backfill 1)
      "gs-1"
