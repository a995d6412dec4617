-- ===== src/Matchmaking/Extensions.antt =====
-- packages/shulker-addon-matchmaking/src/extensions.rs: typed values in the extension maps of
-- profiles and backfills. The macro is written out for each of its four uses.
pub mod Laws
use shulker.Prelude.{String, Option, none, some, ◌==◌, if◌then◌else◌}
use shulker.Prelude.Dict.{Dict, get, insert}
use shulker.Prelude.Int32.{I32}
use shulker.OpenMatch.{Any, MatchProfile, Backfill, Codec}

abbrev pub profile_min_players_key : String
profile_min_players_key = "shulker:min_players"

abbrev pub profile_max_players_key : String
profile_max_players_key = "shulker:max_players"

abbrev pub backfill_available_slots_key : String
backfill_available_slots_key = "shulker:available_slots"

abbrev backfill_game_server_id_key : String
backfill_game_server_id_key = "shulker:game_server_id"

abbrev pub int32_url : String
int32_url = "type.googleapis.com/google.protobuf.Int32Value"

abbrev string_url : String
string_url = "type.googleapis.com/google.protobuf.StringValue"

abbrev pub and_then {ℓ κ} : {A : Type ℓ} {B : Type κ} → Option A → (A → Option B) → Option B
and_then none f = none
and_then (some a) f = f a

module _ {Bytes : Type 0} (codec : Codec Bytes) where
  unfoldable pub encode_any_i32 : I32 → Any Bytes
  encode_any_i32 v = record { type_url = int32_url; value = codec.encode_i32 v }

  unfoldable pub encode_any_string : String → Any Bytes
  encode_any_string s = record { type_url = string_url; value = codec.encode_string s }

  unfoldable pub try_decode_any_i32 : Any Bytes → Option I32
  try_decode_any_i32 a = if a.type_url == int32_url then codec.decode_i32 a.value else none

  unfoldable pub try_decode_any_string : Any Bytes → Option String
  try_decode_any_string a = if a.type_url == string_url then codec.decode_string a.value else none

  unfoldable pub set_min_players_in_profile : MatchProfile Bytes → I32 → MatchProfile Bytes
  set_min_players_in_profile p v = record p {
    extensions = insert profile_min_players_key (encode_any_i32 v) p.extensions;
  }

  unfoldable pub get_min_players_from_profile : MatchProfile Bytes → Option I32
  get_min_players_from_profile p =
      and_then (get profile_min_players_key p.extensions) try_decode_any_i32

  unfoldable pub set_max_players_in_profile : MatchProfile Bytes → I32 → MatchProfile Bytes
  set_max_players_in_profile p v = record p {
    extensions = insert profile_max_players_key (encode_any_i32 v) p.extensions;
  }

  unfoldable pub get_max_players_from_profile : MatchProfile Bytes → Option I32
  get_max_players_from_profile p =
      and_then (get profile_max_players_key p.extensions) try_decode_any_i32

  unfoldable pub set_available_slots_in_backfill : Backfill Bytes → I32 → Backfill Bytes
  set_available_slots_in_backfill b v = record b {
    extensions = insert backfill_available_slots_key (encode_any_i32 v) b.extensions;
  }

  unfoldable pub get_available_slots_from_backfill : Backfill Bytes → Option I32
  get_available_slots_from_backfill b =
      and_then (get backfill_available_slots_key b.extensions) try_decode_any_i32

  unfoldable pub set_game_server_id_in_backfill : Backfill Bytes → String → Backfill Bytes
  set_game_server_id_in_backfill b s = record b {
    extensions = insert backfill_game_server_id_key (encode_any_string s) b.extensions;
  }

  unfoldable pub get_game_server_id_from_backfill : Backfill Bytes → Option String
  get_game_server_id_from_backfill b =
      and_then (get backfill_game_server_id_key b.extensions) try_decode_any_string
