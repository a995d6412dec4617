-- ===== src/Matchmaking/Extensions/Laws.antt =====
-- What is written to an extension is read back, and the four extensions do not disturb each other.
use shulker.Prelude.{◌^◌, ◌<◌, ◌≡◌, ◌↔◌, refl, String, Option, none, some, arith, eq_iff}
use shulker.Prelude.Dict.{get, dict_laws}
use shulker.Prelude.Int32.{I32}
use shulker.OpenMatch.{Any, MatchProfile, Backfill, Codec}
use shulker.Matchmaking.Extensions.{
  int32_url, backfill_available_slots_key, profile_max_players_key, profile_min_players_key,
  and_then, encode_any_i32, encode_any_string, try_decode_any_i32, try_decode_any_string,
  set_min_players_in_profile, get_min_players_from_profile, set_max_players_in_profile,
  get_max_players_from_profile, set_available_slots_in_backfill, get_available_slots_from_backfill,
  set_game_server_id_in_backfill, get_game_server_id_from_backfill,
}

module _ {Bytes : Type 0} (codec : Codec Bytes) where
  try_decode-encode_i32 :
      (v : I32) → v < 2 ^ 32 → try_decode_any_i32 codec (encode_any_i32 codec v) ≡ some v
  unfolding try_decode_any_i32 encode_any_i32
  try_decode-encode_i32 v h = codec.decode-encode_i32 v h

  try_decode-encode_string :
      (s : String) → try_decode_any_string codec (encode_any_string codec s) ≡ some s
  unfolding try_decode_any_string encode_any_string
  try_decode-encode_string s = codec.decode-encode_string s

  -- Both limits of a profile read back as they were written, the minimum first as the queue
  -- registry writes them.
  pub profile_limits_roundtrip :
      (p : MatchProfile Bytes) (lo hi : I32)
      → lo < 2 ^ 32
      → hi < 2 ^ 32
      → let q = set_max_players_in_profile codec (set_min_players_in_profile codec p lo) hi in
        (get_min_players_from_profile codec q ≡ some lo)
        × (get_max_players_from_profile codec q ≡ some hi)
  unfolding set_max_players_in_profile set_min_players_in_profile get_min_players_from_profile
      get_max_players_from_profile
  profile_limits_roundtrip p lo hi a b =
      (simp dict_laws (try_decode-encode_i32 lo a), simp dict_laws (try_decode-encode_i32 hi b))

  pub get-set_min_players :
      (p : MatchProfile Bytes) (v : I32)
      → v < 2 ^ 32
      → get_min_players_from_profile codec (set_min_players_in_profile codec p v) ≡ some v
  unfolding set_min_players_in_profile get_min_players_from_profile
  get-set_min_players p v a = simp dict_laws (try_decode-encode_i32 v a)

  pub get-set_max_players :
      (p : MatchProfile Bytes) (v : I32)
      → v < 2 ^ 32
      → get_max_players_from_profile codec (set_max_players_in_profile codec p v) ≡ some v
  unfolding set_max_players_in_profile get_max_players_from_profile
  get-set_max_players p v a = simp dict_laws (try_decode-encode_i32 v a)

  -- A profile whose minimum was never set has none after the maximum is set either.
  pub get_min-set_max :
      (p : MatchProfile Bytes) (v : I32)
      → get_min_players_from_profile codec (set_max_players_in_profile codec p v)
        ≡ get_min_players_from_profile codec p
  unfolding set_max_players_in_profile get_min_players_from_profile
  get_min-set_max p v = simp dict_laws

  pub get-set_available_slots :
      (b : Backfill Bytes) (v : I32)
      → v < 2 ^ 32
      → get_available_slots_from_backfill codec (set_available_slots_in_backfill codec b v) ≡ some v
  unfolding set_available_slots_in_backfill get_available_slots_from_backfill
  get-set_available_slots b v a = simp dict_laws (try_decode-encode_i32 v a)

  -- The free slots of a backfill and its game server are independent: each write is read back, and
  -- leaves the other value as it was.
  pub backfill_extensions_independent :
      (b : Backfill Bytes) (v : I32) (s : String)
      → v < 2 ^ 32
      → (get_available_slots_from_backfill codec (set_available_slots_in_backfill codec b v)
          ≡ some v)
        × (get_game_server_id_from_backfill codec (set_available_slots_in_backfill codec b v)
            ≡ get_game_server_id_from_backfill codec b)
        × (get_game_server_id_from_backfill codec (set_game_server_id_in_backfill codec b s)
            ≡ some s)
        × (get_available_slots_from_backfill codec (set_game_server_id_in_backfill codec b s)
            ≡ get_available_slots_from_backfill codec b)
  unfolding set_available_slots_in_backfill get_available_slots_from_backfill
      set_game_server_id_in_backfill get_game_server_id_from_backfill
  backfill_extensions_independent b v s a = (
    simp dict_laws (try_decode-encode_i32 v a),
    simp dict_laws,
    simp dict_laws (try_decode-encode_string s),
    simp dict_laws,
  )

  try_decode_any_i32_iff :
      (a : Any Bytes) (v : I32)
      → (try_decode_any_i32 codec a ≡ some v)
        ↔ ((a.type_url ≡ int32_url) × (codec.decode_i32 a.value ≡ some v))
  unfolding try_decode_any_i32
  try_decode_any_i32_iff a v = (
    λ h. ground (arith, eq_iff a.type_url int32_url),
    λ h. ground (arith, eq_iff a.type_url int32_url),
  )

  abbrev IsEntry : Option (Any Bytes) → I32 → Type 0
  IsEntry o v =
      (a : Any Bytes) × (o ≡ some a)
      × (a.type_url ≡ int32_url)
      × (codec.decode_i32 a.value ≡ some v)

  decode-IsEntry_iff :
      (o : Option (Any Bytes)) (v : I32)
      → (and_then o (try_decode_any_i32 codec) ≡ some v) ↔ IsEntry o v
  decode-IsEntry_iff none v = (λ h. cc, λ h. cc (h.1))
  decode-IsEntry_iff (some a) v = (
    λ h. let d = (try_decode_any_i32_iff a v).0 h in (a, refl, d.0, d.1),
    λ h. let same : a ≡ h.0 = cc (h.1) in (try_decode_any_i32_iff a v).1 (rw same h.2, rw same h.3),
  )

  -- A backfill has free slots exactly when its entry is there, is an encoded `i32`, and decodes.
  get_available_slots_iff :
      (b : Backfill Bytes) (v : I32)
      → (get_available_slots_from_backfill codec b ≡ some v)
        ↔ IsEntry (get backfill_available_slots_key b.extensions) v
  unfolding get_available_slots_from_backfill
  get_available_slots_iff b v = decode-IsEntry_iff (get backfill_available_slots_key b.extensions) v

  get_available_slots_range :
      (b : Backfill Bytes) (v : I32)
      → get_available_slots_from_backfill codec b ≡ some v
      → v < 2 ^ 32
  get_available_slots_range b v h =
      let e = (get_available_slots_iff b v).0 h in codec.decode_i32_range (e.0).value v e.3

  get_max_players_range :
      (p : MatchProfile Bytes) (v : I32)
      → get_max_players_from_profile codec p ≡ some v
      → v < 2 ^ 32
  unfolding get_max_players_from_profile
  get_max_players_range p v h =
      let e = (decode-IsEntry_iff (get profile_max_players_key p.extensions) v).0 h in
      codec.decode_i32_range (e.0).value v e.3

  get_min_players_range :
      (p : MatchProfile Bytes) (v : I32)
      → get_min_players_from_profile codec p ≡ some v
      → v < 2 ^ 32
  unfolding get_min_players_from_profile
  get_min_players_range p v h =
      let e = (decode-IsEntry_iff (get profile_min_players_key p.extensions) v).0 h in
      codec.decode_i32_range (e.0).value v e.3
