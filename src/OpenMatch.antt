-- ===== src/OpenMatch.antt =====
-- The Open Match messages that the matchmaking addon handles
-- (packages/google-open-match-sdk/proto/api), as the generated Rust structures have them.
-- `Bytes` is the type of encoded values; how they are encoded is `Codec`, which stands for the
-- protobuf library. Left out are the filters and arguments on doubles and strings and the creation
-- bounds of a pool, which the code only ever leaves at their default.
use shulker.Prelude.{ℕ, ◌^◌, ◌<◌, ◌≡◌, String, Bool, List, Option, some}
use shulker.Prelude.Dict.{Dict}
use shulker.Prelude.Int32.{I32}

pub record Any (Bytes : Type 0) : Type 0 where
  pub type_url : String
  pub value : Bytes

pub record Timestamp : Type 0 where
  pub seconds : ℕ
  pub nanos : I32

pub record SearchFields : Type 0 where
  pub tags : List String

pub record Assignment (Bytes : Type 0) : Type 0 where
  pub connection : String
  pub extensions : Dict (Any Bytes)

pub record Ticket (Bytes : Type 0) : Type 0 where
  pub id : String
  pub assignment : Option (Assignment Bytes)
  pub search_fields : Option SearchFields
  pub extensions : Dict (Any Bytes)
  pub persistent_field : Dict (Any Bytes)
  pub create_time : Option Timestamp

pub record TagPresentFilter : Type 0 where
  pub tag : String

pub record Pool : Type 0 where
  pub name : String
  pub tag_present_filters : List TagPresentFilter

pub record MatchProfile (Bytes : Type 0) : Type 0 where
  pub name : String
  pub pools : List Pool
  pub extensions : Dict (Any Bytes)

pub record Backfill (Bytes : Type 0) : Type 0 where
  pub id : String
  pub search_fields : Option SearchFields
  pub extensions : Dict (Any Bytes)
  pub persistent_field : Dict (Any Bytes)
  pub create_time : Option Timestamp
  pub generation : ℕ

pub record Match (Bytes : Type 0) : Type 0 where
  pub match_id : String
  pub match_profile : String
  pub match_function : String
  pub tickets : List (Ticket Bytes)
  pub extensions : Dict (Any Bytes)
  pub backfill : Option (Backfill Bytes)
  pub allocate_gameserver : Bool

pub record FunctionConfig : Type 0 where
  pub host : String
  pub port : I32
  pub type_ : I32

-- `function_config::Type::Grpc as i32`.
abbrev pub grpc : I32
grpc = 0

-- The protobuf encoding of the two wrapper messages: decoding undoes encoding, and a decoded
-- `i32` has 32 bits.
pub record Codec (Bytes : Type 0) : Type 0 where
  pub encode_i32 : I32 → Bytes
  pub decode_i32 : Bytes → Option I32
  pub encode_string : String → Bytes
  pub decode_string : Bytes → Option String
  pub decode-encode_i32 : (v : I32) → v < 2 ^ 32 → decode_i32 (encode_i32 v) ≡ some v
  pub decode_i32_range : (b : Bytes) (v : I32) → decode_i32 b ≡ some v → v < 2 ^ 32
  pub decode-encode_string : (s : String) → decode_string (encode_string s) ≡ some s
