-- ===== src/Config/Document.antt =====
-- gateway/src/Config.cpp: loadJson and parseNewJsonConfig, over the document that nlohmann::json reads. An assignment from a
-- member of another type throws, which ends the loading; what was set before stays set.
use distributed_im.Common.{
  ℕ, ◌-◌, ◌%◌, ◌^◌, Bool, true, false, Option, none, some, Bytes, is_empty, ltb, if◌then◌else◌,
}
use distributed_im.Common.Decimal.{ℤ, pos, negsuc}
use distributed_im.Common.Text.{codes}
use distributed_im.Json.{
  JsonValue, boolean, integer, seconds, real, text, object, JsonLibrary, member,
}
use distributed_im.Config.{
  ServerConfig, RedisConfig, LogConfig, E2eeConfig, AiConfig, RegionConfig, RateLimitConfig,
  WebSocketConfig, Config,
}
use distributed_im.Config.Values.{between, lower, is_valid_log_level, is_valid_host}

-- The conversion to `int`.
unfoldable pub to_int : ℤ → ℤ
to_int (pos n) = let m = n % 2 ^ 32 in if ltb m (2 ^ 31) then pos m else negsuc (2 ^ 32 - 1 - m)
to_int (negsuc n) = let m = n % 2 ^ 32 in if ltb m (2 ^ 31) then negsuc m else pos (2 ^ 32 - 1 - m)

-- `val > 0`.
unfoldable pub is_positive : ℤ → Bool
is_positive (pos n) = ltb 0 n
is_positive (negsuc n) = false

unfoldable pub only_object : Option JsonValue → Option JsonValue
only_object (some (object fs)) = some (object fs)
only_object (some _) = none
only_object none = none

-- A section that is there and is an object.
unfoldable pub section_of : Bytes → JsonValue → Option JsonValue
unfolding member only_object
section_of key j = only_object (member key j)

-- An `int` member, with its guard: a missing member, one of another type and a refused value keep the old value.
unfoldable pub set_int : (ℤ → Bool) → Option JsonValue → ℤ → ℤ
unfolding to_int
set_int ok (some (integer n)) old = let val = to_int n in if ok val then val else old
set_int ok (some _) old = old
set_int ok none old = old

unfoldable pub set_text : (Bytes → Bool) → Option JsonValue → Bytes → Bytes
set_text ok (some (text s)) old = if ok s then s else old
set_text ok (some _) old = old
set_text ok none old = old

unfoldable pub set_bool : Option JsonValue → Bool → Bool
set_bool (some (boolean b)) old = b
set_bool (some _) old = old
set_bool none old = old

abbrev any_text : Bytes → Bool
any_text s = true

abbrev any_int : ℤ → Bool
any_int n = true

abbrev pub not_empty : Bytes → Bool
not_empty s = if is_empty s then false else true

unfoldable pub json_server : JsonValue → ServerConfig → ServerConfig
unfolding set_int member between is_positive
json_server j c = record {
  port = set_int (between 1 65_535) (member (codes "port") j) c.port;
  max_connections = set_int is_positive (member (codes "max_connections") j) c.max_connections;
  timeout_seconds = set_int is_positive (member (codes "timeout_seconds") j) c.timeout_seconds;
}

unfoldable pub json_redis : JsonValue → RedisConfig → RedisConfig
unfolding set_int set_text member between is_valid_host
json_redis j c = record {
  host = set_text is_valid_host (member (codes "host") j) c.host;
  port = set_int (between 1 65_535) (member (codes "port") j) c.port;
  password = set_text any_text (member (codes "password") j) c.password;
  db = set_int (between 0 15) (member (codes "db") j) c.db;
}

-- The level is put into lower case before it is tested.
unfoldable pub set_level : Option JsonValue → Bytes → Bytes
unfolding lower is_valid_log_level
set_level (some (text s)) old = if is_valid_log_level (lower s) then lower s else old
set_level (some _) old = old
set_level none old = old

unfoldable pub json_log : JsonValue → LogConfig → LogConfig
unfolding set_int set_text set_bool set_level member is_positive
json_log j c = record {
  level = set_level (member (codes "level") j) c.level;
  file = set_text not_empty (member (codes "file") j) c.file;
  console_output = set_bool (member (codes "console_output") j) c.console_output;
  file_output = set_bool (member (codes "file_output") j) c.file_output;
  max_file_size = set_int is_positive (member (codes "max_file_size") j) c.max_file_size;
  max_files = set_int is_positive (member (codes "max_files") j) c.max_files;
  console_pattern = set_text any_text (member (codes "console_pattern") j) c.console_pattern;
  file_pattern = set_text any_text (member (codes "file_pattern") j) c.file_pattern;
}

-- A flag that is assigned without a test of its type; `none` where that throws.
unfoldable pub assign_bool : Option JsonValue → Bool → Option Bool
assign_bool none old = some old
assign_bool (some (boolean b)) old = some b
assign_bool (some _) old = none

-- A section of parseNewJsonConfig: whether it goes through, and what it leaves.
abbrev pub Assigned : Type 0 → Type 0
Assigned C = Bool × C

unfoldable pub json_e2ee : JsonValue → E2eeConfig → Assigned E2eeConfig
unfolding assign_bool set_text member
json_e2ee j c = elim (assign_bool (member (codes "enabled") j) c.enabled) [
  | none ↦ (false, c)
  | some enabled ↦
      let key_dir = set_text any_text (member (codes "key_dir") j) c.key_dir in
      (true, record { enabled = enabled; key_dir = key_dir })
]

unfoldable pub json_ai : JsonValue → AiConfig → Assigned AiConfig
unfolding assign_bool set_text set_int member
json_ai j c = elim (assign_bool (member (codes "enabled") j) c.enabled) [
  | none ↦ (false, c)
  | some enabled ↦
      let history = member (codes "max_context_messages") j in
      (
        true,
        record {
          enabled = enabled;
          api_url = set_text any_text (member (codes "api_url") j) c.api_url;
          audit_api_url = set_text any_text (member (codes "audit_api_url") j) c.audit_api_url;
          timeout_ms = set_int any_int (member (codes "timeout_ms") j) c.timeout_ms;
          max_context_messages = set_int any_int history c.max_context_messages;
        },
      )
]

-- The name is set before the flag, and stays set when the flag throws.
unfoldable pub json_region : JsonValue → RegionConfig → Assigned RegionConfig
unfolding assign_bool set_text member
json_region j c =
    let named = record c { region = set_text any_text (member (codes "name") j) c.region } in
    elim (assign_bool (member (codes "prefer_local") j) c.prefer_local) [
      | none ↦ (false, named)
      | some prefer ↦ (true, record named { prefer_local = prefer })
    ]

-- `is_number()`.
unfoldable pub number_of : Option JsonValue → Option JsonValue
number_of (some (integer n)) = some (integer n)
number_of (some (seconds n)) = some (seconds n)
number_of (some (real s)) = some (real s)
number_of (some _) = none
number_of none = none

unfoldable pub json_rate_limit : JsonValue → RateLimitConfig → Assigned RateLimitConfig
unfolding assign_bool set_int number_of member
json_rate_limit j c = elim (assign_bool (member (codes "enabled") j) c.enabled) [
  | none ↦ (false, c)
  | some enabled ↦
      let rate : JsonValue = elim (number_of (member (codes "messages_per_second") j)) [
        | none ↦ c.messages_per_second
        | some n ↦ n
      ] in
      let capacity = set_int any_int (member (codes "bucket_capacity") j) c.bucket_capacity in
      (true, record { enabled = enabled; messages_per_second = rate; bucket_capacity = capacity })
]

-- `to_uint64` is nlohmann's conversion of a number.
unfoldable pub json_websocket :
    (JsonValue → ℕ) → JsonValue → WebSocketConfig → Assigned WebSocketConfig
unfolding assign_bool set_int number_of member
json_websocket to_uint64 j c = elim (assign_bool (member (codes "enabled") j) c.enabled) [
  | none ↦ (false, c)
  | some enabled ↦
      let size : ℕ = elim (number_of (member (codes "max_frame_size") j)) [
        | none ↦ c.max_frame_size
        | some n ↦ to_uint64 n
      ] in
      let largest = set_int any_int (member (codes "max_message_size") j) c.max_message_size in
      (true, record { enabled = enabled; max_frame_size = size; max_message_size = largest })
]

-- A section, when it is there, on a loading that has not thrown.
unfoldable pub with_section :
    Bytes → JsonValue → (JsonValue → Config → Assigned Config) → Assigned Config → Assigned Config
unfolding section_of
with_section key j f (false, c) = (false, c)
with_section key j f (true, c) = elim (section_of key j) [ none ↦ (true, c) | some v ↦ f v c ]

abbrev pub update_e2ee : JsonValue → Config → Assigned Config
update_e2ee v c = let (ok, x) = json_e2ee v c.e2ee in (ok, record c { e2ee = x })

abbrev pub update_ai : JsonValue → Config → Assigned Config
update_ai v c = let (ok, x) = json_ai v c.ai in (ok, record c { ai = x })

abbrev pub update_region : JsonValue → Config → Assigned Config
update_region v c = let (ok, x) = json_region v c.region in (ok, record c { region = x })

abbrev pub update_rate_limit : JsonValue → Config → Assigned Config
update_rate_limit v c =
    let (ok, x) = json_rate_limit v c.rate_limit in (ok, record c { rate_limit = x })

abbrev pub update_websocket : (JsonValue → ℕ) → JsonValue → Config → Assigned Config
update_websocket to_uint64 v c =
    let (ok, x) = json_websocket to_uint64 v c.websocket in (ok, record c { websocket = x })

unfoldable pub parse_new_json_config : (JsonValue → ℕ) → JsonValue → Config → Assigned Config
unfolding with_section json_e2ee json_ai json_region json_rate_limit json_websocket
parse_new_json_config to_uint64 j c =
    let a1 = with_section (codes "e2ee") j update_e2ee (true, c) in
    let a2 = with_section (codes "ai") j update_ai a1 in
    let a3 = with_section (codes "region") j update_region a2 in
    let a4 = with_section (codes "rate_limit") j update_rate_limit a3 in
    with_section (codes "websocket") j (update_websocket to_uint64) a4

-- The sections that never throw.
unfoldable pub old_sections : JsonValue → Config → Config
unfolding section_of json_server json_redis json_log
old_sections j c = record c {
  server = elim (section_of (codes "server") j) [
    | none ↦ c.server
    | some v ↦ json_server v c.server
  ];
  redis = elim (section_of (codes "redis") j) [ none ↦ c.redis | some v ↦ json_redis v c.redis ];
  log = elim (section_of (codes "log") j) [ none ↦ c.log | some v ↦ json_log v c.log ];
}

-- `none` is a file that does not open. A text that is no JSON changes nothing.
unfoldable pub load_json : JsonLibrary → (JsonValue → ℕ) → Option Bytes → Config → Bool × Config
unfolding old_sections parse_new_json_config
load_json json to_uint64 none c = (false, c)
load_json json to_uint64 (some content) c = elim (json.parse content) [
  | none ↦ (false, c)
  | some j ↦ parse_new_json_config to_uint64 j (old_sections j c)
]
