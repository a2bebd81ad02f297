-- ===== src/Config/Load.antt =====
-- gateway/src/Config.cpp: load and validateConfig.
use distributed_im.Common.{
  Bool, true, false, not, ◌||◌, ◌&&◌, [], ◌∷◌, Option, Bytes, is_empty, ℕ, ◌==◌, if◌then◌else◌,
}
use distributed_im.Common.Decimal.{pos}
use distributed_im.Common.Text.{codes}
use distributed_im.Json.{JsonValue, JsonLibrary}
use distributed_im.Config.{ServerConfig, RedisConfig, LogConfig, Config}
use distributed_im.Config.Values.{equals, lower, between, is_valid_log_level, is_valid_host}
use distributed_im.Config.Document.{is_positive, load_json}
use distributed_im.Config.Ini.{load_ini}

unfoldable pub validate_server : ServerConfig → ServerConfig
unfolding between is_positive
validate_server c = record c {
  port = if between 1 65_535 c.port then c.port else pos 8888;
  max_connections = if is_positive c.max_connections then c.max_connections else pos 1024;
}

unfoldable pub validate_redis : RedisConfig → RedisConfig
unfolding between is_valid_host
validate_redis c = record c {
  host = if is_empty c.host || not (is_valid_host c.host) then codes "127.0.0.1" else c.host;
  port = if between 1 65_535 c.port then c.port else pos 6379;
}

unfoldable pub validate_log : LogConfig → LogConfig
unfolding is_valid_log_level
validate_log c = record c {
  level = if is_valid_log_level c.level then c.level else codes "info";
  file = if is_empty c.file then codes "gateway.log" else c.file;
  console_output = if not c.console_output && not c.file_output then true else c.console_output;
}

unfoldable pub validate_config : Config → Config
unfolding validate_server validate_redis validate_log
validate_config c = record c {
  server = validate_server c.server;
  redis = validate_redis c.redis;
  log = validate_log c.log;
}

-- What follows the last dot; empty without one.
unfoldable pub extension : Bytes → Bytes
extension s = last_part [] s
  where
    last_part : Bytes → Bytes → Bytes
    last_part ext [] = ext
    last_part ext (c ∷ cs) = elim (c == b'.') [ true ↦ last_part cs cs | false ↦ last_part ext cs ]

-- `content` is that of the file, and `none` where it does not open. The validation is left out when the loading fails.
unfoldable pub load : JsonLibrary → (JsonValue → ℕ) → Bytes → Option Bytes → Config → Bool × Config
unfolding extension lower load_ini load_json validate_config
load json to_uint64 config_file content c =
    let (loaded, c1) =
      if equals (lower (extension config_file)) (codes "ini")
      then load_ini content c
      else load_json json to_uint64 content c in
    if loaded then (true, validate_config c1) else (false, c1)
