-- ===== src/Config/Ini.antt =====
-- gateway/src/Config.cpp: loadIni, over the text of the file. What is only printed is left out.
use distributed_im.Common.{
  ◌+◌, ◌-◌, Bool, true, false, ◌&&◌, List, [], ◌∷◌, Option, none, some, Bytes, length, take, drop,
  is_empty, if◌then◌else◌,
}
use distributed_im.Common.Text.{codes, find_text, lines}
use distributed_im.Config.{ServerConfig, RedisConfig, LogConfig, DebugConfig, Config}
use distributed_im.Config.Values.{
  equals, trim, lower, parse_bool, parse_int_safe, is_valid_log_level, is_valid_host, starts_at,
  ends_at,
}

unfoldable pub set_server : Bytes → Bytes → ServerConfig → ServerConfig
unfolding parse_int_safe
set_server key value c =
    if equals key (codes "port")
    then record c { port = (parse_int_safe value 1 65_535 c.port).1 }
    else if equals key (codes "max_connections")
    then record c { max_connections = (parse_int_safe value 1 65_535 c.max_connections).1 }
    else if equals key (codes "timeout_seconds")
    then record c { timeout_seconds = (parse_int_safe value 1 86_400 c.timeout_seconds).1 }
    else c

unfoldable pub set_redis : Bytes → Bytes → RedisConfig → RedisConfig
unfolding parse_int_safe is_valid_host
set_redis key value c =
    if equals key (codes "host")
    then (if is_valid_host value then record c { host = value } else c)
    else if equals key (codes "port")
    then record c { port = (parse_int_safe value 1 65_535 c.port).1 }
    else if equals key (codes "password")
    then record c { password = value }
    else if equals key (codes "db")
    then record c { db = (parse_int_safe value 0 15 c.db).1 }
    else c

unfoldable pub set_log : Bytes → Bytes → LogConfig → LogConfig
unfolding parse_int_safe parse_bool is_valid_log_level lower
set_log key value c =
    if equals key (codes "level")
    then (if is_valid_log_level (lower value) then record c { level = lower value } else c)
    else if equals key (codes "file")
    then (if is_empty value then c else record c { file = value })
    else if equals key (codes "console_output")
    then record c { console_output = parse_bool value }
    else if equals key (codes "file_output")
    then record c { file_output = parse_bool value }
    else if equals key (codes "max_file_size")
    then record c { max_file_size = (parse_int_safe value 1 1000 c.max_file_size).1 }
    else if equals key (codes "max_files")
    then record c { max_files = (parse_int_safe value 1 100 c.max_files).1 }
    else if equals key (codes "console_pattern")
    then record c { console_pattern = value }
    else if equals key (codes "file_pattern")
    then record c { file_pattern = value }
    else c

unfoldable pub set_debug : Bytes → Bytes → DebugConfig → DebugConfig
unfolding parse_bool
set_debug key value c =
    if equals key (codes "enabled")
    then record c { enabled = parse_bool value }
    else if equals key (codes "show_source")
    then record c { show_source = parse_bool value }
    else c

-- A key of a section, in lower case. An unknown section or key changes nothing.
unfoldable pub set_key : Bytes → Bytes → Bytes → Config → Config
unfolding set_server set_redis set_log set_debug
set_key section key value c =
    if equals section (codes "server")
    then record c { server = set_server key value c.server }
    else if equals section (codes "redis")
    then record c { redis = set_redis key value c.redis }
    else if equals section (codes "log")
    then record c { log = set_log key value c.log }
    else if equals section (codes "debug")
    then record c { debug = set_debug key value c.debug }
    else c

unfoldable pub without_comment : Bytes → Bytes
unfolding find_text
without_comment line = elim (find_text (b';' ∷ []) line) [ none ↦ line | some pos ↦ take pos line ]

-- `key = value`, split at the first sign; a line without one is ignored, and so is an empty key.
unfoldable pub key_line : Bytes → Bytes → Config → Config
unfolding find_text trim lower set_key
key_line section line c = elim (find_text (b'=' ∷ []) line) [
  | none ↦ c
  | some pos ↦
      let key = trim (take pos line) in
      if is_empty key then c else set_key section (lower key) (trim (drop (pos + 1) line)) c
]

-- One line; the current section comes first.
unfoldable pub ini_line : Bytes → Bytes × Config → Bytes × Config
unfolding trim without_comment starts_at ends_at lower key_line
ini_line raw (section, c) =
    let line = trim (without_comment raw) in
    if is_empty line
    then (section, c)
    else if starts_at b'[' line && ends_at b']' line
    then (lower (take (length line - 2) (drop 1 line)), c)
    else (section, key_line section line c)

unfoldable pub ini_lines : List Bytes → Bytes × Config → Bytes × Config
unfolding ini_line
ini_lines [] s = s
ini_lines (line ∷ rest) s = ini_lines rest (ini_line line s)

-- `none` is a file that does not open.
unfoldable pub load_ini : Option Bytes → Config → Bool × Config
unfolding lines ini_lines
load_ini none c = (false, c)
load_ini (some content) c = (true, (ini_lines (lines content) ([], c)).1)
