-- ===== src/Config/Sane.antt =====
-- The values in range that every loading keeps.
use distributed_im.Common.{
  ℕ, ◌≡◌, inl, inr, true, false, List, [], ◌∷◌, ◌&&◌, Option, none, some, Bytes, take, drop,
  is_empty, ◌+◌, if_both, if◌then◌else◌, Option-cases, Bool-cases, arith,
}
use distributed_im.Common.Decimal.{ℤ, pos, negsuc, stoi}
use distributed_im.Common.Text.{codes, find_text, lines}
use distributed_im.Config.{ServerConfig, RedisConfig, LogConfig, Config}
use distributed_im.Config.Values.{
  equals, trim, lower, between, parse_int_safe, is_valid_log_level, is_valid_host, starts_at,
  ends_at,
}
use distributed_im.Config.Document.{is_positive}
use distributed_im.Config.Ini.{
  set_server, set_redis, set_log, set_key, key_line, without_comment, ini_line, ini_lines, load_ini,
}

abbrev pub SaneServer : ServerConfig → Type 0
SaneServer c =
    (between 1 65_535 c.port ≡ true)
    × (is_positive c.max_connections ≡ true)
    × (is_positive c.timeout_seconds ≡ true)

abbrev pub SaneRedis : RedisConfig → Type 0
SaneRedis c =
    (is_valid_host c.host ≡ true) × (between 1 65_535 c.port ≡ true) × (between 0 15 c.db ≡ true)

abbrev pub SaneLog : LogConfig → Type 0
SaneLog c =
    (is_valid_log_level c.level ≡ true)
    × (is_empty c.file ≡ false)
    × (is_positive c.max_file_size ≡ true)
    × (is_positive c.max_files ≡ true)

-- The ports, the limits, the host, the level and the file are such as the code accepts.
abbrev pub IsSane : Config → Type 0
IsSane c = SaneServer c.server × SaneRedis c.redis × SaneLog c.log

between-above : (hi : ℕ) (v : ℤ) → between 1 hi v ≡ true → is_positive v ≡ true
unfolding between is_positive
between-above hi (pos n) e = ground arith
between-above hi (negsuc n) e = absurd (cc (e))

-- The result of a number is in the range, if the default is.
parse_int_safe-between :
    (value : Bytes) (lo hi : ℕ) (d : ℤ)
    → between lo hi d ≡ true
    → between lo hi (parse_int_safe value lo hi d).1 ≡ true
unfolding parse_int_safe
parse_int_safe-between value lo hi d h = elim (Option-cases (stoi value)) [
  | inl e ↦ rw (e, parse_int_safe) h
  | inr (v, e) ↦ elim (Bool-cases (between lo hi v)) [
    | inl ok ↦ rw (e, parse_int_safe, ok) ok
    | inr bad ↦ rw (e, parse_int_safe, bad) h
  ]
]

parse_int_safe-above :
    (value : Bytes) (hi : ℕ) (d : ℤ)
    → is_positive d ≡ true
    → is_positive (parse_int_safe value 1 hi d).1 ≡ true
unfolding parse_int_safe
parse_int_safe-above value hi d h = elim (Option-cases (stoi value)) [
  | inl e ↦ rw (e, parse_int_safe) h
  | inr (v, e) ↦ elim (Bool-cases (between 1 hi v)) [
    | inl ok ↦ rw (e, parse_int_safe, ok) (between-above hi v ok)
    | inr bad ↦ rw (e, parse_int_safe, bad) h
  ]
]

set_server-Sane :
    (key value : Bytes) (c : ServerConfig) → SaneServer c → SaneServer (set_server key value c)
unfolding set_server
set_server-Sane key value c (p, m, t) =
    let Q = SaneServer in
    if_both Q (equals key (codes "port")) _ _ (parse_int_safe-between value 1 65_535 c.port p, m, t)
      (if_both Q (equals key (codes "max_connections")) _ _
        (p, parse_int_safe-above value 65_535 c.max_connections m, t)
        (if_both Q (equals key (codes "timeout_seconds")) _ _
          (p, m, parse_int_safe-above value 86_400 c.timeout_seconds t) (p, m, t)))

set_redis-Sane :
    (key value : Bytes) (c : RedisConfig) → SaneRedis c → SaneRedis (set_redis key value c)
unfolding set_redis
set_redis-Sane key value c (h, p, d) =
    let Q = SaneRedis in
    let by_host : Q (if is_valid_host value then record c { host = value } else c) =
      elim (Bool-cases (is_valid_host value)) [
        | inl ok ↦ rw (ok) (ok, p, d)
        | inr bad ↦ rw (bad) (h, p, d)
      ] in
    if_both Q (equals key (codes "host")) _ _ by_host (
      if_both Q (equals key (codes "port")) _ _
        (h, parse_int_safe-between value 1 65_535 c.port p, d)
        (if_both Q (equals key (codes "password")) _ _ (h, p, d)
          (if_both Q (equals key (codes "db")) _ _ (h, p, parse_int_safe-between value 0 15 c.db d)
            (h, p, d))))

set_log-Sane : (key value : Bytes) (c : LogConfig) → SaneLog c → SaneLog (set_log key value c)
unfolding set_log
set_log-Sane key value c (l, f, s, n) =
    let Q = SaneLog in
    let by_level : Q
        (if is_valid_log_level (lower value) then record c { level = lower value } else c) =
      elim (Bool-cases (is_valid_log_level (lower value))) [
        | inl ok ↦ rw (ok) (ok, f, s, n)
        | inr bad ↦ rw (bad) (l, f, s, n)
      ] in
    let by_file : Q (if is_empty value then c else record c { file = value }) =
      elim (Bool-cases (is_empty value)) [
        | inl bad ↦ rw (bad) (l, f, s, n)
        | inr ok ↦ rw (ok) (l, ok, s, n)
      ] in
    if_both Q (equals key (codes "level")) _ _ by_level (
      if_both Q (equals key (codes "file")) _ _ by_file (
        if_both Q (equals key (codes "console_output")) _ _ (l, f, s, n)
          (if_both Q (equals key (codes "file_output")) _ _ (l, f, s, n)
            (if_both Q (equals key (codes "max_file_size")) _ _
              (l, f, parse_int_safe-above value 1000 c.max_file_size s, n)
              (if_both Q (equals key (codes "max_files")) _ _
                (l, f, s, parse_int_safe-above value 100 c.max_files n)
                (if_both Q (equals key (codes "console_pattern")) _ _ (l, f, s, n)
                  (if_both Q (equals key (codes "file_pattern")) _ _ (l, f, s, n)
                    (l, f, s, n))))))))

set_key-IsSane :
    (section key value : Bytes) (c : Config) → IsSane c → IsSane (set_key section key value c)
unfolding set_key
set_key-IsSane section key value c (s, r, l) =
    let Q = IsSane in
    if_both Q (equals section (codes "server")) _ _ (set_server-Sane key value c.server s, r, l)
      (if_both Q (equals section (codes "redis")) _ _ (s, set_redis-Sane key value c.redis r, l)
        (if_both Q (equals section (codes "log")) _ _ (s, r, set_log-Sane key value c.log l)
          (if_both Q (equals section (codes "debug")) _ _ (s, r, l) (s, r, l))))

key_line-IsSane : (section line : Bytes) (c : Config) → IsSane c → IsSane (key_line section line c)
unfolding key_line
key_line-IsSane section line c h = elim (Option-cases (find_text (b'=' ∷ []) line)) [
  | inl e ↦ rw (e, key_line) h
  | inr (at, e) ↦
      rw (e, key_line)
        (if_both IsSane (is_empty (trim (take at line))) _ _ h
          (set_key-IsSane section (lower (trim (take at line))) (trim (drop (at + 1) line)) c h))
]

ini_line-IsSane :
    (raw section : Bytes) (c : Config) → IsSane c → IsSane (ini_line raw (section, c)).1
unfolding ini_line
ini_line-IsSane raw section c h =
    let Q : Bytes × Config → Type 0 = λ s. IsSane s.1 in
    let line = trim (without_comment raw) in
    if_both Q (is_empty line) _ _ h (
      if_both Q (starts_at b'[' line && ends_at b']' line) _ _ h (key_line-IsSane section line c h))

ini_lines-IsSane :
    (rest : List Bytes) (s : Bytes × Config) → IsSane s.1 → IsSane (ini_lines rest s).1
unfolding ini_lines
ini_lines-IsSane [] s h = h
ini_lines-IsSane (line ∷ rest) (section, c) h =
    ini_lines-IsSane rest (ini_line line (section, c)) (ini_line-IsSane line section c h)

pub load_ini-IsSane :
    (content : Option Bytes) (c : Config) → IsSane c → IsSane (load_ini content c).1
unfolding load_ini
load_ini-IsSane none c h = h
load_ini-IsSane (some content) c h = ini_lines-IsSane (lines content) ([], c) h
