-- ===== src/Config/Valid.antt =====
-- What a configuration that was loaded satisfies.
use distributed_im.Common.{
  ℕ, ◌≡◌, refl, inl, inr, Bool, true, false, not, ◌&&◌, ◌||◌, [], ◌∷◌, Option, Bytes, is_empty,
  if_both, if◌then◌else◌, Bool-cases,
}
use distributed_im.Common.Decimal.{pos}
use distributed_im.Common.Assoc.{bytes_discrete, ℕ_discrete}
use distributed_im.Common.Text.{codes}
use distributed_im.Json.{JsonValue, JsonLibrary}
use distributed_im.Config.{default_config, Config}
use distributed_im.Config.Values.{
  equals, lower, between, is_valid_log_level, is_valid_host, one_of, all_bytes, host_byte,
  starts_at, ends_at,
}
use distributed_im.Config.Document.{is_positive, load_json}
use distributed_im.Config.Ini.{load_ini}
use distributed_im.Config.Load.{
  validate_server, validate_redis, validate_log, validate_config, extension, load,
}
use distributed_im.Config.Sane.{IsSane, load_ini-IsSane}
use distributed_im.Config.Kept.{load_json-IsSane}

-- The value that a test accepts, or another that it accepts.
guarded : {A : Type 0} (ok : A → Bool) (v d : A) → ok d ≡ true → ok (if ok v then v else d) ≡ true
guarded ok v d h = elim (Bool-cases (ok v)) [ inl e ↦ rw (e) e | inr e ↦ rw (e) h ]

guarded_host :
    (host : Bytes)
    → is_valid_host (if is_empty host || not (is_valid_host host) then codes "127.0.0.1" else host)
      ≡ true
unfolding is_valid_host starts_at ends_at all_bytes host_byte bytes_discrete ℕ_discrete
guarded_host [] = refl
guarded_host (c ∷ cs) = elim (Bool-cases (is_valid_host (c ∷ cs))) [
  | inl e ↦ rw (e) e
  | inr e ↦ rw (e) refl
]

guarded_file :
    (file : Bytes) → is_empty (if is_empty file then codes "gateway.log" else file) ≡ false
guarded_file [] = refl
guarded_file (c ∷ cs) = refl

some_output :
    (console file : Bool) → ((if not console && not file then true else console) || file) ≡ true
some_output true true = refl
some_output true false = refl
some_output false true = refl
some_output false false = refl

-- The seven tests of validateConfig.
abbrev pub IsValid : Config → Type 0
IsValid c =
    (between 1 65_535 c.server.port ≡ true)
    × (is_positive c.server.max_connections ≡ true)
    × (is_valid_host c.redis.host ≡ true)
    × (between 1 65_535 c.redis.port ≡ true)
    × (is_valid_log_level c.log.level ≡ true)
    × (is_empty c.log.file ≡ false)
    × ((c.log.console_output || c.log.file_output) ≡ true)

validate_config-IsValid : (c : Config) → IsValid (validate_config c)
unfolding validate_config validate_server validate_redis validate_log between is_positive
    is_valid_log_level one_of bytes_discrete ℕ_discrete
validate_config-IsValid c = (
  guarded (between 1 65_535) c.server.port (pos 8888) refl,
  guarded is_positive c.server.max_connections (pos 1024) refl,
  guarded_host c.redis.host,
  guarded (between 1 65_535) c.redis.port (pos 6379) refl,
  guarded is_valid_log_level c.log.level (codes "info") refl,
  guarded_file c.log.file,
  some_output c.log.console_output c.log.file_output,
)

validate_config-IsSane : (c : Config) → IsSane c → IsSane (validate_config c)
unfolding validate_config validate_server validate_redis validate_log
validate_config-IsSane c ((p, m, t), (h, q, d), (l, f, s, n)) =
    let (p1, m1, h1, q1, l1, f1, _) = validate_config-IsValid c in
    ((p1, m1, t), (h1, q1, d), (l1, f1, s, n))

pub default_config-IsSane : IsSane default_config
unfolding between is_positive is_valid_host all_bytes host_byte starts_at ends_at is_valid_log_level
    one_of bytes_discrete ℕ_discrete
default_config-IsSane = ((refl, refl, refl), (refl, refl, refl), (refl, refl, refl, refl))

-- After a load that gives true, in either format and from any text, whatever was there before, the seven tests of
-- validateConfig hold: both ports are from 1 to 65535, the number of connections is positive, the host and the level of the
-- log are such as the code accepts, its file has a name, and it goes to the console or to the file.
pub load-IsValid :
    (json : JsonLibrary) (to_uint64 : JsonValue → ℕ) (config_file : Bytes) (content : Option Bytes)
    (c : Config)
    → (load json to_uint64 config_file content c).0 ≡ true
    → IsValid (load json to_uint64 config_file content c).1
unfolding load
load-IsValid json to_uint64 config_file content c e =
    let (loaded, c1) =
      if equals (lower (extension config_file)) (codes "ini")
      then load_ini content c
      else load_json json to_uint64 content c in
    let Q : Bool × Config → Type 0 = λ a. a.0 ≡ true → IsValid a.1 in
    if_both Q loaded _ _ (λ x. validate_config-IsValid c1) (λ x. absurd (cc (x))) e

-- If the values of the server, of Redis and of the log were in range, so they are after a load, in either format, from any
-- text, and also when it gives false half way: both ports, the limit of the connections, the timeout, the host, the number
-- of the database, and the level, the file and the sizes of the log.
pub load-IsSane :
    (json : JsonLibrary) (to_uint64 : JsonValue → ℕ) (config_file : Bytes) (content : Option Bytes)
    (c : Config)
    → IsSane c
    → IsSane (load json to_uint64 config_file content c).1
unfolding load
load-IsSane json to_uint64 config_file content c h =
    let Q : Bool × Config → Type 0 = λ a. IsSane a.1 in
    let ini = equals (lower (extension config_file)) (codes "ini") in
    let (loaded, c1) = if ini then load_ini content c else load_json json to_uint64 content c in
    let kept =
      if_both Q ini _ _ (load_ini-IsSane content c h)
        (load_json-IsSane json to_uint64 content c h) in
    if_both Q loaded _ _ (validate_config-IsSane c1 kept) kept
