-- ===== src/Config/Kept.antt =====
-- The loading of a document keeps the values in range.
use distributed_im.Common.{
  ℕ, ◌≡◌, refl, inl, inr, Bool, true, false, [], ◌∷◌, Option, none, some, Bytes, is_empty,
  Option-cases, Bool-cases,
}
use distributed_im.Common.Decimal.{ℤ}
use distributed_im.Common.Text.{codes}
use distributed_im.Json.{
  JsonValue, null, boolean, integer, seconds, real, text, texts, array, object, JsonLibrary, member,
}
use distributed_im.Config.{ServerConfig, RedisConfig, LogConfig, Config}
use distributed_im.Config.Values.{lower, between, is_valid_log_level, is_valid_host}
use distributed_im.Config.Document.{
  to_int, is_positive, section_of, set_int, set_text, set_level, json_server, json_redis, json_log,
  Assigned, with_section, parse_new_json_config, old_sections, load_json, not_empty, update_e2ee,
  update_ai, update_region, update_rate_limit, update_websocket,
}
use distributed_im.Config.Sane.{SaneServer, SaneRedis, SaneLog, IsSane}

set_int-kept :
    (ok : ℤ → Bool) (v : Option JsonValue) (old : ℤ) → ok old ≡ true → ok (set_int ok v old) ≡ true
unfolding set_int
set_int-kept ok none old h = h
set_int-kept ok (some (integer n)) old h = elim (Bool-cases (ok (to_int n))) [
  | inl e ↦ rw (e) e
  | inr e ↦ rw (e) h
]
set_int-kept ok (some null) old h = h
set_int-kept ok (some (boolean b)) old h = h
set_int-kept ok (some (seconds n)) old h = h
set_int-kept ok (some (real s)) old h = h
set_int-kept ok (some (text s)) old h = h
set_int-kept ok (some (texts s)) old h = h
set_int-kept ok (some (array s)) old h = h
set_int-kept ok (some (object s)) old h = h

set_text-kept :
    (ok : Bytes → Bool) (v : Option JsonValue) (old : Bytes)
    → ok old ≡ true
    → ok (set_text ok v old) ≡ true
unfolding set_text
set_text-kept ok none old h = h
set_text-kept ok (some (text s)) old h = elim (Bool-cases (ok s)) [
  | inl e ↦ rw (e) e
  | inr e ↦ rw (e) h
]
set_text-kept ok (some (integer n)) old h = h
set_text-kept ok (some null) old h = h
set_text-kept ok (some (boolean b)) old h = h
set_text-kept ok (some (seconds n)) old h = h
set_text-kept ok (some (real s)) old h = h
set_text-kept ok (some (texts s)) old h = h
set_text-kept ok (some (array s)) old h = h
set_text-kept ok (some (object s)) old h = h

set_level-kept :
    (v : Option JsonValue) (old : Bytes)
    → is_valid_log_level old ≡ true
    → is_valid_log_level (set_level v old) ≡ true
unfolding set_level
set_level-kept none old h = h
set_level-kept (some (text s)) old h = elim (Bool-cases (is_valid_log_level (lower s))) [
  | inl e ↦ rw (e) e
  | inr e ↦ rw (e) h
]
set_level-kept (some (integer n)) old h = h
set_level-kept (some null) old h = h
set_level-kept (some (boolean b)) old h = h
set_level-kept (some (seconds n)) old h = h
set_level-kept (some (real s)) old h = h
set_level-kept (some (texts s)) old h = h
set_level-kept (some (array s)) old h = h
set_level-kept (some (object s)) old h = h

not_empty_iff : (s : Bytes) → not_empty s ≡ true → is_empty s ≡ false
not_empty_iff [] e = absurd (cc (e))
not_empty_iff (c ∷ s) e = refl

empty_not : (s : Bytes) → is_empty s ≡ false → not_empty s ≡ true
empty_not [] e = absurd (cc (e))
empty_not (c ∷ s) e = refl

json_server-Sane : (j : JsonValue) (c : ServerConfig) → SaneServer c → SaneServer (json_server j c)
unfolding json_server
json_server-Sane j c (p, m, t) = (
  set_int-kept (between 1 65_535) (member (codes "port") j) c.port p,
  set_int-kept is_positive (member (codes "max_connections") j) c.max_connections m,
  set_int-kept is_positive (member (codes "timeout_seconds") j) c.timeout_seconds t,
)

json_redis-Sane : (j : JsonValue) (c : RedisConfig) → SaneRedis c → SaneRedis (json_redis j c)
unfolding json_redis
json_redis-Sane j c (h, p, d) = (
  set_text-kept is_valid_host (member (codes "host") j) c.host h,
  set_int-kept (between 1 65_535) (member (codes "port") j) c.port p,
  set_int-kept (between 0 15) (member (codes "db") j) c.db d,
)

json_log-Sane : (j : JsonValue) (c : LogConfig) → SaneLog c → SaneLog (json_log j c)
unfolding json_log
json_log-Sane j c (l, f, s, n) = (
  set_level-kept (member (codes "level") j) c.level l,
  not_empty_iff _ (set_text-kept not_empty (member (codes "file") j) c.file (empty_not c.file f)),
  set_int-kept is_positive (member (codes "max_file_size") j) c.max_file_size s,
  set_int-kept is_positive (member (codes "max_files") j) c.max_files n,
)

section-kept {ℓ} :
    {C : Type 0} (Q : C → Type ℓ) (o : Option JsonValue) (f : JsonValue → C → C) (c : C)
    → Q c
    → ((v : JsonValue) → Q (f v c))
    → Q (elim o [ none ↦ c | some v ↦ f v c ])
section-kept Q none f c h k = h
section-kept Q (some v) f c h k = k v

old_sections-IsSane : (j : JsonValue) (c : Config) → IsSane c → IsSane (old_sections j c)
unfolding old_sections
old_sections-IsSane j c (s, r, l) = (
  section-kept SaneServer (section_of (codes "server") j) json_server c.server s
      (λ v. json_server-Sane v c.server s),
  section-kept SaneRedis (section_of (codes "redis") j) json_redis c.redis r
      (λ v. json_redis-Sane v c.redis r),
  section-kept SaneLog (section_of (codes "log") j) json_log c.log l (λ v. json_log-Sane v c.log l),
)

with_section-IsSane :
    (key : Bytes) (j : JsonValue) (f : JsonValue → Config → Assigned Config) (a : Assigned Config)
    → ((v : JsonValue) (c : Config) → IsSane c → IsSane (f v c).1)
    → IsSane a.1
    → IsSane (with_section key j f a).1
unfolding with_section
with_section-IsSane key j f (false, c) k h = h
with_section-IsSane key j f (true, c) k h = elim (Option-cases (section_of key j)) [
  | inl e ↦ rw (e, with_section) h
  | inr (v, e) ↦ rw (e, with_section) (k v c h)
]

parse_new_json_config-IsSane :
    (to_uint64 : JsonValue → ℕ) (j : JsonValue) (c : Config)
    → IsSane c
    → IsSane (parse_new_json_config to_uint64 j c).1
unfolding parse_new_json_config
parse_new_json_config-IsSane to_uint64 j c h =
    let a1 = with_section (codes "e2ee") j update_e2ee (true, c) in
    let a2 = with_section (codes "ai") j update_ai a1 in
    let a3 = with_section (codes "region") j update_region a2 in
    let a4 = with_section (codes "rate_limit") j update_rate_limit a3 in
    let h1 = with_section-IsSane (codes "e2ee") j update_e2ee (true, c) (λ v c h. h) h in
    let h2 = with_section-IsSane (codes "ai") j update_ai a1 (λ v c h. h) h1 in
    let h3 = with_section-IsSane (codes "region") j update_region a2 (λ v c h. h) h2 in
    let h4 = with_section-IsSane (codes "rate_limit") j update_rate_limit a3 (λ v c h. h) h3 in
    with_section-IsSane (codes "websocket") j (update_websocket to_uint64) a4 (λ v c h. h) h4

pub load_json-IsSane :
    (json : JsonLibrary) (to_uint64 : JsonValue → ℕ) (content : Option Bytes) (c : Config)
    → IsSane c
    → IsSane (load_json json to_uint64 content c).1
unfolding load_json
load_json-IsSane json to_uint64 none c h = h
load_json-IsSane json to_uint64 (some content) c h = elim (Option-cases (json.parse content)) [
  | inl e ↦ rw (e, load_json) h
  | inr (j, e) ↦
      rw (e, load_json)
        (parse_new_json_config-IsSane to_uint64 j (old_sections j c) (old_sections-IsSane j c h))
]
