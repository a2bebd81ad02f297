-- ===== src/Registry.antt =====
-- gateway/include/GatewayRegistry.h and gateway/src/GatewayRegistry.cpp: gateways that register in Redis, send heartbeats and
-- find each other. The arithmetic of `double` and nlohmann's conversions are parameters. The thread that sends the
-- heartbeats is left out. Of Redis, the state is passed on.
pub mod Discovery
pub mod Choice
use distributed_im.Common.{
  ℕ, ◌+◌, ◌-◌, ◌≡◌, Bool, true, false, List, [], ◌∷◌, ◌++◌, Option, none, some, Bytes, is_empty,
  ite, ltb, if◌then◌else◌,
}
use distributed_im.Common.Assoc.{bytes_discrete}
use distributed_im.Common.Decimal.{ℤ, pos, negsuc, to_decimal}
use distributed_im.Common.Text.{codes}
use distributed_im.Json.{
  JsonValue, null, boolean, integer, seconds, real, text, texts, array, object, number, JsonLibrary,
  member,
}
use distributed_im.Redis.{RedisServer}
use distributed_im.Redis.Users.{get_user_gateway}
use distributed_im.Redis.Store.{
  set_hash_field, get_hash_field, set_add, set_remove, set_members, set_size, delete_key,
}

-- The comparison of IEEE 754 is irreflexive and transitive, also with NaN. A conversion is `none` where nlohmann throws.
pub record Numbers : Type 1 where
  pub Double : Type 0
  pub zero_load : Double
  pub full_load : Double
  pub less : Double → Double → Bool
  pub divide : ℤ → ℤ → Double
  pub to_int : JsonValue → Option ℤ
  pub to_long : JsonValue → Option ℤ
  pub to_bool : JsonValue → Option Bool
  pub to_double : JsonValue → Option Double
  pub from_double : Double → JsonValue
  pub less-irrefl : (a : Double) → less a a ≡ false
  pub less-trans : (a b c : Double) → less a b ≡ true → less b c ≡ true → less a c ≡ true

abbrev pub active_gateways : Bytes
active_gateways = codes "active_gateways"

unfoldable pub redis_key : Bytes → Bytes
redis_key gateway_id = codes "gateway:" ++ gateway_id

infixl 5 ◌>>=◌
abbrev ◌>>=◌ : {A B : Type 0} → Option A → (A → Option B) → Option B
none >>= f = none
some a >>= f = f a

module _ (numbers : Numbers) where
  open numbers use {
    Double, zero_load, full_load, less, divide, to_int, to_long, to_bool, to_double, from_double,
  }

  pub record GatewayNode : Type 0 where
    pub gateway_id : Bytes
    pub host : Bytes
    pub port : ℤ
    pub region : Bytes
    pub connections : ℤ
    pub load : Double
    pub healthy : Bool
    pub last_heartbeat : ℤ
    pub started_at : ℤ

  -- `GatewayNode{}`.
  abbrev pub empty_node : GatewayNode
  empty_node = record {
    gateway_id = [];
    host = [];
    port = pos 0;
    region = [];
    connections = pos 0;
    load = zero_load;
    healthy = false;
    last_heartbeat = pos 0;
    started_at = pos 0;
  }

  -- The members of GatewayRegistry.
  pub record Registry : Type 0 where
    pub own_id : Bytes
    pub own_region : Bytes
    pub own_host : Bytes
    pub own_port : ℤ
    pub own_connections : ℤ
    pub own_load : Double

  unfoldable pub new_registry : Bytes → Bytes → Registry
  new_registry gateway_id region = record {
    own_id = gateway_id;
    own_region = region;
    own_host = [];
    own_port = pos 0;
    own_connections = pos 0;
    own_load = zero_load;
  }

  unfoldable pub update_load : ℤ → Double → Registry → Registry
  update_load connections load r = record r { own_connections = connections; own_load = load }

  unfoldable pub is_positive : ℤ → Bool
  is_positive (pos n) = ltb 0 n
  is_positive (negsuc n) = false

  -- `std::min(ratio, 1.0)`.
  unfoldable pub calculate_load : ℤ → ℤ → Double
  unfolding is_positive
  calculate_load connections max_connections =
      let ratio = divide connections max_connections in
      if is_positive max_connections
      then (if less full_load ratio then full_load else ratio)
      else zero_load

  -- `j.value(key, other)`.
  unfoldable pub value_or : {A : Type 0} → (JsonValue → Option A) → A → Option JsonValue → Option A
  value_or convert other none = some other
  value_or convert other (some v) = convert v

  unfoldable pub to_text : JsonValue → Option Bytes
  to_text (text s) = some s
  to_text _ = none

  -- The node of an object; `none` where a member has another type.
  unfoldable pub node_of : JsonValue → Option GatewayNode
  unfolding value_or to_text member
  node_of j = do
    gateway_id ← value_or to_text [] (member (codes "gateway_id") j)
    host ← value_or to_text [] (member (codes "host") j)
    port ← value_or to_int (pos 0) (member (codes "port") j)
    region ← value_or to_text (codes "default") (member (codes "region") j)
    connections ← value_or to_int (pos 0) (member (codes "connections") j)
    load ← value_or to_double zero_load (member (codes "load") j)
    healthy ← value_or to_bool true (member (codes "healthy") j)
    last_heartbeat ← value_or to_long (pos 0) (member (codes "last_heartbeat") j)
    started_at ← value_or to_long (pos 0) (member (codes "started_at") j)
    some (record {
      gateway_id = gateway_id;
      host = host;
      port = port;
      region = region;
      connections = connections;
      load = load;
      healthy = healthy;
      last_heartbeat = last_heartbeat;
      started_at = started_at;
    })

  unfoldable pub node_of_object : Option JsonValue → Option GatewayNode
  unfolding node_of
  node_of_object (some (object fs)) = node_of (object fs)
  node_of_object (some _) = none
  node_of_object none = none
