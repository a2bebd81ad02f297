-- ===== src/Tests/Registry.antt =====
-- Two gateways of one region, with loads that are whole numbers.
use mathlib.Core.List.{Mem}
use distributed_im.Common.{
  ℕ, ◌≡◌, refl, Bool, true, false, List, [], ◌∷◌, Option, none, some, Bytes, All, ltb, arith,
  length, ◌==◌, if◌then◌else◌,
}
use distributed_im.Common.Assoc.{bytes_discrete, ℕ_discrete}
use distributed_im.Common.Decimal.{ℤ, pos}
use distributed_im.Common.Text.{codes}
use distributed_im.Json.{
  JsonLibrary, JsonValue, integer, number, text, object, field, end, member, find_field, boolean,
}
use distributed_im.Redis.{string, array, RedisServer, array_strings, strings}
use distributed_im.Redis.Store.{set_members, get_hash_field, reply_string}
use distributed_im.Registry.{
  Numbers, GatewayNode, Registry, new_registry, redis_key, node_of_object, node_of, value_or,
  to_text,
}
use distributed_im.Registry.Discovery.{
  by_region, discover_gateways, discover_each, keep_fresh, is_stale, from_json, select_best_gateway,
}
use distributed_im.Registry.Choice.{IsFresh, NotBelow, select_best_gateway_lem}
use distributed_im.Tests.Server.{open_redis}

whole_int : JsonValue → Option ℤ
whole_int (integer n) = some n
whole_int _ = none

whole_bool : JsonValue → Option Bool
whole_bool (boolean b) = some b
whole_bool _ = none

whole_load : JsonValue → Option ℕ
whole_load (integer (pos n)) = some n
whole_load _ = none

ltb_irrefl : (a : ℕ) → ltb a a ≡ false
ltb_irrefl a = ground arith

ltb_trans : (a b c : ℕ) → ltb a b ≡ true → ltb b c ≡ true → ltb a c ≡ true
ltb_trans a b c h k = ground arith

abbrev whole_numbers : Numbers
whole_numbers = record {
  Double = ℕ;
  zero_load = 0;
  full_load = 100;
  less = ltb;
  divide = λ a b. 0;
  to_int = whole_int;
  to_long = whole_int;
  to_bool = whole_bool;
  to_double = whole_load;
  from_double = number;
  less-irrefl = ltb_irrefl;
  less-trans = ltb_trans;
}

-- The hash of a gateway holds its key, and the second gateway has the smaller load.
abbrev two_json : JsonLibrary
two_json = record {
  parse = λ s. some (
      object (
        field (codes "gateway_id") (text s) (
          field (codes "region") (text (codes "east")) (
            field (codes "load") (number (if length s == 9 then 5 else 3))
              (field (codes "last_heartbeat") (number 90) end)))));
  dump = λ members. codes "{}";
}

abbrev two_redis : RedisServer
two_redis = record open_redis {
  smembers = λ key s. (array (some (codes "a") ∷ some (codes "bb") ∷ []), s);
  hget = λ key field s. (string key, s);
}

abbrev here : Registry whole_numbers
here = new_registry whole_numbers (codes "a") (codes "east")

abbrev node_at : Bytes → ℕ → GatewayNode whole_numbers
node_at key load = record {
  gateway_id = key;
  host = [];
  port = pos 0;
  region = codes "east";
  connections = pos 0;
  load = load;
  healthy = true;
  last_heartbeat = pos 90;
  started_at = pos 0;
}

abbrev both : List (GatewayNode whole_numbers)
both = node_at (codes "gateway:a") 5 ∷ node_at (codes "gateway:bb") 3 ∷ []

discovers : (discover_gateways whole_numbers two_json two_redis 100 tt).0 ≡ some both
unfolding discover_gateways discover_each keep_fresh is_stale from_json node_of_object node_of
    value_or to_text member find_field set_members get_hash_field reply_string array_strings strings
    redis_key bytes_discrete ℕ_discrete whole_int whole_bool whole_load
discovers = refl

regional :
    by_region whole_numbers here.own_region both
    ≡ node_at (codes "gateway:a") 5 ∷ node_at (codes "gateway:bb") 3 ∷ []
unfolding bytes_discrete ℕ_discrete new_registry
regional = refl

select_best_gateway_lem_example :
    let (chosen, s') = select_best_gateway whole_numbers two_json two_redis 100 here tt in
    (best : GatewayNode whole_numbers) × (chosen ≡ some best)
    × Mem best (node_at (codes "gateway:a") 5 ∷ node_at (codes "gateway:bb") 3 ∷ [])
    × (best.region ≡ here.own_region)
    × IsFresh whole_numbers 100 best
    × All
        (NotBelow whole_numbers best)
        (node_at (codes "gateway:a") 5 ∷ node_at (codes "gateway:bb") 3 ∷ [])
select_best_gateway_lem_example =
    select_best_gateway_lem whole_numbers two_json two_redis 100 here tt both
      (node_at (codes "gateway:bb") 3 ∷ []) (node_at (codes "gateway:a") 5) discovers regional
