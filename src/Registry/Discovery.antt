-- ===== src/Registry/Discovery.antt =====
-- gateway/src/GatewayRegistry.cpp: registration, heartbeats, discovery and the choice of a gateway, over Redis.
use distributed_im.Common.{
  ℕ, suc, ◌+◌, ◌-◌, Bool, true, false, List, [], ◌∷◌, ◌++◌, Option, none, some, Bytes, is_empty,
  ite, ltb, if◌then◌else◌,
}
use distributed_im.Common.Assoc.{bytes_discrete}
use distributed_im.Common.Decimal.{ℤ, pos, negsuc, to_decimal}
use distributed_im.Common.Text.{codes}
use distributed_im.Json.{boolean, integer, text, Members, JsonLibrary}
use distributed_im.Redis.{RedisServer}
use distributed_im.Redis.Users.{get_user_gateway}
use distributed_im.Redis.Store.{
  set_hash_field, get_hash_field, set_add, set_remove, set_members, set_size, delete_key,
}
use distributed_im.Registry.{
  Numbers, GatewayNode, empty_node, Registry, redis_key, active_gateways, node_of_object,
}

-- `now - last_heartbeat > 30`.
unfoldable pub is_stale : ℕ → ℤ → Bool
is_stale now (pos n) = ltb 30 (now - n)
is_stale now (negsuc n) = ltb 30 (now + suc n)

module _ (numbers : Numbers) where
  open numbers use {Double, zero_load, less, from_double}

  abbrev pub node_members : GatewayNode numbers → Members
  node_members node =
      (codes "gateway_id", text node.gateway_id)
      ∷ (codes "host", text node.host)
      ∷ (codes "port", integer node.port)
      ∷ (codes "region", text node.region)
      ∷ (codes "connections", integer node.connections)
      ∷ (codes "load", from_double node.load)
      ∷ (codes "healthy", boolean node.healthy)
      ∷ (codes "last_heartbeat", integer node.last_heartbeat)
      ∷ (codes "started_at", integer node.started_at)
      ∷ []

  -- The node that a registration writes.
  abbrev pub first_node : ℕ → ℕ → Registry numbers → GatewayNode numbers
  first_node now started r = record {
    gateway_id = r.own_id;
    host = r.own_host;
    port = r.own_port;
    region = r.own_region;
    connections = pos 0;
    load = zero_load;
    healthy = true;
    last_heartbeat = pos now;
    started_at = pos started;
  }

  -- The node that a heartbeat writes; the starting time is that of the heartbeat.
  abbrev pub heartbeat_node : ℕ → ℕ → Registry numbers → GatewayNode numbers
  heartbeat_node now started r = record (first_node now started r) {
    connections = r.own_connections;
    load = r.own_load;
  }

  abbrev pub by_region : Bytes → List (GatewayNode numbers) → List (GatewayNode numbers)
  by_region region [] = []
  by_region region (node ∷ nodes) =
      let rest = by_region region nodes in
      ite (bytes_discrete node.region region) (node ∷ rest) rest

  -- `std::min_element`: the first of the smallest loads.
  unfoldable pub min_element :
      GatewayNode numbers → List (GatewayNode numbers) → GatewayNode numbers
  min_element best [] = best
  min_element best (node ∷ nodes) =
      min_element (if less node.load best.load then node else best) nodes

  unfoldable pub least_loaded : List (GatewayNode numbers) → GatewayNode numbers
  unfolding min_element
  least_loaded [] = empty_node numbers
  least_loaded (node ∷ nodes) = min_element node nodes

  module _ (json : JsonLibrary) (redis : RedisServer) where
    open redis use {State}

    unfoldable pub to_json : GatewayNode numbers → Bytes
    to_json node = json.dump (node_members node)

    -- `none` where nlohmann throws: on a text that is no JSON object, or a member of another type.
    unfoldable pub from_json : Bytes → Option (GatewayNode numbers)
    unfolding node_of_object
    from_json s = node_of_object numbers (json.parse s)

    -- `now` and `started` are the two calls of `time`.
    unfoldable pub register_gateway :
        Bytes → ℤ → ℕ → ℕ → Registry numbers → State → Bool × (Registry numbers × State)
    unfolding to_json
    register_gateway host port now started r0 s =
        let r = record r0 { own_host = host; own_port = port } in
        let key = redis_key r.own_id in
        let value = to_json (first_node now started r) in
        let (stored, s1) = set_hash_field redis key (codes "data") value s in
        let (added, s2) = set_add redis active_gateways r.own_id s1 in
        let s3 = (delete_key redis key s2).1 in
        if stored then (if added then (true, (r, s2)) else (false, (r, s3))) else (false, (r, s1))

    unfoldable pub unregister_gateway : Registry numbers → State → State
    unregister_gateway r s =
        let s1 = (set_remove redis active_gateways r.own_id s).1 in
        (delete_key redis (redis_key r.own_id) s1).1

    unfoldable pub send_heartbeat : ℕ → ℕ → Registry numbers → State → Bool × State
    unfolding to_json
    send_heartbeat now started r s =
        set_hash_field redis (redis_key r.own_id) (codes "data")
          (to_json (heartbeat_node now started r)) s

    -- A node that is read: kept, or taken out of the set when its heartbeat is too old. An exception ends the loop.
    unfoldable pub keep_fresh :
        ℕ
        → Bytes
        → Option (GatewayNode numbers)
        → (State → Option (List (GatewayNode numbers)) × State)
        → State
        → Option (List (GatewayNode numbers)) × State
    unfolding is_stale
    keep_fresh now gw_id none later s = (none, s)
    keep_fresh now gw_id (some node) later s = elim (is_stale now node.last_heartbeat) [
      | true ↦ later (set_remove redis active_gateways gw_id s).1
      | false ↦
          let (rest, s1) = later s in
          (
            elim rest [ none ↦ none | some nodes ↦ some (record node { healthy = true } ∷ nodes) ],
            s1,
          )
    ]

    unfoldable pub discover_each :
        ℕ → List Bytes → State → Option (List (GatewayNode numbers)) × State
    unfolding keep_fresh from_json
    discover_each now [] s = (some [], s)
    discover_each now (gw_id ∷ ids) s =
        let (data_text, s1) = get_hash_field redis (redis_key gw_id) (codes "data") s in
        elim (is_empty data_text) [
          | true ↦ discover_each now ids s1
          | false ↦ keep_fresh now gw_id (from_json data_text) (discover_each now ids) s1
        ]

    -- The nodes with a heartbeat in the last 30 seconds; `none` where an exception leaves the function.
    unfoldable pub discover_gateways : ℕ → State → Option (List (GatewayNode numbers)) × State
    unfolding discover_each
    discover_gateways now s =
        let (members, s1) = set_members redis active_gateways s in discover_each now members s1

    unfoldable pub discover_gateways_by_region :
        ℕ → Bytes → State → Option (List (GatewayNode numbers)) × State
    unfolding discover_gateways
    discover_gateways_by_region now region s =
        let (all, s1) = discover_gateways now s in
        (elim all [ none ↦ none | some nodes ↦ some (by_region region nodes) ], s1)

    -- Without a gateway in the region, those of all regions, which are read again.
    unfoldable pub fall_back : ℕ → State → Option (GatewayNode numbers) × State
    unfolding discover_gateways least_loaded
    fall_back now s =
        let (all, s1) = discover_gateways now s in
        (elim all [ none ↦ none | some nodes ↦ some (least_loaded nodes) ], s1)

    unfoldable pub select_best_gateway :
        ℕ → Registry numbers → State → Option (GatewayNode numbers) × State
    unfolding discover_gateways_by_region fall_back least_loaded
    select_best_gateway now r s =
        let (regional, s1) = discover_gateways_by_region now r.own_region s in
        elim regional [
          | none ↦ (none, s1)
          | some [] ↦ fall_back now s1
          | some (node ∷ nodes) ↦ (some (least_loaded (node ∷ nodes)), s1)
        ]

    unfoldable pub gateway_count : State → ℕ × State
    gateway_count s = set_size redis active_gateways s

    unfoldable pub gateway_number : ℤ → Option Bytes
    gateway_number (pos n) = some (codes "gw_" ++ to_decimal n)
    gateway_number (negsuc n) = none

    -- `none` where an exception leaves the function.
    unfoldable pub is_same_region : Bytes → Registry numbers → State → Option Bool × State
    unfolding get_user_gateway gateway_number from_json
    is_same_region username r s =
        let (user_gateway, s1) = get_user_gateway redis username s in
        elim (gateway_number user_gateway) [
          | none ↦ (some false, s1)
          | some gw_id ↦
              let (data_text, s2) = get_hash_field redis (redis_key gw_id) (codes "data") s1 in
              elim (is_empty data_text) [
                | true ↦ (some false, s2)
                | false ↦ elim (from_json data_text) [
                  | none ↦ (none, s2)
                  | some node ↦
                      (some (ite (bytes_discrete node.region r.own_region) true false), s2)
                ]
              ]
        ]
