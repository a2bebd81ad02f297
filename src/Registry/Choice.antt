-- ===== src/Registry/Choice.antt =====
-- Which gateways are found, and which of them is chosen.
use mathlib.Core.Path.{subst}
use mathlib.Core.List.{Mem, mem-cons_self, mem-cons_of_mem}
use distributed_im.Common.{
  ℕ, ◌≡◌, ◌∙◌, refl, ap, inl, inr, true, false, List, [], ◌∷◌, Option, none, some, Bytes, All,
  is_empty, if_both, ite_split, Bool-cases, Option-cases, if◌then◌else◌,
}
use distributed_im.Common.Assoc.{bytes_discrete}
use distributed_im.Common.Text.{codes}
use distributed_im.Json.{JsonLibrary}
use distributed_im.Redis.{RedisServer}
use distributed_im.Redis.Store.{set_remove, get_hash_field, set_members}
use distributed_im.Registry.{Numbers, GatewayNode, Registry, redis_key, active_gateways}
use distributed_im.Registry.Discovery.{
  is_stale, by_region, min_element, least_loaded, from_json, keep_fresh, discover_each,
  discover_gateways, discover_gateways_by_region, select_best_gateway,
}

module _ (numbers : Numbers) where
  open numbers use {less, less-irrefl, less-trans}

  -- A heartbeat in the last 30 seconds.
  abbrev pub IsFresh : ℕ → GatewayNode numbers → Type 0
  IsFresh now node = (is_stale now node.last_heartbeat ≡ false) × (node.healthy ≡ true)

  abbrev AllFresh : ℕ → Option (List (GatewayNode numbers)) → Type 0
  AllFresh now none = Unit {0}
  AllFresh now (some nodes) = All (IsFresh now) nodes

  abbrev pub NotBelow : GatewayNode numbers → GatewayNode numbers → Type 0
  NotBelow best node = less node.load best.load ≡ false

  pick : GatewayNode numbers → GatewayNode numbers → GatewayNode numbers
  pick best node = if less node.load best.load then node else best

  pick-NotBelow :
      (y best node : GatewayNode numbers) → NotBelow best y → NotBelow (pick best node) y
  unfolding pick
  pick-NotBelow y best node h = elim (Bool-cases (less node.load best.load)) [
    | inl e ↦ elim (Bool-cases (less y.load node.load)) [
      | inl bad ↦ absurd (cc (h, less-trans y.load node.load best.load bad e))
      | inr ok ↦ rw (e) ok
    ]
    | inr e ↦ rw (e) h
  ]

  pick-NotBelow_self : (best node : GatewayNode numbers) → NotBelow (pick best node) node
  unfolding pick
  pick-NotBelow_self best node = elim (Bool-cases (less node.load best.load)) [
    | inl e ↦ rw (e) (less-irrefl node.load)
    | inr e ↦ rw (e) e
  ]

  min_element-NotBelow :
      (y best : GatewayNode numbers) (nodes : List (GatewayNode numbers))
      → NotBelow best y
      → NotBelow (min_element numbers best nodes) y
  unfolding min_element pick
  min_element-NotBelow y best [] h = h
  min_element-NotBelow y best (node ∷ nodes) h =
      min_element-NotBelow y (pick best node) nodes (pick-NotBelow y best node h)

  min_element-least :
      (best : GatewayNode numbers) (nodes : List (GatewayNode numbers))
      → All (NotBelow (min_element numbers best nodes)) nodes
  unfolding min_element pick
  min_element-least best [] = tt
  min_element-least best (node ∷ nodes) = (
    min_element-NotBelow node (pick best node) nodes (pick-NotBelow_self best node),
    min_element-least (pick best node) nodes,
  )

  min_element-All :
      (P : GatewayNode numbers → Type 0) (best : GatewayNode numbers)
      (nodes : List (GatewayNode numbers))
      → P best
      → All P nodes
      → P (min_element numbers best nodes)
  unfolding min_element
  min_element-All P best [] h k = h
  min_element-All P best (node ∷ nodes) h (k, ks) =
      min_element-All P (if less node.load best.load then node else best) nodes
        (if_both P (less node.load best.load) node best k h) ks

  All-Mem :
      (nodes all : List (GatewayNode numbers))
      → ((n : GatewayNode numbers) → Mem n nodes → Mem n all)
      → All (λ n. Mem n all) nodes
  All-Mem [] all h = tt
  All-Mem (node ∷ nodes) all h =
      (h node mem-cons_self, All-Mem nodes all (λ n m. h n (mem-cons_of_mem node m)))

  min_element-Mem :
      (node : GatewayNode numbers) (nodes : List (GatewayNode numbers))
      → Mem (min_element numbers node nodes) (node ∷ nodes)
  min_element-Mem node nodes =
      min_element-All (λ n. Mem n (node ∷ nodes)) node nodes mem-cons_self
        (All-Mem nodes (node ∷ nodes) (λ n m. mem-cons_of_mem node m))

  by_region-All :
      (P : GatewayNode numbers → Type 0) (region : Bytes) (nodes : List (GatewayNode numbers))
      → All P nodes
      → All (λ n. P n × (n.region ≡ region)) (by_region numbers region nodes)
  by_region-All P region [] h = tt
  by_region-All P region (node ∷ nodes) (h, hs) =
      ite_split (All (λ (n : GatewayNode numbers). P n × (n.region ≡ region)))
        (bytes_discrete node.region region) _ _ (λ e. ((h, e), by_region-All P region nodes hs))
        (by_region-All P region nodes hs)

  module _ (json : JsonLibrary) (redis : RedisServer) where
    open redis use {State}

    keep_fresh-AllFresh :
        (now : ℕ) (gw_id : Bytes) (found : Option (GatewayNode numbers))
        (later : State → Option (List (GatewayNode numbers)) × State) (s : State)
        → ((s : State) → AllFresh now (later s).0)
        → AllFresh now (keep_fresh numbers json redis now gw_id found later s).0
    unfolding keep_fresh
    keep_fresh-AllFresh now gw_id none later s h = tt
    keep_fresh-AllFresh now gw_id (some node) later s h =
        elim (Bool-cases (is_stale now node.last_heartbeat)) [
          | inl e ↦ rw (e, keep_fresh) (h (set_remove redis active_gateways gw_id s).1)
          | inr e ↦ elim (Option-cases (later s).0) [
            | inl f ↦ rw (e, keep_fresh, f) tt
            | inr (nodes, f) ↦ rw (e, keep_fresh, f) ((e, refl), subst (AllFresh now) f (h s))
          ]
        ]

    discover_each-AllFresh :
        (now : ℕ) (ids : List Bytes) (s : State)
        → AllFresh now (discover_each numbers json redis now ids s).0
    unfolding discover_each
    discover_each-AllFresh now [] s = tt
    discover_each-AllFresh now (gw_id ∷ ids) s =
        let (data_text, s1) = get_hash_field redis (redis_key gw_id) (codes "data") s in
        elim (Bool-cases (is_empty data_text)) [
          | inl e ↦ rw (e, discover_each) (discover_each-AllFresh now ids s1)
          | inr e ↦
              rw (e, discover_each)
                (keep_fresh-AllFresh now gw_id (from_json numbers json redis data_text)
                  (discover_each numbers json redis now ids) s1 (discover_each-AllFresh now ids))
        ]

    discover_gateways-AllFresh :
        (now : ℕ) (s : State) → AllFresh now (discover_gateways numbers json redis now s).0
    unfolding discover_gateways
    discover_gateways-AllFresh now s =
        let (ids, s1) = set_members redis active_gateways s in discover_each-AllFresh now ids s1

    discover-region :
        (now : ℕ) (region : Bytes) (s : State) (all : List (GatewayNode numbers))
        → (discover_gateways numbers json redis now s).0 ≡ some all
        → (discover_gateways_by_region numbers json redis now region s).0
          ≡ some (by_region numbers region all)
    unfolding discover_gateways_by_region
    discover-region now region s all e = rw (e, discover_gateways_by_region) refl

    select-regional :
        (now : ℕ) (r : Registry numbers) (s : State) (node : GatewayNode numbers)
        (nodes : List (GatewayNode numbers))
        → (discover_gateways_by_region numbers json redis now r.own_region s).0
          ≡ some (node ∷ nodes)
        → (select_best_gateway numbers json redis now r s).0 ≡ some (min_element numbers node nodes)
    unfolding select_best_gateway least_loaded
    select-regional now r s node nodes e = rw (e, select_best_gateway) refl

    -- When the discovery finds gateways of the own region, the choice is one of those that were found there: it has a
    -- heartbeat in the last 30 seconds, and no gateway of the region that was found has a smaller load.
    pub select_best_gateway_lem :
        (now : ℕ) (r : Registry numbers) (s : State) (all nodes : List (GatewayNode numbers))
        (node : GatewayNode numbers)
        → (discover_gateways numbers json redis now s).0 ≡ some all
        → by_region numbers r.own_region all ≡ node ∷ nodes
        → let (chosen, s') = select_best_gateway numbers json redis now r s in
          (best : GatewayNode numbers) × (chosen ≡ some best)
          × Mem best (node ∷ nodes)
          × (best.region ≡ r.own_region)
          × IsFresh now best
          × All (NotBelow best) (node ∷ nodes)
    select_best_gateway_lem now r s all nodes node e f =
        let best = min_element numbers node nodes in
        let regional = discover-region now r.own_region s all e ∙ ap some f in
        let fresh : All (IsFresh now) all =
          subst (AllFresh now) e (discover_gateways-AllFresh now s) in
        let P : GatewayNode numbers → Type 0 = λ n. IsFresh now n × (n.region ≡ r.own_region) in
        let (h, hs) : All P (node ∷ nodes) =
          subst (All P) f (by_region-All (IsFresh now) r.own_region all fresh) in
        let (good, here) = min_element-All P node nodes h hs in
        let first = min_element-NotBelow node node nodes (less-irrefl node.load) in
        (
          best,
          select-regional now r s node nodes regional,
          min_element-Mem node nodes,
          here,
          good,
          (first, min_element-least node nodes),
        )
