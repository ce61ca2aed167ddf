-- ===== src/Replay/Layers.antt =====
-- The branch of the event loop of `decode` in scripts/qwen/block_cache_replay.py on `layer`: the
-- routes of a layer and the order in which it demands its experts.
use zerocool.Prelude.{
  ℕ, zero, suc, ◌+◌, ◌-◌, ◌*◌, ◌%◌, not, ◌&&◌, some, List, ◌++◌, map, ◌==◌, nat_eq, string_eq,
  if◌then◌else◌, ltb, length, Result, ok, ◌>>=◌, ◌>>◌, require, item, store, take, drop, filter,
  sorted_set, same_numbers,
}
use zerocool.Dict.{Dict, contains}
use zerocool.Replay.Cache.{total_pins, layers, experts}
use zerocool.Replay.Events.{LayerDetail, top_k}
use zerocool.Replay.State.{State, integer, integers, active_of}

-- the loop over the groups of `top_k` routes, of which there are as many as tokens
unfoldable pub check_groups : ℕ → List ℕ → Result (Unit {0})
check_groups zero routes = ok tt
check_groups (suc groups) routes = do
  require (length (sorted_set (take top_k routes)) == top_k) "Duplicate routed expert"
  integers (take top_k routes) 0 (experts - 1) "route"
  check_groups groups (drop top_k routes)

-- `expected`, the order in which a layer demands its experts: hits first, but not in a long forward
unfoldable pub demand_order : ℕ → ℕ → List ℕ → Dict ℕ ℕ → List ℕ
demand_order tokens layer ascending lookup =
    let keys = map (λ k. layer * experts + k) ascending in
    if ltb 32 tokens
    then ascending
    else map (λ k. k % experts) (filter (λ k. contains k lookup) keys)
      ++ map (λ k. k % experts) (filter (λ k. not (contains k lookup)) keys)

-- event `layer`
unfoldable pub on_layer : LayerDetail → State → Result State
on_layer d s = do
  a ← active_of s.active "Layer boundary omitted demands or live users"
  require (total_pins s.cache.slots == 0 && a.index == length a.selected)
      "Layer boundary omitted demands or live users"
  integer d.layer 0 47 "layer"
  integer d.offset 0 8191 "offset"
  integer d.tokens 1 8192 "tokens"
  require
      (ltb a.layers layers
        && d.layer == a.layers
        && d.offset == a.offset
        && d.tokens == a.tokens
        && length d.routes == a.tokens * top_k)
      "Invalid layer coverage"
  check_groups a.tokens d.routes
  integers d.selected 0 (experts - 1) "selected expert"
  require
      (same_numbers d.selected
        (demand_order a.tokens a.layers (sorted_set d.routes) s.cache.lookup))
      "Native hit-first demand ordering differs"
  history ← item s.histories a.layers
  histories ← store s.histories a.layers (history ++ d.routes)
  ok (record s {
    histories = histories;
    active = some (record a {
      layers = a.layers + 1;
      selected = map (λ k. a.layers * experts + k) d.selected;
      index = 0;
    });
  })
