-- ===== src/Simulation/CurveTests.antt =====
-- Cache curves of a recorded window of one token, whose 480 demands all differ.
use zerocool.Prelude.{
  ◌*◌, ◌≡◌, refl, true, false, none, List, [], ◌∷◌, ok, is_ok, ok_of, item, store, take, drop,
  sum_of, filter, sorted_set, insert_number, nat_eq, leb, leb→le, if◌then◌else◌,
}
use zerocool.Json.{Value, int, list, as_items, find, at, get_key, has_key, same}
use zerocool.Routes.Pass.{
  integer, check_key, check_format, is_build, is_revision, identity_of, check_experts, check_tokens,
  check_request, event_of, pass_of,
}
use zerocool.Routes.Windows.{
  Segment, is_empty, demands_of, discard, split_last, has_phase, all_keys, add_span, extend, choose,
  boundary, complete, complete_first, join, on_pass,
}
use zerocool.Routes.Loop.{
  Row, Coverage, is_filtered, on_routes, on_recorded, step, run, finish, finish_pending,
  coverage_of, route_segments,
}
use zerocool.Routes.Tests.{row, window}
use zerocool.Dict.{get, put, delete, pop_first, contains, move_to_end, remove}
use zerocool.Simulation.Counts.{
  counts, count_segments, count_segment, replay, count_layer, bump, count_span, skip_spans,
  first_span, count_phase, answer,
}
use zerocool.Simulation.Clock
use zerocool.Simulation.Segmented
use zerocool.Simulation.Belady
use zerocool.Json.Numbers.{minus}
use zerocool.Simulation.Curve.{
  Curve, lines, all_budgets, check_budgets, read_budgets, open_source, check_recorded,
  check_identity, curve_of, curves_of, bounded_curves, cache_curve,
}
use zerocool.Simulation.Swept.{AllSwept, AreOf, bounded_curves-AllSwept, cache_curve-AllSwept}

abbrev rows : List Row
rows = row 0 ∷ window 48

rows_routed : is_ok (route_segments rows none false) ≡ true
unfolding route_segments run step on_recorded is_filtered on_routes identity_of is_revision is_build
    pass_of event_of check_format check_key integer check_experts check_tokens check_request at
    get_key has_key find same on_pass join complete_first complete choose boundary extend add_span
    all_keys has_phase split_last discard finish finish_pending coverage_of sum_of take drop
    sorted_set insert_number
rows_routed = refl

abbrev routed : List Segment × Coverage
routed = (ok_of (route_segments rows none false) rows_routed).0

few_steps : leb (demands_of routed.0 * 2 * 3) 9000000 ≡ true
unfolding route_segments run step on_recorded is_filtered on_routes identity_of is_revision is_build
    pass_of event_of check_format check_key integer check_experts check_tokens check_request at
    get_key has_key find same on_pass join complete_first complete choose boundary extend add_span
    all_keys has_phase split_last discard finish finish_pending coverage_of sum_of take drop
    sorted_set insert_number ok_of
few_steps = refl

bounded_curves-AllSwept_example :
    (cs : List Curve) × (bounded_curves routed.0 true (1 ∷ 3 ∷ []) ≡ ok cs)
    × AllSwept routed.1.demand_record_accesses cs
    × AreOf (if is_empty routed.0 then [] else sorted_set (1 ∷ 3 ∷ [])) cs
bounded_curves-AllSwept_example =
    bounded_curves-AllSwept rows none false true (1 ∷ 3 ∷ [])
      (ok_of (route_segments rows none false) rows_routed).1
      (leb→le (demands_of routed.0 * 2 * 3) 9000000 few_steps)

abbrev budgets : Value
budgets = list (as_items (int 3 ∷ []))

curve_answers : is_ok (cache_curve budgets (lines rows) none true) ≡ true
unfolding route_segments run step on_recorded is_filtered on_routes identity_of is_revision is_build
    pass_of event_of check_format check_key integer check_experts check_tokens check_request at
    get_key has_key find same on_pass join complete_first complete choose boundary extend add_span
    all_keys has_phase split_last discard finish finish_pending coverage_of sum_of take drop
    sorted_set insert_number cache_curve read_budgets all_budgets check_budgets open_source
    check_recorded check_identity bounded_curves curves_of curve_of item store filter counts
    count_segments count_segment replay count_layer bump count_span skip_spans first_span
    count_phase answer get put delete pop_first contains move_to_end remove minus Clock.access
    Clock.sweep Clock.install Clock.forget Segmented.access Segmented.make_room Segmented.demote
    Belady.access Belady.admit Belady.before Belady.belady Belady.evict Belady.extract
    Belady.heappop Belady.is_current Belady.make_room Belady.next_uses
curve_answers = refl

cache_curve-AllSwept_example :
    AllSwept
      (ok_of
        (cache_curve budgets (lines rows) none true)
        curve_answers).0.coverage.demand_record_accesses
      (ok_of (cache_curve budgets (lines rows) none true) curve_answers).0.curves
cache_curve-AllSwept_example =
    cache_curve-AllSwept budgets (lines rows) none true
      (ok_of (cache_curve budgets (lines rows) none true) curve_answers).1
