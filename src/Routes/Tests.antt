-- ===== src/Routes/Tests.antt =====
-- A window of one token, and a row without routes behind it.
use zerocool.Prelude.{
  ℕ, zero, suc, ◌+◌, ◌-◌, ◌*◌, ◌≡◌, refl, true, false, none, List, [], ◌∷◌, ok, ok_of, is_ok,
  sum_of, take, drop, sorted_set, insert_number, nat_eq,
}
use zerocool.Json.{
  Value, str, int, list, object, nil, cons, end, field, find, at, get_key, has_key, same,
}
use zerocool.Routes.Pass.{
  integer, check_key, check_format, is_build, is_revision, identity_of, check_experts, check_tokens,
  check_request, event_of, pass_of,
}
use zerocool.Routes.Windows.{
  Segment, discard, split_last, has_phase, all_keys, add_span, extend, choose, boundary, complete,
  complete_first, join, on_pass,
}
use zerocool.Routes.Loop.{
  Row, Coverage, is_filtered, on_routes, on_recorded, step, run, finish, finish_pending,
  coverage_of, route_segments,
}
use zerocool.Routes.Balance.{windows_of}
use zerocool.Routes.Conserves.{route_segments-IsBalanced}

abbrev pub ten : Value
ten = list (
    cons (int 0) (
      cons (int 1) (
        cons (int 2) (
          cons (int 3) (
            cons (int 4)
              (cons (int 5) (cons (int 6) (cons (int 7) (cons (int 8) (cons (int 9) nil))))))))))

abbrev pub build : Value
build = str "0123456789abcdef0123456789abcdef0123456789abcdef0123456789abcdef"

abbrev pub row : ℕ → Row
row layer = (
  "line",
  object (
      field "artifact_revision" (str "aa7c790e804bbf9d491ddb109c3d61bc4a555f7c") (
        field "build" build (
          field "layer" (int layer)
            (field "offset" (int 72) (field "tokens" (int 1) (field "routes" ten end)))))),
)

-- the rows of `n` layers up to the last
abbrev pub window : ℕ → List Row
window zero = ("line", object end) ∷ []
window (suc n) = row (47 - n) ∷ window n

window_segments : is_ok (route_segments (row 0 ∷ window 48) none false) ≡ true
unfolding route_segments run step on_recorded is_filtered on_routes identity_of is_revision is_build
    pass_of event_of check_format check_key integer check_experts check_tokens check_request at
    get_key has_key find same on_pass join complete_first complete choose boundary extend add_span
    all_keys has_phase split_last discard finish finish_pending coverage_of sum_of take drop
    sorted_set insert_number
window_segments = refl

pub window_end :
    (r : List Segment × Coverage) × (route_segments (row 0 ∷ window 48) none false ≡ ok r)
window_end = ok_of (route_segments (row 0 ∷ window 48) none false) window_segments

route_segments-IsBalanced_example :
    (50 ≡ window_end.0.1.input_passes + window_end.0.1.explicit_boundary_events)
    × (window_end.0.1.input_passes
        ≡ window_end.0.1.included_passes + window_end.0.1.excluded_incomplete_passes
          + window_end.0.1.missing_route_passes + window_end.0.1.filtered_passes)
    × (window_end.0.1.included_passes ≡ windows_of window_end.0.0 * 48)
    × (window_end.0.1.demand_record_accesses + window_end.0.1.within_pass_grouped_selections
        ≡ window_end.0.1.logical_router_selections)
route_segments-IsBalanced_example =
    route_segments-IsBalanced (row 0 ∷ window 48) none false window_end.1
