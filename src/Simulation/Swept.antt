-- ===== src/Simulation/Swept.antt =====
-- What `cache_curve` of scripts/qwen/cache_simulation.py counts.
use zerocool.Prelude.{
  ℕ, ◌+◌, ◌*◌, ◌/◌, ◌%◌, ◌^◌, ◌≤◌, ◌<◌, ◌≡◌, refl, sym, ◌∙◌, arith, Bool, true, Option, List, [],
  ◌∷◌, String, length, leb, ok, ok_injective, bind_inverse, require, require-true, sorted_set,
  if◌then◌else◌, Bool-cases, inl, inr,
}
use mathlib.Core.Path.{subst}
use zerocool.Json.{Value}
use zerocool.Json.Numbers.{minus}
use zerocool.Routes.Windows.{Segment, is_empty, demands_of}
use zerocool.Routes.Loop.{Row, Coverage, route_segments}
use zerocool.Simulation.Counts.{clock, segmented_lru, belady, Counts}
use zerocool.Simulation.Counts.Recorded.{counts-route_segments}
use zerocool.Simulation.Curve.{
  Curve, CacheCurve, Source, slot_bytes, curve_of, curves_of, bounded_curves, cache_curve,
  read_budgets, open_source, check_identity,
}

-- each policy counts every demand once as a hit or a miss
abbrev pub AllCounted : ℕ → List Counts → Type 0
AllCounted demands [] = Unit {0}
AllCounted demands (c ∷ policies) =
    ((c.demands ≡ demands) × (c.hits + c.misses ≡ demands)) × AllCounted demands policies

-- the slots fill the budget up to a part that is no slot, and the policies count
abbrev pub IsSwept : ℕ → Curve → Type 0
IsSwept demands c =
    (length c.policies ≡ 3)
    × AllCounted demands c.policies
    × (c.slot_allocation_bytes + c.unused_budget_bytes ≡ c.budget_bytes)

-- the curve is that of a budget in MiB, with as many slots as it holds
abbrev pub IsOf : ℕ → Curve → Type 0
IsOf mib c =
    (c.budget_mib ≡ mib)
    × (c.budget_bytes ≡ mib * 1024 ^ 2)
    × (c.slots * slot_bytes ≤ mib * 1024 ^ 2)
    × (mib * 1024 ^ 2 < (c.slots + 1) * slot_bytes)

-- the curves are those of the budgets, in order and one for each
abbrev pub AreOf : List ℕ → List Curve → Type 0
AreOf [] [] = Unit {0}
AreOf [] (c ∷ curves) = ⊥
AreOf (mib ∷ budgets) [] = ⊥
AreOf (mib ∷ budgets) (c ∷ curves) = IsOf mib c × AreOf budgets curves

abbrev pub AllSwept : ℕ → List Curve → Type 0
AllSwept demands [] = Unit {0}
AllSwept demands (c ∷ curves) = IsSwept demands c × AllSwept demands curves

module _ (rows : List Row) (phase : Option String) (explicit per_layer : Bool)
    {segments : List Segment} {coverage : Coverage}
    (recorded : route_segments rows phase explicit ≡ ok (segments, coverage)) where
  curve_of-IsSwept :
      (mib : ℕ)
      → (c : Curve) × (curve_of segments per_layer mib ≡ ok c)
        × IsSwept coverage.demand_record_accesses c
        × IsOf mib c
  unfolding curve_of
  curve_of-IsSwept mib =
      let bytes = mib * 1024 ^ 2 in
      let slots = bytes / slot_bytes in
      let (a, a_ends, a_demands, a_both) =
        counts-route_segments rows phase explicit slots clock per_layer recorded in
      let (b, b_ends, b_demands, b_both) =
        counts-route_segments rows phase explicit slots segmented_lru per_layer recorded in
      let (c, c_ends, c_demands, c_both) =
        counts-route_segments rows phase explicit slots belady per_layer recorded in
      (
        record {
          budget_mib = mib;
          budget_bytes = bytes;
          slots = slots;
          slot_allocation_bytes = slots * slot_bytes;
          unused_budget_bytes = bytes % slot_bytes;
          policies = a ∷ b ∷ c ∷ [];
          clock_minus_oracle_read_bytes = minus a.application_miss_bytes c.application_miss_bytes;
        },
        rw (a_ends, b_ends, c_ends) refl,
        (
          refl,
          ((a_demands, a_both), ((b_demands, b_both), ((c_demands, c_both), tt))),
          omega arith,
        ),
        (refl, refl, omega arith, omega arith),
      )

  curves_of-AllSwept :
      (budgets : List ℕ)
      → (cs : List Curve) × (curves_of segments per_layer budgets ≡ ok cs)
        × AllSwept coverage.demand_record_accesses cs
        × AreOf budgets cs
  unfolding curves_of
  curves_of-AllSwept [] = ([], refl, tt, tt)
  curves_of-AllSwept (mib ∷ budgets) =
      let (c, e, swept, of) = curve_of-IsSwept mib in
      let (cs, es, all_swept, all_of) = curves_of-AllSwept budgets in
      (c ∷ cs, rw (e, es) refl, (swept, all_swept), (of, all_of))

-- Where `route_segments` answers and the policy steps are within their bound, the sweep ends without
-- an error. A source without segments has no curves; another one has one curve for each distinct
-- budget, in increasing order, with as many slots as the budget holds. Each curve has three policies,
-- each of which counts every demand of the rows once as a hit or a miss.
pub bounded_curves-AllSwept :
    (rows : List Row) (phase : Option String) (explicit per_layer : Bool) (budgets : List ℕ)
    {segments : List Segment} {coverage : Coverage}
    → route_segments rows phase explicit ≡ ok (segments, coverage)
    → demands_of segments * length budgets * 3 ≤ 9000000
    → (cs : List Curve) × (bounded_curves segments per_layer budgets ≡ ok cs)
      × AllSwept coverage.demand_record_accesses cs
      × AreOf (if is_empty segments then [] else sorted_set budgets) cs
unfolding bounded_curves
bounded_curves-AllSwept rows phase explicit per_layer budgets {segments} recorded low =
    let bounded : leb (demands_of segments * length budgets * 3) 9000000 ≡ true =
      ground (arith, low) in
    elim (Bool-cases (is_empty segments)) [
      | inl nothing ↦ ([], rw (bounded, nothing) refl, tt, rw nothing tt)
      | inr counted ↦
          let (cs, e, swept, of) =
            curves_of-AllSwept rows phase explicit per_layer recorded (sorted_set budgets) in
          (cs, rw (bounded, counted) e, swept, rw counted of)
    ]

bounded_curves-bounded :
    (segments : List Segment) (per_layer : Bool) (budgets : List ℕ) {cs : List Curve}
    → bounded_curves segments per_layer budgets ≡ ok cs
    → demands_of segments * length budgets * 3 ≤ 9000000
unfolding bounded_curves
bounded_curves-bounded segments per_layer budgets h =
    let steps = demands_of segments * length budgets * 3 in
    let (_, passed, _) = bind_inverse (require (leb steps 9000000) _) _ h in
    ground (arith, require-true (leb steps 9000000) _ passed)

-- Where `cache_curve` answers, each of its curves has three policies, each of which counts every
-- demand that its coverage reports once as a hit or a miss, and the slots and the unused rest of a
-- curve make up its budget.
pub cache_curve-AllSwept :
    (budgets : Value) (source : Source) (phase : Option String) (per_layer : Bool) {a : CacheCurve}
    → cache_curve budgets source phase per_layer ≡ ok a
    → AllSwept a.coverage.demand_record_accesses a.curves
unfolding cache_curve
cache_curve-AllSwept budgets source phase per_layer h0 =
    let (ns, _, h1) = bind_inverse (read_budgets budgets) _ h0 in
    let (opened, _, h2) = bind_inverse (open_source source) _ h1 in
    let (routed, recorded, h3) = bind_inverse (route_segments opened.0 phase opened.2) _ h2 in
    let (_, _, h4) = bind_inverse (check_identity routed.1.identity opened.1) _ h3 in
    let (curves, swept, h5) = bind_inverse (bounded_curves routed.0 per_layer ns) _ h4 in
    let (cs, e, all_swept, _) =
      bounded_curves-AllSwept opened.0 phase opened.2 per_layer ns recorded
        (bounded_curves-bounded routed.0 per_layer ns swept) in
    let same : cs ≡ curves = ok_injective (sym e ∙ swept) in
    subst (λ k. AllSwept k.coverage.demand_record_accesses k.curves) (ok_injective h5)
      (subst (AllSwept routed.1.demand_record_accesses) same all_swept)
