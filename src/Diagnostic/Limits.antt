-- ===== src/Diagnostic/Limits.antt =====
-- The reasons and the limits of `analyze_memory` in scripts/qwen/request_diagnostic_memory.py.
use zerocool.Prelude.{
  ℕ, ◌-◌, ◌+◌, ◌≡◌, refl, sym, ap, ◌∙◌, Bool, true, not, ◌&&◌, Option, none, some, List, [], ◌∷◌,
  ◌++◌, String, ◌==◌, nat_eq, string_eq, arith, leb, ltb, ok, ok_injective, bind_inverse, require,
}
use zerocool.Json.{Value}
use zerocool.Json.Numbers.{Floats}
use zerocool.Routes.Windows.{is_empty}
use zerocool.Trace.State.{◌&◌}
use zerocool.Draft.Memory.{Process}
use zerocool.Diagnostic.Observe.{Observation, State, Limits, swap_grew, when, reasons_of}
use zerocool.Diagnostic.Request.{Phase, on_request}
use zerocool.Diagnostic.Memory.{
  Report, conclude, analyze_memory, check_limits, two_runs, name_of, request_decompressions,
}
use zerocool.Diagnostic.Ordered.{Kept, chain, all_reasons, is_ordered, is_within}
use zerocool.Diagnostic.Keeps.{on_request-Kept}

-- what a report holds of the loop
abbrev state_of : Report → State
state_of r = record { observations = r.observations; reasons = r.reasons }

conclude-state :
    (a b : Phase) (s : State) {r : Report}
    → conclude a b s ≡ ok r
    → (s ≡ state_of r) × (is_empty s.reasons ≡ r.hard_limits_passed)
unfolding conclude
conclude-state a b s {r} h =
    let (u, e1, h1) =
      bind_inverse
        (require
          (request_decompressions a
              + request_decompressions b
              + (b.request_before.decompressions - a.request_after.decompressions)
            == b.request_after.decompressions - a.request_before.decompressions)
          "Request decompression accounting does not reconcile")
        _ h in
    let same = ok_injective h1 in (ap state_of same, ap (λ k. k.hard_limits_passed) same)

-- The observations of an answer are in order, and its reasons are theirs.
pub analyze_memory-Kept :
    (floats : Floats) (limits : Limits) (raw : Value) {r : Report}
    → analyze_memory floats limits raw ≡ ok r
    → Kept limits (state_of r) × (is_empty r.reasons ≡ r.hard_limits_passed)
unfolding analyze_memory chain all_reasons
analyze_memory-Kept floats limits raw {r} h =
    let (u1, e1, h1) =
      bind_inverse (require (check_limits limits) "Invalid diagnostic memory limits") _ h in
    let ((row_a, row_b), e2, h2) = bind_inverse (two_runs raw) _ h1 in
    let (name_a, e3, h3) = bind_inverse (name_of row_a) _ h2 in
    let (name_b, e4, h4) = bind_inverse (name_of row_b) _ h3 in
    let (u5, e5, h5) =
      bind_inverse (require (not (name_a == name_b)) "Missing or duplicate request phase names") _
        h4 in
    let start : State = record { observations = []; reasons = [] } in
    let first : Kept limits start = record { ordered = refl; reasons = refl } in
    let ((a, end_a, s), e6, h6) =
      bind_inverse (on_request floats limits name_a row_a 0 start) _ h5 in
    let ((b, end_b, s'), e7, h7) =
      bind_inverse (on_request floats limits name_b row_b end_a s) _ h6 in
    let kept1 = on_request-Kept floats limits name_a row_a 0 start e6 first in
    let kept2 = on_request-Kept floats limits name_b row_b end_a s e7 kept1 in
    let (is_state, passed) = conclude-state a b s' h7 in
    (rw is_state at kept2, ap (λ k. is_empty k.reasons) (sym is_state) ∙ passed)

-- Where analyze_memory answers, every observation is within its own peaks, and has no cumulative
-- counter below that of the observation before it, across the two requests.
pub analyze_memory-ordered :
    (floats : Floats) (limits : Limits) (raw : Value) {r : Report}
    → analyze_memory floats limits raw ≡ ok r
    → chain is_ordered none r.observations ≡ true
analyze_memory-ordered floats limits raw h =
    let (kept, passed) = analyze_memory-Kept floats limits raw h in kept.ordered

is_empty-when :
    (a b c : Bool) (x y z : String) (rest : List String)
    → is_empty ((when a x ++ when b y ++ when c z) ++ rest)
      ≡ (not a && not b && not c && is_empty rest)
is_empty-when Bool.true b c x y z rest = refl
is_empty-when Bool.false Bool.true c x y z rest = refl
is_empty-when Bool.false Bool.false Bool.true x y z rest = refl
is_empty-when Bool.false Bool.false Bool.false x y z rest = refl

not-ltb : (n m : ℕ) → not (ltb m n) ≡ leb n m
not-ltb n m = ground arith

is_empty-reasons_of :
    (limits : Limits) (place : String) (prior : Option Process) (p : Process) (rest : List String)
    → is_empty (reasons_of limits place prior p ++ rest)
      ≡ (is_within limits prior p && is_empty rest)
unfolding reasons_of
is_empty-reasons_of limits place prior p rest =
    is_empty-when (swap_grew prior p) (ltb limits.budget p.footprint_peak)
      (ltb limits.compression p.compressed_peak) _ _ _ rest
    ∙ ap
        (λ b.
          not (swap_grew prior p)
          && b
          && not (ltb limits.compression p.compressed_peak)
          && is_empty rest)
        (not-ltb p.footprint_peak limits.budget)
    ∙ ap (λ b. not (swap_grew prior p) && leb p.footprint_peak limits.budget && b && is_empty rest)
        (not-ltb p.compressed_peak limits.compression)

-- No reason is collected, exactly where every observation is within the limits.
is_empty-all_reasons :
    (limits : Limits) (prior : Option Process) (os : List Observation)
    → is_empty (all_reasons limits prior os) ≡ chain (is_within limits) prior os
unfolding all_reasons chain
is_empty-all_reasons limits prior [] = refl
is_empty-all_reasons limits prior (o ∷ os) =
    is_empty-reasons_of limits (o.phase & ":" & o.boundary) prior o.process
      (all_reasons limits (some o.process) os)
    ∙ ap (λ b. is_within limits prior o.process && b)
        (is_empty-all_reasons limits (some o.process) os)

-- Where analyze_memory answers, the hard limits have passed exactly where no observation has more
-- swap used than the one before it and the two peaks of every observation are within the limits.
pub hard_limits_passed-is_within :
    (floats : Floats) (limits : Limits) (raw : Value) {r : Report}
    → analyze_memory floats limits raw ≡ ok r
    → r.hard_limits_passed ≡ chain (is_within limits) none r.observations
hard_limits_passed-is_within floats limits raw {r} h =
    let (kept, passed) = analyze_memory-Kept floats limits raw h in
    sym passed ∙ ap is_empty kept.reasons ∙ is_empty-all_reasons limits none r.observations
