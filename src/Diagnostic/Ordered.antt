-- ===== src/Diagnostic/Ordered.antt =====
-- What the loop of `analyze_memory` in scripts/qwen/request_diagnostic_memory.py keeps of the
-- observations and the reasons.
use zerocool.Prelude.{
  ◌≡◌, refl, sym, ap, ◌∙◌, Bool, true, not, ◌&&◌, Option, none, some, List, [], ◌∷◌, ◌++◌, String,
  arith, leb, ok, ok_injective, bind_inverse, require, require-true,
}
use mathlib.Core.List.{append-nil, append_assoc}
use zerocool.Json.{Value, get_key, get_default, object, end, is_object}
use zerocool.Trace.State.{◌&◌}
use zerocool.Draft.Memory.{Process}
use zerocool.Diagnostic.Observe.{
  Observation, State, Limits, last_of, is_inside, is_behind, swap_grew, reasons_of, add, observe,
  phase_boundary, process_at,
}

-- a test of each observation and the process before it
unfoldable pub chain : (Option Process → Process → Bool) → Option Process → List Observation → Bool
chain test prior [] = true
chain test prior (o ∷ os) = test prior o.process && chain test (some o.process) os

-- the process before what is put behind a list
unfoldable last_from : Option Process → List Observation → Option Process
last_from prior [] = prior
last_from prior (o ∷ os) = last_from (some o.process) os

-- the reasons of all the observations, in their order
unfoldable pub all_reasons : Limits → Option Process → List Observation → List String
all_reasons limits prior [] = []
all_reasons limits prior (o ∷ os) =
    reasons_of limits (o.phase & ":" & o.boundary) prior o.process
    ++ all_reasons limits (some o.process) os

-- the process is within its own peaks, and no cumulative counter is below that of the one before
abbrev pub is_ordered : Option Process → Process → Bool
is_ordered prior p = is_inside p && is_behind prior p

-- no growth of the swap, and both peaks within their limits
abbrev pub is_within : Limits → Option Process → Process → Bool
is_within limits prior p =
    not (swap_grew prior p)
    && leb p.footprint_peak limits.budget
    && leb p.compressed_peak limits.compression

last_of-last_from :
    (os : List Observation) (o : Observation) → last_of (o ∷ os) ≡ last_from (some o.process) os
unfolding last_of last_from
last_of-last_from [] o = refl
last_of-last_from (p ∷ os) o = last_of-last_from os p

last_of_is : (os : List Observation) → last_of os ≡ last_from none os
unfolding last_of last_from
last_of_is [] = refl
last_of_is (o ∷ os) = last_of-last_from os o

pub last_of-end :
    (os : List Observation) (o : Observation) → last_of (os ++ o ∷ []) ≡ some o.process
unfolding last_of
last_of-end [] o = refl
last_of-end (p ∷ []) o = refl
last_of-end (p ∷ q ∷ os) o = last_of-end (q ∷ os) o

chain-end :
    (test : Option Process → Process → Bool) (prior : Option Process) (os : List Observation)
    (o : Observation)
    → chain test prior os ≡ true
    → test (last_from prior os) o.process ≡ true
    → chain test prior (os ++ o ∷ []) ≡ true
unfolding chain last_from
chain-end test prior [] o h last = ground (arith, last)
chain-end test prior (p ∷ os) o h last =
    let first : test prior p.process ≡ true = ground (arith, h) in
    let rest : chain test (some p.process) os ≡ true = ground (arith, h) in
    let kept = chain-end test (some p.process) os o rest last in ground (arith, first, kept)

all_reasons-end :
    (limits : Limits) (prior : Option Process) (os : List Observation) (o : Observation)
    → all_reasons limits prior (os ++ o ∷ [])
      ≡ all_reasons limits prior os
        ++ reasons_of limits (o.phase & ":" & o.boundary) (last_from prior os) o.process
unfolding all_reasons last_from
all_reasons-end limits prior [] o = append-nil _
all_reasons-end limits prior (p ∷ os) o =
    ap (λ l. reasons_of limits (p.phase & ":" & p.boundary) prior p.process ++ l)
      (all_reasons-end limits (some p.process) os o)
    ∙ sym (
        append_assoc (reasons_of limits (p.phase & ":" & p.boundary) prior p.process)
          (all_reasons limits (some p.process) os)
          (reasons_of limits (o.phase & ":" & o.boundary) (last_from (some p.process) os)
            o.process))

-- What the loop keeps: the observations are in order, and their reasons are those collected.
pub record Kept (limits : Limits) (s : State) : Type 0 where
  pub ordered : chain is_ordered none s.observations ≡ true
  pub reasons : s.reasons ≡ all_reasons limits none s.observations

-- Where `observe` returns, the process is in order, and the state is that with its observation.
pub observe-ok :
    (limits : Limits) (v : Value) (name label : String) (s : State) {p : Process} {s' : State}
    → observe limits v name label s ≡ ok (p, s')
    → (is_ordered (last_of s.observations) p ≡ true) × (s' ≡ add limits name label p s)
unfolding observe
observe-ok limits v name label s {p} {s'} h =
    let place = name & ":" & label in
    let (q, e1, h1) = bind_inverse (process_at v place) _ h in
    let (u2, e2, h2) =
      bind_inverse (require (is_inside q) ("Current memory exceeds its lifetime peak at " & place))
        _ h1 in
    let (u3, e3, h3) =
      bind_inverse
        (require (is_behind (last_of s.observations) q)
          ("Cumulative memory counter reset at " & place))
        _ h2 in
    let inside : is_inside q ≡ true = require-true _ _ e2 in
    let behind : is_behind (last_of s.observations) q ≡ true = require-true _ _ e3 in
    let ordered : is_ordered (last_of s.observations) q ≡ true = rw (inside, behind) in
    let kept : (q, add limits name label q s) ≡ (p, s') = ok_injective h3 in
    let same_process : q ≡ p = ap (λ r. r.0) kept in
    (
      rw same_process at ordered,
      sym (ap (λ r. r.1) kept) ∙ ap (λ r. add limits name label r s) same_process,
    )

add-Kept :
    (limits : Limits) (name label : String) (p : Process) (s : State)
    → is_ordered (last_of s.observations) p ≡ true
    → Kept limits s
    → Kept limits (add limits name label p s)
unfolding add
add-Kept limits name label p s h kept =
    let at_last = last_of_is s.observations in
    record {
      ordered = chain-end is_ordered none s.observations _ kept.ordered (rw at_last at h);
      reasons =
          ap (λ l. l ++ reasons_of limits (name & ":" & label) (last_of s.observations) p)
            kept.reasons
          ∙ ap
              (λ r.
                all_reasons limits none s.observations
                ++ reasons_of limits (name & ":" & label) r p)
              at_last
          ∙ sym (all_reasons-end limits none s.observations _);
    }

pub observe-Kept :
    (limits : Limits) (v : Value) (name label : String) (s : State) {p : Process} {s' : State}
    → observe limits v name label s ≡ ok (p, s')
    → Kept limits s
    → Kept limits s'
observe-Kept limits v name label s {p} {s'} h kept =
    let (ordered, is_added) = observe-ok limits v name label s h in
    rw (← is_added) at (add-Kept limits name label p s ordered kept)

-- `phase_boundary` is an `observe`.
pub phase_boundary-observe :
    (limits : Limits) (row : Value) (phase boundary name : String) (s : State) {p : Process}
    {s' : State}
    → phase_boundary limits row phase boundary name s ≡ ok (p, s')
    → (v : Value) × (observe limits v name (phase & "." & boundary) s ≡ ok (p, s'))
unfolding phase_boundary
phase_boundary-observe limits row phase boundary name s h =
    let (phases, e1, h1) = bind_inverse (get_key "phases" row) _ h in
    let (u2, e2, h2) =
      bind_inverse (require (is_object phases) "Missing phase memory boundaries") _ h1 in
    let (d, e3, h3) = bind_inverse (get_default phase (object end) phases) _ h2 in
    let (u4, e4, h4) =
      bind_inverse (require (is_object d) ("Missing " & phase & " memory boundaries")) _ h3 in
    let (v, e5, h5) = bind_inverse (get_key boundary d) _ h4 in (v, h5)

pub phase_boundary-Kept :
    (limits : Limits) (row : Value) (phase boundary name : String) (s : State) {p : Process}
    {s' : State}
    → phase_boundary limits row phase boundary name s ≡ ok (p, s')
    → Kept limits s
    → Kept limits s'
phase_boundary-Kept limits row phase boundary name s h kept =
    let (v, observed) = phase_boundary-observe limits row phase boundary name s h in
    observe-Kept limits v name (phase & "." & boundary) s observed kept
