-- ===== src/Capture/Transitions.antt =====
-- The transitions of `validate_phase_memory` in scripts/qwen/benchmark_exact.py end where they began.
use zerocool.Prelude.{
  ℕ, suc, ◌+◌, ◌%◌, ◌≡◌, refl, sym, ap, ◌∙◌, Bool, true, false, not, List, [], ◌∷◌, String, ◌==◌,
  nat_eq, arith, if◌then◌else◌, length, Result, ok, ok_injective, bind_inverse, ◌>>=◌, require,
  require-true,
}
use mathlib.Core.Path.{subst}
use zerocool.Json.{Value, int, str, at, iterate, same}
use zerocool.Json.Numbers.{◌&?◌, check, check-true, both_hold}
use zerocool.Capture.Machine.{Host, is_below, agree}
use zerocool.Capture.Phases.{
  Others, value_plus, value_minus, events_after, target, reason, is_declared, check_scratch,
  on_transition, on_transitions, check_transitions,
}

-- an allocation is the plan that a phase declares
abbrev pub IsAt : Value → String → Value → Type 0
IsAt phase name v = (plan : Value) × (at name phase ≡ ok plan) × (same v plan ≡ true)

agree-IsAt :
    (j : String) (a : Value) (k : String) (b : Value) {v : Value}
    → agree j a k b ≡ ok true
    → at j a ≡ ok v
    → IsAt b k v
unfolding agree
agree-IsAt j a k b h is_v =
    let (w, e1, h1) = bind_inverse (at j a) (λ w. at k b >>= λ u. ok (same w u)) h in
    let (u, e2, h2) = bind_inverse (at k b) (λ u. ok (same w u)) h1 in
    (u, e2, ap (λ x. same x u) (ok_injective (sym is_v ∙ e1)) ∙ ok_injective h2)

-- A transition with the sequence number and the reason that stand next, which goes on from a plan to
-- the plan that the phase declares.
abbrev pub IsNext : Others → Value → Value → ℕ → Bool → Value → Value → Value → Type 0
IsNext others after count index ingest previous e next =
    ((v : Value) × (w : Value) × (at "sequence" e ≡ ok v)
      × (value_plus others count (index + 1) ≡ ok w)
      × (same v w ≡ true))
    × ((v : Value) × (at "reason" e ≡ ok v) × (same v (str (reason ingest)) ≡ true))
    × ((v : Value) × (at "before" e ≡ ok v) × (same v previous ≡ true))
    × (at "after" e ≡ ok next)
    × IsAt after (target ingest) next

-- Transitions in turns to the prompt plan and back, each from the plan that the one before it left.
abbrev pub AreNext : Others → Value → Value → ℕ → Bool → Value → List Value → Value → Type 0
AreNext others after count index ingest previous [] last = previous ≡ last
AreNext others after count index ingest previous (e ∷ events) last =
    (next : Value) × IsNext others after count index ingest previous e next
    × AreNext others after count (suc index) (not ingest) next events last

at-is :
    (k : String) (e w : Value)
    → (at k e >>= λ v. ok (same v w)) ≡ ok true
    → (v : Value) × (at k e ≡ ok v) × (same v w ≡ true)
at-is k e w h =
    let (v, e1, h1) = bind_inverse (at k e) (λ v. ok (same v w)) h in (v, e1, ok_injective h1)

on_transition-IsNext :
    (host : Host) (others : Others) (budget : ℕ) (after count : Value) (index : ℕ) (ingest : Bool)
    (previous e : Value) {next : Value}
    → on_transition host others budget after count index ingest previous e ≡ ok next
    → IsNext others after count index ingest previous e next
unfolding on_transition
on_transition-IsNext host others budget after count index ingest previous e h =
    let is_sequence : Result Bool =
      at "sequence" e >>= λ v. value_plus others count (index + 1) >>= λ w. ok (same v w) in
    let is_reason : Result Bool = at "reason" e >>= λ v. ok (same v (str (reason ingest))) in
    let is_before : Result Bool = at "before" e >>= λ v. ok (same v previous) in
    let is_after = agree "after" e (target ingest) after in
    let message : String = "Undeclared allocation transition" in
    let (u1, e1, h1) =
      bind_inverse (check (is_declared others after count index ingest previous e) message) _ h in
    let (u2, e2, h2) =
      bind_inverse (check (is_below host budget "live_buffer_bytes" e) "Transition exceeds budget")
        _ h1 in
    let scratch : Result Unit =
      if ingest
      then ok tt
      else (at "scratch_after" e >>= λ v. iterate v >>= λ ps. check_scratch host ps) in
    let (u3, e3, h3) = bind_inverse scratch (λ u. at "after" e) h2 in
    let declared = check-true (is_sequence &? is_reason &? is_before &? is_after) message e1 in
    let (a, k1) = both_hold is_sequence (is_reason &? is_before &? is_after) declared in
    let (b, k2) = both_hold is_reason (is_before &? is_after) k1 in
    let (c, d) = both_hold is_before is_after k2 in
    let (v, a1, a2) = bind_inverse (at "sequence" e) _ a in
    let (w, a3, a4) = bind_inverse (value_plus others count (index + 1)) (λ w. ok (same v w)) a2 in
    (
      (v, w, a1, a3, ok_injective a4),
      at-is "reason" e (str (reason ingest)) b,
      at-is "before" e previous c,
      h3,
      agree-IsAt "after" e (target ingest) after d h3,
    )

on_transitions-AreNext :
    (host : Host) (others : Others) (budget : ℕ) (after count : Value) (index : ℕ) (ingest : Bool)
    (previous : Value) (events : List Value) {last : Value}
    → on_transitions host others budget after count index ingest previous events ≡ ok last
    → AreNext others after count index ingest previous events last
unfolding on_transitions
on_transitions-AreNext host others budget after count index ingest previous [] h = ok_injective h
on_transitions-AreNext host others budget after count index ingest previous (e ∷ events) h =
    let (next, e1, h1) =
      bind_inverse (on_transition host others budget after count index ingest previous e) _ h in
    (
      next,
      on_transition-IsNext host others budget after count index ingest previous e e1,
      on_transitions-AreNext host others budget after count (suc index) (not ingest) next events h1,
    )

-- whether a plan is that of the prompt, behind transitions in turns
unfoldable ending : List Value → Bool → Bool
ending [] ingest = not ingest
ending (e ∷ events) ingest = ending events (not ingest)

twice : (b : Bool) → not (not b) ≡ b
twice Bool.true = refl
twice Bool.false = refl

ending_even : (events : List Value) → (length events % 2 == 0) ≡ true → ending events true ≡ false
unfolding ending
ending_even [] h = refl
ending_even (e ∷ []) h = ground (arith, h)
ending_even (e ∷ f ∷ events) h = ending_even events (ground (arith, h))

AreNext-IsAt :
    (others : Others) (after count : Value) (index : ℕ) (ingest : Bool) (previous : Value)
    (events : List Value) (last : Value)
    → AreNext others after count index ingest previous events last
    → IsAt after (target (not ingest)) previous
    → IsAt after (target (ending events ingest)) last
unfolding ending
AreNext-IsAt others after count index ingest previous [] last h start =
    subst (IsAt after (target (not ingest))) h start
AreNext-IsAt others after count index ingest previous (e ∷ events) last (next, is_next, rest)
      start =
    AreNext-IsAt others after count (suc index) (not ingest) next events last rest
      (subst (λ b. IsAt after (target b) next) (sym (twice ingest)) is_next.4)

-- The transitions that a request reports after those before it: as many as the count rose by, each
-- from the plan that the one before it left, the first from the generation plan, and the last to it.
pub record Passed (others : Others) (before after : Value) : Type 0 where
  pub count : Value
  pub is_count : at "transition_count" before ≡ ok count
  pub previous : Value
  pub is_previous : at "generation_plan" before ≡ ok previous
  pub value : Value
  pub is_value : at "transitions" after ≡ ok value
  pub transitions : List Value
  pub are_transitions : iterate value ≡ ok transitions
  pub events : List Value
  pub are_events : events_after others count transitions ≡ ok events
  pub count_after : Value
  pub is_count_after : at "transition_count" after ≡ ok count_after
  pub left : Value
  pub is_left : value_minus others count_after count ≡ ok left
  pub are_counted : same (int (length events)) left ≡ true
  pub is_even : length events % 2 ≡ 0
  pub last : Value
  pub are_next : AreNext others after count 0 true previous events last
  pub ends : IsAt after "generation_plan" last

-- Where the transitions of a request pass, those behind the count before it are as many as the count
-- rose by, and an even number. They are numbered in order, and go in turns to the prompt plan and back
-- to the generation plan, with the reason of each: the first begins with the allocation that is the
-- generation plan before the request, each later one with the allocation that the one before it left,
-- and the last allocation is the generation plan after the request.
pub check_transitions-Passed :
    (host : Host) (others : Others) (budget : ℕ) (row config before after : Value) {u : Unit}
    → check_transitions host others budget row config before after ≡ ok u
    → Passed others before after
unfolding check_transitions
check_transitions-Passed host others budget row config before after h =
    let same_prompt = agree "prompt_plan" before "prompt_plan" after in
    let same_generation = agree "generation_plan" before "generation_plan" after in
    let message : String = "Declared phase plans changed" in
    let (u1, e1, h1) = bind_inverse (check (same_prompt &? same_generation) message) _ h in
    let (count, e2, h2) = bind_inverse (at "transition_count" before) _ h1 in
    let (v, e3, h3) = bind_inverse (at "transitions" after) _ h2 in
    let (transitions, e4, h4) = bind_inverse (iterate v) _ h3 in
    let (events, e5, h5) = bind_inverse (events_after others count transitions) _ h4 in
    let (total, e6, h6) = bind_inverse (at "transition_count" after) _ h5 in
    let (left, e7, h7) = bind_inverse (value_minus others total count) _ h6 in
    let (u8, e8, h8) =
      bind_inverse (require (same (int (length events)) left) "Missing transition evidence") _ h7 in
    let (previous, e9, h9) = bind_inverse (at "generation_plan" before) _ h8 in
    let (last, e10, h10) =
      bind_inverse (on_transitions host others budget after count 0 true previous events) _ h9 in
    let (u11, e11, h11) =
      bind_inverse (require (length events % 2 == 0) "Unfinished memory transition") _ h10 in
    let (prompts, plans) =
      both_hold same_prompt same_generation
        (check-true (same_prompt &? same_generation) message e1) in
    let start = agree-IsAt "generation_plan" before "generation_plan" after plans e9 in
    let next = on_transitions-AreNext host others budget after count 0 true previous events e10 in
    let ended = AreNext-IsAt others after count 0 true previous events last next start in
    let halves = require-true _ "Unfinished memory transition" e11 in
    let even = ending_even events halves in
    record {
      count = count;
      is_count = e2;
      previous = previous;
      is_previous = e9;
      value = v;
      is_value = e3;
      transitions = transitions;
      are_transitions = e4;
      events = events;
      are_events = e5;
      count_after = total;
      is_count_after = e6;
      left = left;
      is_left = e7;
      are_counted = require-true _ "Missing transition evidence" e8;
      is_even = ground (arith, halves);
      last = last;
      are_next = next;
      ends = subst (λ b. IsAt after (target b) last) even ended;
    }
