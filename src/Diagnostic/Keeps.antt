-- ===== src/Diagnostic/Keeps.antt =====
-- `analyze_memory` of scripts/qwen/request_diagnostic_memory.py keeps the observations in order.
use zerocool.Prelude.{
  ℕ, ◌-◌, ◌+◌, ◌≡◌, ap, none, some, List, [], ◌∷◌, ◌++◌, String, ◌==◌, nat_eq, string_eq, length,
  ok, ok_injective, bind_inverse, require,
}
use zerocool.Json.{Value, at, get_key, iterate}
use zerocool.Json.Numbers.{Floats}
use zerocool.Draft.Memory.{Process}
use zerocool.Diagnostic.Observe.{State, Limits, observe, phase_boundary}
use zerocool.Diagnostic.Request.{
  Loop, token_of, after_sample, Opening, Phase, read_sample, on_sample, on_samples, check_request,
  open_request, close_request, on_request, gap, inside_of, outside_of,
}
use zerocool.Diagnostic.Ordered.{Kept, observe-Kept, phase_boundary-Kept}

-- What a round over a sample does: two observations, and the variables after them.
pub record Sampled (limits : Limits) (name : String) (l l' : Loop) : Type 0 where
  pub value_before : Value
  pub value_after : Value
  pub before : Process
  pub after : Process
  pub between : State
  pub behind : State
  pub ends : ℕ
  pub position : ℕ × ℕ
  pub input : Value
  pub forward : Value
  pub observed_before :
      observe limits value_before name "token.before" l.state ≡ ok (before, between)
  pub observed_after : observe limits value_after name "token.after" between ≡ ok (after, behind)
  pub is_next :
      after_sample ends position.0
        (token_of position input forward
          (length l.state.observations)
          (length between.observations)
          before
          after)
        behind
        l
      ≡ l'

pub on_sample-Sampled :
    (limits : Limits) (name : String) (v : Value) (l : Loop) {l' : Loop}
    → on_sample limits name v l ≡ ok l'
    → Sampled limits name l l'
unfolding on_sample
on_sample-Sampled limits name v l {l'} h =
    let ((position, ends), e1, h1) = bind_inverse (read_sample l.previous_end v) _ h in
    let (value_before, e2, h2) = bind_inverse (at "before" v) _ h1 in
    let ((before, s1), e3, h3) =
      bind_inverse (observe limits value_before name "token.before" l.state) _ h2 in
    let (value_after, e4, h4) = bind_inverse (at "after" v) _ h3 in
    let ((after, s2), e5, h5) =
      bind_inverse (observe limits value_after name "token.after" s1) _ h4 in
    let (input, e6, h6) = bind_inverse (at "input_token_id" v) _ h5 in
    let (forward, e7, h7) = bind_inverse (at "forward_ms" v) _ h6 in
    record {
      value_before = value_before;
      value_after = value_after;
      before = before;
      after = after;
      between = s1;
      behind = s2;
      ends = ends;
      position = position;
      input = input;
      forward = forward;
      observed_before = e3;
      observed_after = e5;
      is_next = ok_injective h7;
    }

-- Each observation of a round keeps the order.
on_sample-Kept :
    (limits : Limits) (name : String) (l : Loop) {l' : Loop}
    → Sampled limits name l l'
    → Kept limits l.state
    → Kept limits l'.state
unfolding after_sample
on_sample-Kept limits name l {l'} done kept =
    let kept1 =
      observe-Kept limits done.value_before name "token.before" l.state done.observed_before kept in
    let kept2 =
      observe-Kept limits done.value_after name "token.after" done.between done.observed_after
        kept1 in
    let is_last : done.behind ≡ l'.state = ap (λ k. k.state) done.is_next in rw is_last at kept2

on_samples-Kept :
    (limits : Limits) (name : String) (samples : List Value) (l : Loop) {l' : Loop}
    → on_samples limits name samples l ≡ ok l'
    → Kept limits l.state
    → Kept limits l'.state
unfolding on_samples
on_samples-Kept limits name [] l {l'} h kept =
    let is_last : l.state ≡ l'.state = ap (λ k. k.state) (ok_injective h) in rw is_last at kept
on_samples-Kept limits name (v ∷ samples) l h kept =
    let (next, e1, h1) = bind_inverse (on_sample limits name v l) _ h in
    on_samples-Kept limits name samples next h1
      (on_sample-Kept limits name l (on_sample-Sampled limits name v l e1) kept)

open_request-Kept :
    (limits : Limits) (name : String) (row : Value) (s : State) {o : Opening}
    → open_request limits name row s ≡ ok o
    → Kept limits s
    → Kept limits o.state
unfolding open_request
open_request-Kept limits name row s {o} h kept =
    let (v, e1, h1) = bind_inverse (get_key "before" row) _ h in
    let ((p1, s1), e2, h2) = bind_inverse (observe limits v name "request.before" s) _ h1 in
    let ((p2, s2), e3, h3) =
      bind_inverse (phase_boundary limits row "ingest" "before" name s1) _ h2 in
    let ((p3, s3), e4, h4) =
      bind_inverse (phase_boundary limits row "ingest" "after" name s2) _ h3 in
    let ((p4, s4), e5, h5) =
      bind_inverse (phase_boundary limits row "decode" "before" name s3) _ h4 in
    let kept1 = observe-Kept limits v name "request.before" s e2 kept in
    let kept2 = phase_boundary-Kept limits row "ingest" "before" name s1 e3 kept1 in
    let kept3 = phase_boundary-Kept limits row "ingest" "after" name s2 e4 kept2 in
    let kept4 = phase_boundary-Kept limits row "decode" "before" name s3 e5 kept3 in
    let is_last : s4 ≡ o.state = ap (λ r. r.state) (ok_injective h5) in rw is_last at kept4

close_request-Kept :
    (limits : Limits) (name : String) (row : Value) (first : ℕ) (o : Opening) (l : Loop) {f : Phase}
    {s' : State}
    → close_request limits name row first o l ≡ ok (f, s')
    → Kept limits l.state
    → Kept limits s'
unfolding close_request
close_request-Kept limits name row first o l {f} {s'} h kept =
    let ((p5, s5), e1, h1) =
      bind_inverse (phase_boundary limits row "decode" "after" name l.state) _ h in
    let (v, e2, h2) = bind_inverse (get_key "after" row) _ h1 in
    let ((p6, s6), e3, h3) = bind_inverse (observe limits v name "request.after" s5) _ h2 in
    let (u4, e4, h4) =
      bind_inverse
        (require
          (inside_of l.tokens
              + outside_of (l.gaps ++ gap "last_token_to_decode" (some 15) none l.prior p5 ∷ [])
            == p5.decompressions - o.decode_before.decompressions)
          "Decode decompression accounting does not reconcile")
        _ h3 in
    let kept5 = phase_boundary-Kept limits row "decode" "after" name l.state e1 kept in
    let kept6 = observe-Kept limits v name "request.after" s5 e3 kept5 in
    let is_last : s6 ≡ s' = ap (λ r. r.1) (ok_injective h4) in rw is_last at kept6

pub on_request-Kept :
    (floats : Floats) (limits : Limits) (name : String) (row : Value) (previous_end : ℕ) (s : State)
    {f : Phase} {ends : ℕ} {s' : State}
    → on_request floats limits name row previous_end s ≡ ok (f, ends, s')
    → Kept limits s
    → Kept limits s'
unfolding on_request
on_request-Kept floats limits name row previous_end s {f} {ends} {s'} h kept =
    let (diagnostic, e1, h1) = bind_inverse (check_request floats row) _ h in
    let (o, e2, h2) = bind_inverse (open_request limits name row s) _ h1 in
    let (v, e3, h3) = bind_inverse (at "samples" diagnostic) _ h2 in
    let (samples, e4, h4) = bind_inverse (iterate v) _ h3 in
    let start : Loop = record {
      previous_end = previous_end;
      prior = o.decode_before;
      tokens = [];
      gaps = [];
      state = o.state;
    } in
    let (l, e5, h5) = bind_inverse (on_samples limits name samples start) _ h4 in
    let ((phase, s2), e6, h6) =
      bind_inverse (close_request limits name row (length s.observations) o l) _ h5 in
    let kept1 = open_request-Kept limits name row s e2 kept in
    let kept2 = on_samples-Kept limits name samples start e5 kept1 in
    let kept3 = close_request-Kept limits name row (length s.observations) o l e6 kept2 in
    let is_last : s2 ≡ s' = ap (λ r. r.2) (ok_injective h6) in rw is_last at kept3
