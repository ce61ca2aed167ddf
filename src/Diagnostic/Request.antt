-- ===== src/Diagnostic/Request.antt =====
-- The loop of `analyze_memory` in scripts/qwen/request_diagnostic_memory.py over the requests.
-- `observe` lets no cumulative counter fall, so differences of decompressions are taken in ℕ.
use zerocool.Prelude.{
  ℕ, zero, suc, ◌+◌, ◌-◌, ◌&&◌, Option, none, some, List, [], ◌∷◌, ◌++◌, String, ◌==◌, nat_eq, leb,
  length, Result, ok, ◌>>=◌, ◌>>◌, require, sum_of,
}
use zerocool.Json.{
  Value, int, object, end, at, get_key, get_default, iterate, is_object, is_list, is_number,
  elements, number, same,
}
use zerocool.Json.Numbers.{Floats, counts, is_u64, all_of, check, as_value_error}
use zerocool.Draft.Memory.{Process}
use zerocool.Diagnostic.Steps.{analyze_steps}
use zerocool.Diagnostic.Observe.{State, Limits, Change, difference, observe, phase_boundary}

-- an entry of `tokens`; its change is the difference of its two processes
pub record Token : Type 0 where
  pub step : ℕ
  pub offset : ℕ
  pub input_token_id : Value
  pub forward_ms : Value
  pub before_observation : ℕ
  pub after_observation : ℕ
  pub memory_before : Process
  pub memory_after : Process
  pub process_change : Change

-- an entry of `gaps`, with the two processes of its difference
pub record Gap : Type 0 where
  pub boundary : String
  pub preceding_step : Option ℕ
  pub following_step : Option ℕ
  pub from_ : Process
  pub to : Process
  pub process_change : Change

abbrev pub gap : String → Option ℕ → Option ℕ → Process → Process → Gap
gap boundary preceding following a b = record {
  boundary = boundary;
  preceding_step = preceding;
  following_step = following;
  from_ = a;
  to = b;
  process_change = difference a b;
}

-- the gap before a token
unfoldable pub gap_before : ℕ → Process → Process → Gap
gap_before zero prior before = gap "decode_to_first_token" none (some zero) prior before
gap_before (suc n) prior before = gap "between_tokens" (some n) (some (suc n)) prior before

abbrev disorder : String
disorder = "Nonchronological decode observation across request phases"

-- the step, the offset and the end of a sample that comes behind the last one
unfoldable pub read_sample : ℕ → Value → Result ((ℕ × ℕ) × ℕ)
read_sample previous_end s = do
  step ← at "step" s
  offset ← get_key "offset" s
  begins ← get_key "begin_ns" s
  ends ← get_key "end_ns" s
  require
      (is_u64 step
        && is_u64 offset
        && is_u64 begins
        && is_u64 ends
        && leb previous_end (number begins))
      disorder
  ok ((number step, number offset), number ends)

-- the variables of the loop over the samples
pub record Loop : Type 0 where
  pub previous_end : ℕ
  pub prior : Process
  pub tokens : List Token
  pub gaps : List Gap
  pub state : State

-- the entry of a sample
unfoldable pub token_of : (ℕ × ℕ) → Value → Value → ℕ → ℕ → Process → Process → Token
token_of (step, offset) input forward first last before after = record {
  step = step;
  offset = offset;
  input_token_id = input;
  forward_ms = forward;
  before_observation = first;
  after_observation = last;
  memory_before = before;
  memory_after = after;
  process_change = difference before after;
}

-- the variables after a sample
unfoldable pub after_sample : ℕ → ℕ → Token → State → Loop → Loop
after_sample ends step token s l = record {
  previous_end = ends;
  prior = token.memory_after;
  tokens = l.tokens ++ token ∷ [];
  gaps = l.gaps ++ gap_before step l.prior token.memory_before ∷ [];
  state = s;
}

unfoldable pub on_sample : Limits → String → Value → Loop → Result Loop
on_sample limits name s l = do
  (position, ends) ← read_sample l.previous_end s
  state_before ← at "before" s
  (before, s1) ← observe limits state_before name "token.before" l.state
  state_after ← at "after" s
  (after, s2) ← observe limits state_after name "token.after" s1
  input ← at "input_token_id" s
  forward ← at "forward_ms" s
  let token =
      token_of position input forward (length l.state.observations) (length s1.observations) before
        after
  ok (after_sample ends position.0 token s2 l)

unfoldable pub on_samples : Limits → String → List Value → Loop → Result Loop
on_samples limits name [] l = ok l
on_samples limits name (s ∷ samples) l = do
  l' ← on_sample limits name s l
  on_samples limits name samples l'

-- the decompressions inside the tokens, and outside in the gaps
abbrev pub inside_of : List Token → ℕ
inside_of = sum_of (λ t. t.memory_after.decompressions - t.memory_before.decompressions)

abbrev pub outside_of : List Gap → ℕ
outside_of = sum_of (λ g. g.to.decompressions - g.from_.decompressions)

-- an entry of `phases`: the processes at the boundaries stand for the changes between them
pub record Phase : Type 0 where
  pub name : String
  pub first_observation : ℕ
  pub last_observation : ℕ
  pub tokens : List Token
  pub gaps : List Gap
  pub request_before : Process
  pub ingest_before : Process
  pub ingest_after : Process
  pub decode_before : Process
  pub decode_after : Process
  pub request_after : Process

-- the coverage of a request, checked before its observations
unfoldable pub check_request : Floats → Value → Result Value
check_request floats row = do
  outputs ← get_key "output_tokens" row
  ids ← get_key "output_token_ids" row
  latencies ← get_key "token_latency_ms" row
  require
      (is_number 17 outputs
        && is_list ids
        && length (elements ids) == 17
        && is_list latencies
        && length (elements latencies) == 16)
      "Memory diagnostic requires 17 outputs and 16 forwards per phase"
  diagnostic ← get_default "decode_diagnostics" (object end) row
  require (is_object diagnostic) "Missing or invalid decode coverage counters"
  check
      (all_of (λ k. counts is_u64 k diagnostic)
        ("max_steps" ∷ "total_decode_steps" ∷ "captured_steps" ∷ "omitted_steps" ∷ []))
      "Missing or invalid decode coverage counters"
  (rows, omitted) ← as_value_error "Incomplete decode observation" (analyze_steps floats row)
  require (length rows == 16 && same omitted (int 0)) "Incomplete per-token memory coverage"
  ok diagnostic

-- the boundaries before the samples, from the request on
pub record Opening : Type 0 where
  pub request_before : Process
  pub ingest_before : Process
  pub ingest_after : Process
  pub decode_before : Process
  pub state : State

unfoldable pub open_request : Limits → String → Value → State → Result Opening
open_request limits name row s = do
  state ← get_key "before" row
  (request_before, s1) ← observe limits state name "request.before" s
  (ingest_before, s2) ← phase_boundary limits row "ingest" "before" name s1
  (ingest_after, s3) ← phase_boundary limits row "ingest" "after" name s2
  (decode_before, s4) ← phase_boundary limits row "decode" "before" name s3
  ok (record {
    request_before = request_before;
    ingest_before = ingest_before;
    ingest_after = ingest_after;
    decode_before = decode_before;
    state = s4;
  })

-- the boundaries behind the samples, and the accounting
unfoldable pub close_request : Limits → String → Value → ℕ → Opening → Loop → Result (Phase × State)
close_request limits name row first o l = do
  (decode_after, s5) ← phase_boundary limits row "decode" "after" name l.state
  state ← get_key "after" row
  (request_after, s6) ← observe limits state name "request.after" s5
  let gaps = l.gaps ++ gap "last_token_to_decode" (some 15) none l.prior decode_after ∷ []
  require
      (inside_of l.tokens + outside_of gaps
        == decode_after.decompressions - o.decode_before.decompressions)
      "Decode decompression accounting does not reconcile"
  ok (
    record {
      name = name;
      first_observation = first;
      last_observation = length s5.observations;
      tokens = l.tokens;
      gaps = gaps;
      request_before = o.request_before;
      ingest_before = o.ingest_before;
      ingest_after = o.ingest_after;
      decode_before = o.decode_before;
      decode_after = decode_after;
      request_after = request_after;
    },
    s6,
  )

-- a round of the loop over the requests
unfoldable pub on_request :
    Floats → Limits → String → Value → ℕ → State → Result (Phase × ℕ × State)
on_request floats limits name row previous_end s = do
  diagnostic ← check_request floats row
  o ← open_request limits name row s
  value ← at "samples" diagnostic
  samples ← iterate value
  l ← on_samples limits name samples (record {
    previous_end = previous_end;
    prior = o.decode_before;
    tokens = [];
    gaps = [];
    state = o.state;
  })
  (phase, s') ← close_request limits name row (length s.observations) o l
  ok (phase, l.previous_end, s')
