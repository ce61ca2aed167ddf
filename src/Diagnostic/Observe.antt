-- ===== src/Diagnostic/Observe.antt =====
-- `observe` and `phase_boundary` of `analyze_memory` in scripts/qwen/request_diagnostic_memory.py.
use zerocool.Prelude.{
  ℕ, Bool, true, false, ◌&&◌, Option, none, some, List, [], ◌∷◌, ◌++◌, String, if◌then◌else◌, ltb,
  leb, Result, ok, ◌>>=◌, ◌>>◌, require,
}
use zerocool.Json.{Value, object, end, at, get_key, get_default, is_object, number}
use zerocool.Json.Numbers.{counts, is_u64, all_of, minus, check}
use zerocool.Trace.State.{◌&◌}
use zerocool.Draft.Memory.{Process}

abbrev gauges : List String
gauges =
    "physical_footprint_bytes" ∷ "physical_footprint_peak_bytes" ∷ "compressed_bytes"
    ∷ "compressed_peak_bytes" ∷ "decompressions" ∷ "system_swap_used_bytes" ∷ []

-- `difference`: each entry may be negative
pub record Change : Type 0 where
  pub footprint : Value
  pub footprint_peak : Value
  pub compressed : Value
  pub compressed_peak : Value
  pub decompressions : Value
  pub swap_used : Value

unfoldable pub difference : Process → Process → Change
difference a b = record {
  footprint = minus b.footprint a.footprint;
  footprint_peak = minus b.footprint_peak a.footprint_peak;
  compressed = minus b.compressed a.compressed;
  compressed_peak = minus b.compressed_peak a.compressed_peak;
  decompressions = minus b.decompressions a.decompressions;
  swap_used = minus b.swap_used a.swap_used;
}

-- an entry of `observations`, without its context; the index is its place
pub record Observation : Type 0 where
  pub phase : String
  pub boundary : String
  pub process : Process
  pub change : Option Change

-- the lists that `observe` appends to
pub record State : Type 0 where
  pub observations : List Observation
  pub reasons : List String

-- the two limits
pub record Limits : Type 0 where
  pub budget : ℕ
  pub compression : ℕ

unfoldable pub last_of : List Observation → Option Process
last_of [] = none
last_of (o ∷ []) = some o.process
last_of (o ∷ p ∷ os) = last_of (p ∷ os)

-- the gauges of a process
unfoldable pub read_process : Value → Result Process
read_process v = do
  footprint ← at "physical_footprint_bytes" v
  footprint_peak ← at "physical_footprint_peak_bytes" v
  compressed ← at "compressed_bytes" v
  compressed_peak ← at "compressed_peak_bytes" v
  decompressions ← at "decompressions" v
  swap_used ← at "system_swap_used_bytes" v
  ok (record {
    footprint = number footprint;
    footprint_peak = number footprint_peak;
    compressed = number compressed;
    compressed_peak = number compressed_peak;
    decompressions = number decompressions;
    swap_used = number swap_used;
  })

unfoldable pub process_at : Value → String → Result Process
process_at state where_ = do
  require (is_object state) ("Missing process observation at " & where_)
  v ← get_key "process" state
  require (is_object v) ("Missing process observation at " & where_)
  check (all_of (λ k. counts is_u64 k v) gauges)
      ("Missing or invalid unsigned memory gauge at " & where_)
  read_process v

-- the current values are within their peaks
abbrev pub is_inside : Process → Bool
is_inside p =
    ltb 0 p.footprint && leb p.footprint p.footprint_peak && leb p.compressed p.compressed_peak

-- no cumulative counter has fallen
abbrev pub is_behind : Option Process → Process → Bool
is_behind none p = true
is_behind (some prior) p =
    leb prior.footprint_peak p.footprint_peak
    && leb prior.compressed_peak p.compressed_peak
    && leb prior.decompressions p.decompressions

abbrev pub swap_grew : Option Process → Process → Bool
swap_grew none p = false
swap_grew (some prior) p = ltb prior.swap_used p.swap_used

abbrev pub when : Bool → String → List String
when b reason = if b then reason ∷ [] else []

-- the reasons that an observation adds
unfoldable pub reasons_of : Limits → String → Option Process → Process → List String
reasons_of limits where_ prior p =
    when (swap_grew prior p) ("Observed system swap growth at " & where_)
    ++ when (ltb limits.budget p.footprint_peak)
        ("Physical footprint peak exceeds budget at " & where_)
    ++ when (ltb limits.compression p.compressed_peak)
        ("Compression lifetime peak exceeds diagnostic allowance at " & where_)

abbrev change_from : Option Process → Process → Option Change
change_from none p = none
change_from (some prior) p = some (difference prior p)

unfoldable pub add : Limits → String → String → Process → State → State
add limits name label p s =
    let prior = last_of s.observations in
    record {
      observations =
          s.observations
          ++ record { phase = name; boundary = label; process = p; change = change_from prior p }
            ∷ [];
      reasons = s.reasons ++ reasons_of limits (name & ":" & label) prior p;
    }

-- `observe`: the process, and the state with its observation; the index is the length before
unfoldable pub observe : Limits → Value → String → String → State → Result (Process × State)
observe limits state name label s = do
  let where_ = name & ":" & label
  p ← process_at state where_
  require (is_inside p) ("Current memory exceeds its lifetime peak at " & where_)
  require (is_behind (last_of s.observations) p) ("Cumulative memory counter reset at " & where_)
  ok (p, add limits name label p s)

-- `phase_boundary`
unfoldable pub phase_boundary :
    Limits → Value → String → String → String → State → Result (Process × State)
phase_boundary limits row phase boundary name s = do
  phases ← get_key "phases" row
  require (is_object phases) "Missing phase memory boundaries"
  data_ ← get_default phase (object end) phases
  require (is_object data_) ("Missing " & phase & " memory boundaries")
  state ← get_key boundary data_
  observe limits state name (phase & "." & boundary) s
