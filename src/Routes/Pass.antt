-- ===== src/Routes/Pass.antt =====
-- The checks that `route_segments` of scripts/qwen/cache_simulation.py makes on a row with routes,
-- and the pass that it makes of it. The message of an exception that names a key or a bound is
-- its constant part.
use Prim.Native.Char.{code}
use Prim.Native.String.{count}
use zerocool.Prelude.{
  ℕ, zero, suc, ◌+◌, ◌-◌, ◌*◌, Bool, true, false, ◌&&◌, ◌||◌, List, [], ◌∷◌, map, String, ◌==◌,
  nat_eq, string_eq, if◌then◌else◌, leb, length, Result, ok, raise, type_error, ◌>>=◌, ◌>>◌,
  require, take, drop, sorted_set,
}
use zerocool.Json.{
  Value, str, at, get_key, has_key, is_between, is_number, is_list, is_str, is_null, is_hashable,
  is_text, elements, number, numbers,
}

abbrev pub layers : ℕ
layers = 48

abbrev pub experts : ℕ
experts = 512

abbrev pub top_k : ℕ
top_k = 10

abbrev pub max_accesses : ℕ
max_accesses = 250000

-- `integer`
unfoldable pub integer : Value → ℕ → ℕ → String → Result ℕ
integer value minimum maximum label =
    require (is_between minimum maximum value) label >> ok (number value)

-- one round of `check_format`
unfoldable pub check_key : String → ℕ → Value → Result (Unit {0})
check_key key expected row =
    if has_key key row
    then (do
      value ← at key row
      require (is_number expected value)
          "Variable-size or alternate expert formats are not supported: ")
    else ok tt

unfoldable pub check_format : Value → Result (Unit {0})
check_format row = do
  check_key "expert_payload_bytes" 2764800 row
  check_key "expert_stride_bytes" 2768896 row
  check_key "expert_bits" 4 row
  check_key "expert_group_size" 64 row

-- the characters of `[0-9a-f]*`
abbrev is_hex_digit : ℕ → Bool
is_hex_digit c = (leb b'0' c && leb c b'9') || (leb b'a' c && leb c b'f')

abbrev all_hex : String → Bool
all_hex String.[] = true
all_hex (String.◌∷◌ c s) = is_hex_digit (code c) && all_hex s

-- `isinstance(build, str) and re.fullmatch('[0-9a-f]{64}', build)`
unfoldable pub is_build : Value → Bool
is_build (str s) = count s == 64 && all_hex s
is_build _ = false

-- `revision in REVISIONS`, a set
unfoldable pub is_revision : Value → Result Bool
is_revision revision =
    if is_hashable revision
    then ok (
        is_text "aa7c790e804bbf9d491ddb109c3d61bc4a555f7c" revision
        || is_text "b2c422f3c643e36f04227a64d61796b44a4b1029" revision)
    else raise type_error

abbrev pub Identity : Type 0
Identity = Value × Value

-- the artifact revision and the build of a row
unfoldable pub identity_of : Value → Result Identity
identity_of row = do
  revision ← get_key "artifact_revision" row
  build ← get_key "build" row
  known ← is_revision revision
  require known "Cache simulation requires a pinned Q4 or mixed-4/8 artifact with Q4 experts"
  require (is_build build) "Route entry requires a full native build fingerprint"
  ok (revision, build)

unfoldable pub check_experts : List Value → Result (Unit {0})
check_experts [] = ok tt
check_experts (route ∷ routes) = do
  expert ← integer route 0 (experts - 1) "expert"
  check_experts routes

-- no token selects an expert twice: the slices of `top_k` routes, of which there are as many as tokens
unfoldable pub check_tokens : ℕ → List ℕ → Result (Unit {0})
check_tokens zero routes = ok tt
check_tokens (suc tokens) routes = do
  require (length (sorted_set (take top_k routes)) == top_k)
      "A token cannot select the same expert twice"
  check_tokens tokens (drop top_k routes)

-- `event`
pub record Pass : Type 0 where
  pub pointer : String
  pub layer : ℕ
  pub offset : ℕ
  pub tokens : ℕ
  pub phase : Value
  pub session : Value
  pub request_id : Value
  pub keys : List ℕ

-- `event[k] is None or isinstance(event[k], str)`
abbrev is_name : Value → Bool
is_name v = is_null v || is_str v

-- the check of `request_id`, where boundaries are explicit
unfoldable pub check_request : Bool → Value → Result (Unit {0})
check_request true request_id = do id ← integer request_id 1 max_accesses "request_id"; ok tt
check_request false request_id = ok tt

-- `event` and its checks, from the checked numbers and routes of a row
unfoldable pub event_of : Bool → String → Value → ℕ → ℕ → ℕ → List ℕ → Result Pass
event_of explicit pointer row layer offset tokens selected = do
  phase ← get_key "request_phase" row
  session ← get_key "session_id" row
  request_id ← get_key "request_id" row
  check_request explicit request_id
  require (is_name phase && is_name session) "Phase/session identity must be a string when recorded"
  ok (record {
    pointer = pointer;
    layer = layer;
    offset = offset;
    tokens = tokens;
    phase = phase;
    session = session;
    request_id = request_id;
    keys = map (λ e. layer * experts + e) (sorted_set selected);
  })

-- a row from its identity on
unfoldable pub pass_of : Bool → String → Value → Result Pass
pass_of explicit pointer row = do
  check_format row
  layer_value ← get_key "layer" row
  layer ← integer layer_value 0 (layers - 1) "layer"
  offset_value ← get_key "offset" row
  offset ← integer offset_value 0 8191 "offset"
  tokens_value ← get_key "tokens" row
  tokens ← integer tokens_value 1 (8192 - offset) "tokens"
  routes ← at "routes" row
  require (is_list routes && length (elements routes) == tokens * top_k)
      "Routes must contain exactly tokens * top-10 expert IDs"
  check_experts (elements routes)
  check_tokens tokens (numbers (elements routes))
  event_of explicit pointer row layer offset tokens (numbers (elements routes))
