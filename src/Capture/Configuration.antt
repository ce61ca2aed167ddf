-- ===== src/Capture/Configuration.antt =====
-- `check_configuration` of scripts/qwen/qualify_exact_sessions.py.
use zerocool.Prelude.{
  Bool, false, not, List, [], ◌∷◌, String, if◌then◌else◌, Result, ok, ◌>>=◌, ◌>>◌, require,
}
use zerocool.Json.{
  Value, null, bool, int, str, object, end, at, get_key, get_default, is_truthy, same,
}
use zerocool.Json.Numbers.{check}
use zerocool.Capture.Machine.{Host}

-- an entry of a table of options: the option in the configuration, the key in the state, and the
-- default of both
pub record Choice : Type 0 where
  pub option : String
  pub key : String
  pub default : Value

abbrev choice : String → String → Value → Choice
choice option key default = record { option = option; key = key; default = default }

abbrev same_name : String → String → Choice
same_name key default = choice key key (str default)

abbrev execution_choices : List Choice
execution_choices =
    same_name "cache_policy" "clock"
    ∷ same_name "sparse_selection" "cpu"
    ∷ same_name "residency" "off"
    ∷ same_name "decode_path" "reference"
    ∷ same_name "prefill_pipeline" "serial"
    ∷ same_name "phase_memory" "fixed"
    ∷ same_name "expert_tail" "wait"
    ∷ same_name "decode_scratch" "none"
    ∷ []

abbrev kernel_choices : List Choice
kernel_choices =
    choice "kernel_policy" "policy" (str "reference")
    ∷ choice "token_tile" "token_tile" (int 1)
    ∷ choice "gdn_path" "gdn" (str "original")
    ∷ choice "gdn_rows" "gdn_rows" (int 4)
    ∷ choice "gdn_block" "gdn_block" (int 8)
    ∷ choice "affine_rows" "affine_rows" (int 1)
    ∷ choice "q8_decode_rows" "q8_decode_rows" (int 0)
    ∷ same_name "route_selection" "serial"
    ∷ same_name "q4_decode" "reference"
    ∷ same_name "attention_score_tiles" "full"
    ∷ []

-- `state.get(key)` stands against `config.get(option, default)`, with no default of its own
abbrev schedule_choices : List Choice
schedule_choices =
    choice "ready_group" "ready_group" (int 4)
    ∷ choice "chunk" "chunk_tokens" (int 128)
    ∷ choice "io_workers" "io_workers" (int 8)
    ∷ []

-- `state.get(key, missing) == config.get(option, default)`
unfoldable pub chosen : Value → Value → Value → Choice → Result Bool
chosen missing state config c = do
  v ← get_default c.key missing state
  w ← get_default c.option c.default config
  ok (same v w)

-- the loop over a table whose entries have their defaults on both sides
unfoldable pub check_choices : String → Value → Value → List Choice → Result (Unit {0})
check_choices message state config [] = ok tt
check_choices message state config (c ∷ choices) = do
  check (chosen c.default state config c) message
  check_choices message state config choices

unfoldable pub check_schedule : Value → Value → List Choice → Result (Unit {0})
check_schedule state config [] = ok tt
check_schedule state config (c ∷ choices) = do
  check (chosen null state config c) "Session schedule differs from requested configuration"
  check_schedule state config choices

-- the shapes of the configured policy, which a file holds
unfoldable pub shape_of : Host → Value → Result Value
shape_of host config = do
  policy ← get_key "shape_policy" config
  if is_truthy (λ s. host.equals s 0) policy then host.policy policy else ok null

unfoldable pub check_kernels : Host → Value → Value → Result (Unit {0})
check_kernels host state config = do
  metal ← at "metal" state
  kernels ← get_default "kernels" (object end) metal
  check_choices "Session kernels differ from requested configuration" kernels config kernel_choices
  pair ← get_default "gate_pair" (bool false) kernels
  option ← get_default "gate_pair" (str "off") config
  require (same pair (bool (same option (str "on"))))
      "Session gate pairing differs from requested configuration"
  shape ← shape_of host config
  table ← get_key "shape_table" kernels
  require (same table shape) "Session shape selection changed"

-- `check_configuration`
unfoldable pub check_configuration : Host → Value → Value → Result (Unit {0})
check_configuration host state config = do
  check (chosen (str "immediate") state config (same_name "decode_submission" "immediate"))
      "Decode submission differs from requested configuration"
  pressure ← get_default "memory_pressure" (object end) state
  check
      (chosen (str "observe") pressure config
        (choice "memory_pressure_policy" "policy" (str "observe")))
      "Memory pressure policy differs from requested configuration"
  execution ← get_default "execution" (object end) state
  check_choices "Session execution differs from requested configuration" execution config
      execution_choices
  replay ← get_default "cached_token_replay" (bool false) execution
  require (not (is_truthy (λ s. host.equals s 0) replay)) "Cached replay cannot qualify sessions"
  check_kernels host state config
  check_schedule state config schedule_choices
