-- ===== src/Trace/State.antt =====
-- The local variables of `decode` in scripts/qwen/route_trace.py, and its check of tokens.
use Prim.Native.String
use zerocool.Prelude.{
  ℕ, zero, suc, ◌/◌, ◌%◌, Bool, false, not, ◌&&◌, ◌||◌, Option, none, List, [], ◌∷◌, String, get_or,
  ltb, leb, if◌then◌else◌, length, Result, ok, ◌>>◌, require, all,
}
use zerocool.Dict.{Dict}
use zerocool.Json.{Value, int, is_list, is_between, elements, numbers}
use zerocool.Routes.Loop.{Row}
use zerocool.Routes.Windows.{is_empty}

-- `type(v) is int and v >= minimum`
abbrev pub at_least : ℕ → Value → Bool
at_least minimum (int n) = leb minimum n
at_least minimum _ = false

-- `tokens`, which gives the numbers that it has checked
unfoldable pub token_ids : Bool → Value → Result (List ℕ)
token_ids empty value = do
  require
      (is_list value
        && (empty || not (is_empty (elements value)))
        && leb (length (elements value)) 8192
        && all (λ t. is_between 0 248319 t) (elements value))
      "Invalid token IDs"
  ok (numbers (elements value))

abbrev digit : ℕ → String
digit n = get_or ("0" ∷ "1" ∷ "2" ∷ "3" ∷ "4" ∷ "5" ∷ "6" ∷ "7" ∷ "8" ∷ "9" ∷ []) n ""

infixr 6 ◌&◌
-- `s + t`
abbrev pub ◌&◌ : String → String → String
◌&◌ = String.◌++◌

unfoldable pub digits : ℕ → ℕ → String
digits zero n = ""
digits (suc fuel) n =
    let front = digits fuel (n / 10) in if ltb n 10 then digit n else front & digit (n % 10)

-- `str(n)`: a number has fewer digits than one more than itself
abbrev pub decimal : ℕ → String
decimal n = digits (suc n) n

-- `active` without its rows, and an entry of `committed`: what was checked of the details, and all
-- of them
pub record Forward : Type 0 where
  pub input : List ℕ
  pub offset : ℕ
  pub tokens : ℕ
  pub session : String
  pub phase : String
  pub forward_id : ℕ
  pub request_id : ℕ
  pub source_pointer : String
  pub epoch : ℕ
  pub details : Value

-- `active`
pub record Active : Type 0 where
  pub forward : Forward
  pub rows : List Row

-- `request`
pub record Request : Type 0 where
  pub input : List ℕ
  pub max_tokens : ℕ
  pub prime : Bool
  pub request_id : ℕ
  pub source_pointer : String
  pub aborted : Bool
  pub initial_sizes : Dict String ℕ
  pub details : Value

-- an entry of `requests`
pub record Completed : Type 0 where
  pub request : Request
  pub output : List ℕ
  pub reused : ℕ
  pub result : Value

-- `last`
pub record Last : Type 0 where
  pub event : Value
  pub source_pointer : String
  pub monotonic_ns : ℕ

-- `terminal`
pub data Status : Type 0 where
  complete incomplete : Status

pub record State : Type 0 where
  pub rows : List Row
  pub committed : List Forward
  pub requests : List Completed
  pub request : Option Request
  pub active : Option Active
  pub request_id : ℕ
  pub forward_id : ℕ
  pub timestamp : ℕ
  pub header : Option Value
  pub terminal : Option Status
  pub last : Option Last
  pub aborted : ℕ
  pub epoch : ℕ
  pub states : Dict String (List ℕ)
  pub current_session : Option String

abbrev pub initial : State
initial = record {
  rows = [];
  committed = [];
  requests = [];
  request = none;
  active = none;
  request_id = 0;
  forward_id = 0;
  timestamp = 0;
  header = none;
  terminal = none;
  last = none;
  aborted = 0;
  epoch = 0;
  states = [];
  current_session = none;
}
