-- ===== src/Replay/State.antt =====
-- The local variables of `decode` in scripts/qwen/block_cache_replay.py, and the tests that its
-- event handlers share.
use zerocool.Prelude.{
  ℕ, Bool, true, false, ◌&&◌, Option, none, some, List, [], ◌∷◌, String, ◌==◌, nat_eq, string_eq,
  leb, Result, ok, raise, value_error, require, ◌>>◌, replicate,
}
use zerocool.Replay.Cache.{Cache}
use zerocool.Replay.Coverage.{Phase, prefill, decode}
use zerocool.Replay.Events.{Request, RouteRow}

-- `active`, the forward under way
pub record Active : Type 0 where
  pub offset : ℕ
  pub tokens : ℕ
  pub phase : Phase
  pub layers : ℕ
  pub selected : List ℕ
  pub index : ℕ
  pub hits_before : ℕ
  pub misses_before : ℕ
  pub demands : List ℕ
  pub snapshots : ℕ

-- an entry of `forwards`
pub record Completed : Type 0 where
  pub offset : ℕ
  pub tokens : ℕ
  pub phase : Phase
  pub hits : ℕ
  pub misses : ℕ
  pub distinct_records : ℕ
  pub demands : List ℕ

-- an entry of `snapshots`
pub record Seen : Type 0 where
  pub hash : String
  pub hits : ℕ
  pub misses : ℕ

pub record State : Type 0 where
  pub cache : Cache
  pub forwards : List Completed
  pub active : Option Active
  pub pending_pin : Option ℕ
  pub snapshots : List Seen
  pub histories : List (List ℕ)
  pub requests : List Request
  pub max_pins : ℕ

-- the variables before the first event
abbrev pub initial : Cache → State
initial c = record {
  cache = c;
  forwards = [];
  active = none;
  pending_pin = none;
  snapshots = [];
  histories = replicate 48 [];
  requests = [];
  max_pins = 0;
}

-- `integer` of scripts/qwen/cache_simulation.py on a number; the message is its label
abbrev pub integer : ℕ → ℕ → ℕ → String → Result (Unit {0})
integer value minimum maximum label = require (leb minimum value && leb value maximum) label

-- `integer` on every number of a list
unfoldable pub integers : List ℕ → ℕ → ℕ → String → Result (Unit {0})
integers [] minimum maximum label = ok tt
integers (value ∷ values) minimum maximum label =
    integer value minimum maximum label >> integers values minimum maximum label

-- `require(active is not None, message)`, and then `active`
abbrev pub active_of : Option Active → String → Result Active
active_of none message = raise (value_error message)
active_of (some a) message = ok a

abbrev pub is_none {ℓ} : {A : Type ℓ} → Option A → Bool
is_none none = true
is_none (some a) = false

-- `key == pending`, where `pending` may be None
abbrev pub same_option : Option ℕ → Option ℕ → Bool
same_option none none = true
same_option (some n) (some m) = n == m
same_option _ _ = false

abbrev pub same_phase : Phase → Phase → Bool
same_phase prefill prefill = true
same_phase decode decode = true
same_phase _ _ = false

abbrev pub same_row : RouteRow → RouteRow → Bool
same_row r q = r.layer == q.layer && r.tokens == q.tokens && r.sha256 == q.sha256
