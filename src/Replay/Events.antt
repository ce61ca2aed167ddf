-- ===== src/Replay/Events.antt =====
-- The events of a capture, as `decode` of scripts/qwen/block_cache_replay.py reads them from the
-- trace's lines, and what the capture is compared with. The source's -1 for no victim is `none`.
use zerocool.Prelude.{ℕ, Bool, Option, List, String}
use zerocool.Replay.Coverage.{Forward}

abbrev pub payload_bytes : ℕ
payload_bytes = 2764800

abbrev pub top_k : ℕ
top_k = 10

pub record LayerDetail : Type 0 where
  pub layer : ℕ
  pub offset : ℕ
  pub tokens : ℕ
  pub routes : List ℕ
  pub selected : List ℕ

pub record AcquireDetail : Type 0 where
  pub key : ℕ
  pub acquisition : ℕ
  pub slot : ℕ
  pub victim : Option ℕ

pub record LeaseDetail : Type 0 where
  pub key : ℕ
  pub pins : ℕ
  pub ready : Option Bool

-- a slot of a snapshot: its number, its key and its bit
pub record SlotState : Type 0 where
  pub slot : ℕ
  pub key : ℕ
  pub referenced : Bool

-- the fields of a snapshot that are not constant
pub record Snapshot : Type 0 where
  pub capacity : ℕ
  pub hand : ℕ
  pub slots : List (Option SlotState)

pub record Stats : Type 0 where
  pub hits : ℕ
  pub misses : ℕ
  pub evictions : ℕ
  pub application_read_bytes : ℕ
  pub ready_hits : ℕ
  pub loading_joins : ℕ
  pub layer_hits : List ℕ
  pub layer_misses : List ℕ
  pub diagnostic_cache_state : String

pub data Event : Type 0 where
  forward_begin : Forward → List ℕ → Event
  layer_boundary : LayerDetail → Event
  acquisition : AcquireDetail → Event
  pin release : LeaseDetail → Event
  snapshot : Snapshot → Stats → Event
  forward_end : ℕ → Event
  unknown : String → Event

-- an entry of `requests`
pub data Request : Type 0 where
  acquire_request : (key forward : ℕ) → Request
  lease_request : (released : Bool) (key forward : ℕ) → Request

-- a row of the routes that the native report has for a forward
pub record RouteRow : Type 0 where
  pub layer : ℕ
  pub tokens : ℕ
  pub sha256 : String

-- the cache's counters in the native report, before or after the decoding
pub record Report : Type 0 where
  pub hits : ℕ
  pub misses : ℕ
  pub application_read_bytes : ℕ
  pub diagnostic_cache_state : String

-- What `decode` compares the events with: the patterns and tokens of the workload, the routes of
-- the native report (of `prime`, then of the blocks), its counters before and after the decoding, and
-- the functions of other packages, `dumps`
-- (json), `digest` (hashlib) and `digest_routes` (hashlib on struct).
pub record Capture : Type 0 where
  pub capacity : ℕ
  pub patterns : List Forward
  pub tokens : List ℕ
  pub routes : List (List RouteRow)
  pub before : Report
  pub after : Report
  pub dumps : Snapshot → String
  pub digest : String → String
  pub digest_routes : List ℕ → String
