-- ===== src/Timeline/Experts.antt =====
-- The expert records of a token in `summarize` of scripts/qwen/decode_timeline.py.
use zerocool.Prelude.{
  ℕ, suc, ◌+◌, max, Bool, ◌&&◌, ◌||◌, Option, none, some, List, [], ◌∷◌, ◌++◌, map, String, ◌==◌,
  nat_eq, if◌then◌else◌, leb, length, Result, ok, raise, value_error, type_error, ◌>>=◌, ◌>>◌,
  require,
}
use zerocool.Json.{
  Value, int, bool, negative, float, as_items, at, iterate, bit, same_items, is_text, are_hashable,
  is_member,
}
use zerocool.Json.Numbers.{◌&?◌, check}
use zerocool.Dict.{Dict, get, put}
use zerocool.Arrivals.Events.{equal_number}
use zerocool.Timeline.{Interval, gpu_idle_pending_read, gpu_idle_ready_expert}
use zerocool.Timeline.Groups.{Clock, ns, ns_at, Group, group_at}

-- a number at its place in a list that rises
unfoldable pub insert_sorted : ℕ → List ℕ → List ℕ
insert_sorted n [] = n ∷ []
insert_sorted n (m ∷ ms) = let rest = insert_sorted n ms in if leb n m then n ∷ m ∷ ms else m ∷ rest

abbrev pub sort_numbers : List ℕ → List ℕ
sort_numbers [] = []
sort_numbers (n ∷ ns) = insert_sorted n (sort_numbers ns)

-- the natural numbers of a list, if all of it are
unfoldable pub all_numbers : List Value → Option (List ℕ)
all_numbers [] = some []
all_numbers (int n ∷ vs) = elim (all_numbers vs) [ none ↦ none | some ns ↦ some (n ∷ ns) ]
all_numbers (v ∷ vs) = none

-- `sorted(vs)`
unfoldable pub sorted : Clock → List Value → Result (List Value)
sorted clock vs = elim (all_numbers vs) [
  | none ↦ clock.sort vs
  | some ns ↦ ok (map int (sort_numbers ns))
]

abbrev pub same_values : List Value → List Value → Bool
same_values vs ws = same_items (as_items vs) (as_items ws)

-- `[d[k] for d in ds]`
unfoldable pub all_at : String → List Value → Result (List Value)
all_at k [] = ok []
all_at k (d ∷ ds) = do v ← at k d; vs ← all_at k ds; ok (v ∷ vs)

-- `len(set(vs))`
unfoldable pub distinct_count : List Value → ℕ
distinct_count [] = 0
distinct_count (v ∷ vs) = let rest = distinct_count vs in if is_member v vs then rest else suc rest

-- the records are those of the ten routes
unfoldable pub check_routes : Clock → List Value → Value → Result (Unit {0})
check_routes clock records route_list =
    check
      (ok (length records == 10)
        &? (do
          routes ← iterate route_list
          if are_hashable routes then ok (distinct_count routes == 10) else raise type_error)
        &? (do
          experts ← all_at "expert" records
          left ← sorted clock experts
          routes ← iterate route_list
          right ← sorted clock routes
          ok (same_values left right)))
      "Incomplete selected-expert coverage"

-- the five times of a record, with when it is ready
pub record Expert : Type 0 where
  pub admitted : ℕ
  pub ready : ℕ
  pub encoded : ℕ
  pub submitted : ℕ
  pub released : ℕ

-- the variables of the loops over the passes and their records
pub record Token : Type 0 where
  pub extra : List Interval
  pub last_experts : Dict ℕ ℕ
  pub read_bytes : ℕ

-- the record lies in its token, in order
abbrev pub is_owned : ℕ → ℕ → Expert → Bool
is_owned begin end e =
    leb begin e.admitted
    && leb e.admitted e.encoded
    && leb e.encoded e.submitted
    && leb e.submitted e.released
    && leb e.released end

-- `by_submit[submitted]`, for data that is ready before its encoding
unfoldable pub user_of : List Group → Expert → Result Group
user_of groups e =
    if leb e.ready e.encoded
    then elim (group_at e.submitted groups) [
      | none ↦ raise (value_error "Data not ready or missing GPU user")
      | some g ↦ ok g
    ]
    else raise (value_error "Data not ready or missing GPU user")

abbrev pub is_known : Value → Bool
is_known v = is_text "ready_hit" v || is_text "new_miss" v || is_text "loading_join" v

abbrev pub pending : Expert → Interval
pending e = record { kind = gpu_idle_pending_read; from = e.admitted; to = e.ready }

abbrev pub waiting : Expert → Interval
waiting e = record { kind = gpu_idle_ready_expert; from = e.ready; to = e.submitted }

abbrev pub last_at : ℕ → Dict ℕ ℕ → ℕ
last_at layer lasts = elim (get layer lasts) [ none ↦ 0 | some n ↦ n ]

-- the layer of a pass, which equals a number where the coverage was checked
abbrev pub layer_of : Value → ℕ
layer_of v = elim (equal_number v) [ none ↦ 0 | some n ↦ n ]

module _ (clock : Clock) where
  unfoldable pub read_expert : Value → Result Expert
  read_expert r = do
    admitted ← ns_at clock "admitted_ns" r
    completed ← ns_at clock "read_completed_ns" r
    encoded ← ns_at clock "encoded_ns" r
    submitted ← ns_at clock "submitted_ns" r
    released ← ns_at clock "released_ns" r
    ok (record {
      admitted = admitted;
      ready = max admitted completed;
      encoded = encoded;
      submitted = submitted;
      released = released;
    })

  -- `abs(v-n) <= 2`
  unfoldable pub is_near : ℕ → Value → Result Bool
  is_near n (int m) = ok (leb m (n + 2) && leb n (m + 2))
  is_near n (negative m) = ok (leb (m + 1 + n) 2)
  is_near n (bool b) = ok (leb (bit b) (n + 2) && leb n (bit b + 2))
  is_near n (float s) = ok (clock.is_near s n)
  is_near n _ = raise type_error

  unfoldable pub check_clocks : Value → Group → Result (Unit {0})
  check_clocks r g =
      check ((at "gpu_start_ns" r >>= is_near g.start) &? (at "gpu_end_ns" r >>= is_near g.end))
        "Expert and command clocks differ"

  unfoldable pub check_read : Value → Result (Unit {0})
  check_read r = do
    queued ← ns_at clock "read_queued_ns" r
    started ← ns_at clock "read_started_ns" r
    completed ← ns_at clock "read_completed_ns" r
    require (leb queued started && leb started completed) "Reversed read timing"

  -- what a record adds, by its acquisition
  unfoldable pub account : Value → Value → Expert → ℕ → ℕ → Token → Result Token
  account r acquisition e layer last t =
      if is_text "ready_hit" acquisition
      then ok (record {
        extra = t.extra ++ waiting e ∷ [];
        last_experts = put layer last t.last_experts;
        read_bytes = t.read_bytes;
      })
      else (do
        check_read r
        ok (record {
          extra = t.extra ++ pending e ∷ waiting e ∷ [];
          last_experts = put layer last t.last_experts;
          read_bytes = t.read_bytes + (if is_text "new_miss" acquisition then 2764800 else 0);
        }))

  -- a record, whose last use may be that of its layer
  unfoldable pub on_record : List Group → ℕ → ℕ → ℕ → Value → Token → Result Token
  on_record groups begin end layer r t = do
    e ← read_expert r
    require (is_owned begin end e) "Expert ownership lies outside its token or reverses"
    g ← user_of groups e
    check_clocks r g
    used ← ns_at clock "gpu_end_ns" r
    acquisition ← at "acquisition" r
    require (is_known acquisition) "Unknown acquisition"
    account r acquisition e layer (max (last_at layer t.last_experts) used) t

  unfoldable pub on_records : List Group → ℕ → ℕ → ℕ → List Value → Token → Result Token
  on_records groups begin end layer [] t = ok t
  on_records groups begin end layer (r ∷ rs) t = do
    t' ← on_record groups begin end layer r t
    on_records groups begin end layer rs t'

  unfoldable pub on_pass : List Group → ℕ → ℕ → Value → Token → Result Token
  on_pass groups begin end d t = do
    record_list ← at "records" d
    records ← iterate record_list
    route_list ← at "routes" d
    check_routes clock records route_list
    layer ← at "layer" d
    on_records groups begin end (layer_of layer) records
        (record t { last_experts = put (layer_of layer) 0 t.last_experts })

  unfoldable pub on_passes : List Group → ℕ → ℕ → List Value → Token → Result Token
  on_passes groups begin end [] t = ok t
  on_passes groups begin end (d ∷ passes) t = do
    t' ← on_pass groups begin end d t
    on_passes groups begin end passes t'
