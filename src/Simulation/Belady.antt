-- ===== src/Simulation/Belady.antt =====
-- `Belady` of scripts/qwen/cache_simulation.py: the resident key whose next use is furthest goes.
-- The heap (heapq) is the list of its entries: which entry `heappop` returns does not depend on
-- how the heap lies in its list. An entry (-n, key) of the source is kept as (n, key).
pub mod Heap
pub mod Next
pub mod Evict
pub mod Access
mod Tests
use zerocool.Prelude.{
  ℕ, zero, suc, ◌+◌, ◌*◌, Bool, true, false, ◌&&◌, ◌||◌, not, Option, none, some, List, [], ◌∷◌,
  map, if◌then◌else◌, ◌==◌, nat_eq, ltb, length, is_some, Result, ok, raise, index_error, diverged,
  ◌>>=◌, item,
}
use Prim.Native.Nat.{max}
use zerocool.Dict.{Dict, get, put, delete}

abbrev pub Entry : Type 0
Entry = ℕ × ℕ

pub record Belady : Type 0 where
  pub capacity : ℕ
  pub next : List ℕ
  pub resident : Dict ℕ ℕ
  pub heap : List Entry

abbrev pub or_default : Option ℕ → ℕ → ℕ
or_default none d = d
or_default (some n) d = n

-- the loop of `__init__`, from the last access to the first: the next uses from position `i` on,
-- and `future`, the first position of every key there
unfoldable pub next_uses : ℕ → ℕ → List ℕ → List ℕ × Dict ℕ ℕ
next_uses i size [] = ([], [])
next_uses i size (key ∷ rest) =
    let (later, future) = next_uses (i + 1) size rest in
    (or_default (get key future) size ∷ later, put key i future)

-- `__init__`
unfoldable pub belady : ℕ → List ℕ → Belady
belady capacity sequence = record {
  capacity = capacity;
  next = (next_uses 0 (length sequence) sequence).0;
  resident = [];
  heap = [];
}

-- the order of the pairs (-n, key)
unfoldable pub before : Entry → Entry → Bool
before (n, k) (m, j) = ltb m n || (n == m && ltb k j)

-- the least entry of a list that is not empty, and the others
unfoldable pub extract : Entry → List Entry → Entry × List Entry
extract x [] = (x, [])
extract x (y ∷ ys) =
    let (least, rest) = extract y ys in if before least x then (least, x ∷ rest) else (x, y ∷ ys)

-- `heapq.heappop`
unfoldable pub heappop : List Entry → Result (Entry × List Entry)
heappop [] = raise index_error
heappop (x ∷ xs) = ok (extract x xs)

-- `self.resident.get(victim) == -negative_next`
unfoldable pub is_current : Dict ℕ ℕ → Entry → Bool
is_current resident (n, victim) = elim (get victim resident) [ none ↦ false | some m ↦ m == n ]

-- the `while True` of `access`: pop stale entries up to a current one, whose key goes
unfoldable pub evict : ℕ → Dict ℕ ℕ → List Entry → Result (Dict ℕ ℕ × List Entry)
evict zero resident heap = raise diverged
evict (suc fuel) resident heap = do
  (entry, rest) ← heappop heap
  elim (is_current resident entry) [
    | true ↦ do resident' ← delete entry.1 resident; ok (resident', rest)
    | false ↦ evict fuel resident rest
  ]

-- the heap of the resident entries alone
abbrev pub entries : Dict ℕ ℕ → List Entry
entries = map (λ e. (e.1, e.0))

-- the last step of `access`: the key's new entry, and a rebuilt heap where it has grown too long
unfoldable pub admit : Belady → ℕ → ℕ → Dict ℕ ℕ → List Entry → Belady
admit b key n resident heap =
    let resident' = put key n resident in
    let heap' = (n, key) ∷ heap in
    record b {
      resident = resident';
      heap = if ltb (2 * max 1 b.capacity) (length heap') then entries resident' else heap';
    }

-- the resident keys and the heap once there is room. One round more than the heap has entries is
-- fuel enough.
unfoldable pub make_room : Belady → Bool → Result (Dict ℕ ℕ × List Entry)
make_room b hit =
    if not hit && length b.resident == b.capacity
    then evict (suc (length b.heap)) b.resident b.heap
    else ok (b.resident, b.heap)

-- `access`: the new state, and whether the key was resident
unfoldable pub access : ℕ → ℕ → Belady → Result (Belady × Bool)
access key position b =
    let hit = is_some (get key b.resident) in
    if b.capacity == 0 then ok (b, false) else (do
      (resident, heap) ← make_room b hit
      n ← item b.next position
      ok (admit b key n resident heap, hit))
