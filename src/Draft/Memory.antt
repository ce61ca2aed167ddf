-- ===== src/Draft/Memory.antt =====
-- The processes that `memory_observation` of scripts/qwen/perfect_draft.py looks at, and what it
-- says of them. Its check of the two hosts is clean_hosts of Observe.antt.
use zerocool.Prelude.{
  ℕ, ◌*◌, ◌^◌, max, Bool, ◌&&◌, List, [], ◌∷◌, ◌++◌, map, String, ◌==◌, nat_eq, ltb, leb, length,
  Result, ok, ◌>>=◌, ◌>>◌, require, all, sorted_set,
}
use zerocool.Json.{Value, at, iterate, are_uint, number}

-- BUDGET
abbrev pub budget : ℕ
budget = 12 * 1024 ^ 3

unfoldable pub block_values : List Value → Result (List Value)
block_values [] = ok []
block_values (block ∷ blocks) = do
  before ← at "memory_before" block
  after ← at "memory_after" block
  rest ← block_values blocks
  ok (before ∷ after ∷ rest)

-- `values`
unfoldable pub observed : Value → Result (List Value)
observed raw = do
  before ← at "before" raw
  first ← at "process" before
  value ← at "blocks" raw
  blocks ← iterate value
  between ← block_values blocks
  after ← at "after" raw
  last ← at "process" after
  destroyed ← at "process_after_destroy" raw
  ok (first ∷ between ++ last ∷ destroyed ∷ [])

abbrev process_fields : List String
process_fields =
    "physical_footprint_bytes" ∷ "physical_footprint_peak_bytes" ∷ "compressed_bytes"
    ∷ "compressed_peak_bytes" ∷ "decompressions" ∷ "system_swap_used_bytes" ∷ []

-- the numbers of a process
pub record Process : Type 0 where
  pub footprint : ℕ
  pub footprint_peak : ℕ
  pub compressed : ℕ
  pub compressed_peak : ℕ
  pub decompressions : ℕ
  pub swap_used : ℕ

unfoldable pub process_of : Value → Result Process
process_of v = do
  counted ← are_uint process_fields v
  require counted "Missing memory observations"
  footprint ← at "physical_footprint_bytes" v
  footprint_peak ← at "physical_footprint_peak_bytes" v
  compressed ← at "compressed_bytes" v
  compressed_peak ← at "compressed_peak_bytes" v
  decompressions ← at "decompressions" v
  swap_used ← at "system_swap_used_bytes" v
  ok (record {
    footprint = number footprint;
    footprint_peak = number footprint_peak;
    compressed = number compressed;
    compressed_peak = number compressed_peak;
    decompressions = number decompressions;
    swap_used = number swap_used;
  })

unfoldable pub processes : List Value → Result (List Process)
processes [] = ok []
processes (v ∷ vs) = do p ← process_of v; ps ← processes vs; ok (p ∷ ps)

-- the footprint is there, and within its peak and the budget
abbrev pub is_inside : Process → Bool
is_inside p =
    ltb 0 p.footprint
    && leb p.footprint p.footprint_peak
    && leb p.footprint_peak budget
    && leb p.compressed p.compressed_peak

abbrev pub is_clean : Process → Bool
is_clean p = p.compressed == 0 && p.compressed_peak == 0

-- `max(f(x) for x in xs)`, for numbers
unfoldable pub largest : (Process → ℕ) → List Process → ℕ
largest f [] = 0
largest f (p ∷ ps) = max (f p) (largest f ps)

-- the memory part of the answer
pub record Memory : Type 0 where
  pub clean_memory : Bool
  pub peak_physical_bytes : ℕ
  pub peak_compressed_bytes : ℕ
  pub swap_observations_bytes : List ℕ

unfoldable pub memory_observation : Value → Result Memory
memory_observation raw = do
  values ← observed raw
  ps ← processes values
  require (all is_inside ps) "Invalid or excessive process footprint"
  ok (record {
    clean_memory =
        all is_clean ps
        && length (sorted_set (map (λ p. p.decompressions) ps)) == 1
        && length (sorted_set (map (λ p. p.swap_used) ps)) == 1;
    peak_physical_bytes = largest (λ p. p.footprint_peak) ps;
    peak_compressed_bytes = largest (λ p. p.compressed_peak) ps;
    swap_observations_bytes = map (λ p. p.swap_used) ps;
  })
