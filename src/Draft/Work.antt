-- ===== src/Draft/Work.antt =====
-- `configuration`, `valid_work` and `check_prime_reference` of scripts/qwen/perfect_draft.py, and
-- valid_sha256 of native_q4_replay.py.
use Prim.Native.Char.{code}
use Prim.Native.String.{count}
use zerocool.Prelude.{
  ℕ, Bool, true, false, not, ◌&&◌, ◌||◌, List, [], ◌∷◌, String, ◌==◌, nat_eq, leb, length, Result,
  ok, raise, index_error, ◌>>=◌, ◌>>◌, require, all, take,
}
use zerocool.Json.{
  Value, int, str, list, object, end, field, at, get_key, iterate, is_set_of, is_between, is_null,
  same, number, numbers, as_items,
}

abbrev is_hex_digit : ℕ → Bool
is_hex_digit c = (leb b'0' c && leb c b'9') || (leb b'a' c && leb c b'f')

abbrev all_hex : String → Bool
all_hex String.[] = true
all_hex (String.◌∷◌ c s) = is_hex_digit (code c) && all_hex s

-- `valid_sha256`
unfoldable pub valid_sha256 : Value → Bool
valid_sha256 (str s) = count s == 64 && all_hex s
valid_sha256 _ = false

-- `configuration`, at a width and a number of slots
unfoldable pub configuration : ℕ → Value → Result Value
configuration width expert_slots = do
  require (width == 1 || width == 2 || width == 4) "Unsupported verification width"
  require (is_between 1072 1072 expert_slots || is_between 1460 1460 expert_slots)
      "Unsupported fixed expert capacity"
  ok (
      object (
        field "memory_bytes" (int 12884901888) (
          field "context" (int 8192) (
            field "expert_slots" expert_slots (
              field "artifact" (str "mixed-4_8bit") (
                field "q4_decode" (str "reference") (
                  field "q8_decode_rows" (int 2) (
                    field "route_selection" (str "simd") (
                      field "residency" (str "core-cache") (
                        field "decode_scratch" (str "reuse") (
                          field "token_tile" (int width) (
                            field "cache_policy" (str "clock") (
                              field "ready_group" (int 4) (
                                field "io_workers" (int 8) (
                                  field "panel" (int 512) (
                                    field "chunk" (int 128) (
                                      field "decode_submission" (str "immediate")
                                        end)))))))))))))))))

abbrev pub vocab : ℕ
vocab = 248320

-- the lists of a work that is valid
pub record Work : Type 0 where
  pub prompt_ids : List ℕ
  pub continuation_ids : List ℕ
  pub expected_next_ids : List ℕ
  pub expected_prompt_id : ℕ

abbrev pub work_keys : List Value
work_keys =
    str "prompt_ids"
    ∷ str "continuation_ids"
    ∷ str "expected_next_ids"
    ∷ str "expected_prompt_id"
    ∷ []

-- `all(type(v) is int and 0 <= v < VOCAB for v in vs)`
abbrev pub are_tokens : List Value → Bool
are_tokens vs = all (λ v. is_between 0 248319 v) vs

-- `vs[0]`
abbrev pub first_of : List Value → Result Value
first_of [] = raise index_error
first_of (v ∷ vs) = ok v

abbrev pub rest_of : List Value → List Value
rest_of [] = []
rest_of (v ∷ vs) = vs

-- a list under a key, of a length
unfoldable pub ids : String → ℕ → Value → Result (List Value)
ids k n work = do
  value ← at k work
  vs ← iterate value
  require (length vs == n) "Invalid or inconsistent fixed continuation"
  ok vs

-- `valid_work`, which gives the work that it has checked. A continuation that is a text fails at its
-- tokens.
unfoldable pub valid_work : Value → Result Work
valid_work work = do
  named ← is_set_of work_keys work
  require named "Invalid or inconsistent fixed continuation"
  prompt ← ids "prompt_ids" 72 work
  continuation ← ids "continuation_ids" 16 work
  next ← ids "expected_next_ids" 16 work
  require (are_tokens prompt && are_tokens continuation && are_tokens next)
      "Invalid or inconsistent fixed continuation"
  expected ← at "expected_prompt_id" work
  first ← first_of continuation
  require
      (same expected first
        && same (list (as_items (rest_of continuation))) (list (as_items (take 15 next))))
      "Invalid or inconsistent fixed continuation"
  ok (record {
    prompt_ids = numbers prompt;
    continuation_ids = numbers continuation;
    expected_next_ids = numbers next;
    expected_prompt_id = number first;
  })

-- one round of `check_prime_reference`
unfoldable pub check_same : String → Value → Value → Result (Unit {0})
check_same k prime reference = do
  a ← get_key k prime
  b ← get_key k reference
  require (same a b && not (is_null a)) "Stable priming changed model outputs, state or routes"

unfoldable pub check_prime_reference : Value → Value → Result (Unit {0})
check_prime_reference prime reference = do
  check_same "logits_sha256" prime reference
  check_same "state" prime reference
  check_same "routes" prime reference
