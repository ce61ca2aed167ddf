-- ===== src/Draft/State.antt =====
-- `check_state` and `check_routes` of scripts/qwen/perfect_draft.py.
use zerocool.Prelude.{
  ℕ, zero, suc, ◌+◌, ◌-◌, ◌%◌, Bool, true, false, not, ◌&&◌, ◌||◌, List, [], ◌∷◌, ◌++◌, map, ◌==◌,
  nat_eq, if◌then◌else◌, ltb, length, Result, ok, ◌>>=◌, ◌>>◌, require, take, drop,
}
use zerocool.Json.{
  Value, null, int, list, nil, as_items, at, get_key, get_default, iterate, is_object, is_list,
  is_null, is_true, is_uint, elements, number, same,
}
use zerocool.Draft.Work.{Work, valid_sha256}

-- `b is None or (isinstance(b, dict) and ...)`
unfoldable pub is_buffer : Value → Result Bool
is_buffer null = ok true
is_buffer b =
    if is_object b
    then (do
      bytes ← get_key "bytes" b
      hash ← get_key "sha256" b
      ok (is_uint bytes && ltb 0 (number bytes) && valid_sha256 hash))
    else ok false

unfoldable pub are_buffers : List Value → Result Bool
are_buffers [] = ok true
are_buffers (b ∷ bs) = do good ← is_buffer b; if good then are_buffers bs else ok false

-- `b['bytes'] if b else None`, for buffers that are checked
unfoldable pub bytes_of : Value → Result Value
bytes_of null = ok null
bytes_of b = at "bytes" b

unfoldable pub all_bytes : List Value → Result (List Value)
all_bytes [] = ok []
all_bytes (b ∷ bs) = do v ← bytes_of b; vs ← all_bytes bs; ok (v ∷ vs)

-- `expected`: two recurrent buffers, or three of attention in each fourth layer, and the state of
-- the ngrams in the second layer
unfoldable pub expected_bytes : ℕ → List Value
expected_bytes index =
    let last = if index == 1 then int 368640 else null in
    if (index + 1) % 4 == 0
    then null ∷ null ∷ int 16777216 ∷ int 16777216 ∷ int 4194304 ∷ last ∷ []
    else int 122880 ∷ int 3145728 ∷ null ∷ null ∷ null ∷ last ∷ []

-- `any(buffers)`, for buffers that are null or dicts with entries
abbrev pub any_there : List Value → Bool
any_there [] = false
any_there (b ∷ bs) = not (is_null b) || any_there bs

-- a round of the loop over the layers
unfoldable pub check_layer : ℕ → ℕ → Value → Result (Unit {0})
check_layer position index layer = do
  value ← get_default "buffers" (list nil) layer
  at_position ← get_key "position" layer
  require (same at_position (int position)) "Missing layer state or invalid buffer identity"
  buffers ← iterate value
  require (length buffers == 6 && any_there buffers)
      "Missing layer state or invalid buffer identity"
  good ← are_buffers buffers
  require good "Missing layer state or invalid buffer identity"
  sizes ← all_bytes buffers
  require (same (list (as_items sizes)) (list (as_items (expected_bytes index))))
      "Missing or changed persistent state buffer geometry"

unfoldable pub check_layers : ℕ → ℕ → List Value → Result (Unit {0})
check_layers position index [] = ok tt
check_layers position index (layer ∷ layers) = do
  check_layer position index layer
  check_layers position (suc index) layers

-- `history[-2:]`
abbrev pub last_two : List ℕ → List ℕ
last_two xs = drop (length xs - 2) xs

unfoldable pub check_state : Value → Work → ℕ → Value → Result (Unit {0})
check_state state work consumed revision = do
  require (is_object state) "Incomplete persistent state or changed token/ngram history"
  recorded ← get_key "artifact_revision" state
  valid ← get_key "valid" state
  tokens ← get_key "tokens" state
  history ← get_key "history" state
  let expected = last_two (work.prompt_ids ++ take consumed work.continuation_ids)
  require
      (same recorded revision
        && is_true valid
        && same tokens (int (72 + consumed))
        && same history (list (as_items (map (λ t. int t) expected))))
      "Incomplete persistent state or changed token/ngram history"
  value ← get_default "layers" (list nil) state
  layers ← iterate value
  require (length layers == 48) "Incomplete persistent state or changed token/ngram history"
  check_layers (72 + consumed) 0 layers

unfoldable pub row_layers : List Value → Result (List Value)
row_layers [] = ok []
row_layers (row ∷ rows) = do layer ← get_key "layer" row; rest ← row_layers rows; ok (layer ∷ rest)

-- `list(range(n))`, from an index on
abbrev range_from : ℕ → ℕ → List Value
range_from index zero = []
range_from index (suc n) = int index ∷ range_from (suc index) n

unfoldable pub are_rows : ℕ → List Value → Result Bool
are_rows tokens [] = ok true
are_rows tokens (row ∷ rows) = do
  counted ← get_key "tokens" row
  hash ← get_key "sha256" row
  if same counted (int tokens) && valid_sha256 hash then are_rows tokens rows else ok false

unfoldable pub check_routes : Value → ℕ → Result (Unit {0})
check_routes routes consumed = do
  require (is_list routes && length (elements routes) == 48)
      "Missing full-layer routed-expert identity"
  indices ← row_layers (elements routes)
  require (same (list (as_items indices)) (list (as_items (range_from 0 48))))
      "Missing full-layer routed-expert identity"
  good ← are_rows (72 + consumed) (elements routes)
  require good "Missing full-layer routed-expert identity"
