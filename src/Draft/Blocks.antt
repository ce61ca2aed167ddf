-- ===== src/Draft/Blocks.antt =====
-- The loop over the blocks in `observe` of scripts/qwen/perfect_draft.py.
use zerocool.Prelude.{
  ℕ, suc, ◌+◌, ◌*◌, ◌%◌, Bool, ◌&&◌, ◌||◌, List, [], ◌∷◌, ◌++◌, map, ◌==◌, nat_eq, if◌then◌else◌,
  ltb, leb, Result, ok, ◌>>=◌, ◌>>◌, require, take, drop, all,
}
use zerocool.Json.{
  Value, int, list, as_items, at, get_key, iterate, is_list, is_null, is_uint, number,
}
use zerocool.Json.Numbers.{◌&?◌, check, has, counts, size_of}
use zerocool.Draft.Work.{Work, valid_sha256}
use zerocool.Draft.State.{check_state, check_routes}
use zerocool.Draft.Compare.{Endpoint}

-- the four times of a block
pub record Times : Type 0 where
  pub checkpoint : ℕ
  pub forward : ℕ
  pub accept : ℕ
  pub wall : ℕ

-- the variables of the loop, with the times of the blocks so far
pub record Loop : Type 0 where
  pub hashes : List Value
  pub endpoints : List Endpoint
  pub wall : ℕ
  pub times : List Times

-- `[consumed:consumed+width]` of a list of tokens
abbrev pub tokens_at : ℕ → ℕ → List ℕ → Value
tokens_at consumed width ts = list (as_items (map int (take width (drop consumed ts))))

-- the block's logits are as many as its rows
unfoldable pub counts_rows : ℕ → Value → Result Bool
counts_rows width block = do rows ← at "logits_sha256" block; n ← size_of rows; ok (n == width)

unfoldable pub are_hashes : Value → Result Bool
are_hashes block = do
  rows ← at "logits_sha256" block
  hashes ← iterate rows
  ok (all valid_sha256 hashes)

unfoldable pub check_block : Work → ℕ → ℕ → Value → Result (Unit {0})
check_block work width consumed block =
    check
      (has "offset" (int (72 + consumed)) block
        &? has "input_tokens" (tokens_at consumed width work.continuation_ids) block
        &? has "next_ids" (tokens_at consumed width work.expected_next_ids) block
        &? counts is_list "logits_sha256" block
        &? counts_rows width block
        &? are_hashes block)
      "Incomplete token/logit/state/route coverage or greedy mismatch"

-- `checkpointed`
abbrev pub is_checkpointed : Bool → ℕ → ℕ → Bool
is_checkpointed validation width consumed = validation || (consumed + width) % 4 == 0

unfoldable pub check_point : Work → Value → Bool → ℕ → ℕ → Value → Result (Unit {0})
check_point work revision checkpointed width consumed block =
    if checkpointed
    then (do
      state ← at "state" block
      check_state state work (consumed + width) revision
      routes ← at "routes" block
      check_routes routes (consumed + width))
    else check (counts is_null "state" block &? counts is_null "routes" block)
        "Unplanned state/route scan between common timing boundaries"

abbrev pub are_times : ℕ → Times → Bool
are_times width t =
    ltb 0 t.forward
    && ltb 0 t.accept
    && leb (t.checkpoint + t.forward + t.accept) t.wall
    && (if width == 1 then t.checkpoint == 0 else ltb 0 t.checkpoint)

-- the four times, which are checked
unfoldable pub read_times : ℕ → Value → Result Times
read_times width block = do
  checkpoint ← get_key "checkpoint_ns" block
  forward ← get_key "forward_ns" block
  accept ← get_key "accept_ns" block
  wall ← get_key "wall_ns" block
  let t : Times = record {
    checkpoint = number checkpoint;
    forward = number forward;
    accept = number accept;
    wall = number wall;
  }
  require
      (is_uint checkpoint && is_uint forward && is_uint accept && is_uint wall && are_times width t)
      "Invalid or incomplete checkpoint/forward/acceptance timing"
  ok t

-- the endpoint of a block that is checkpointed
unfoldable pub endpoints_of : Bool → ℕ → Value → Result (List Endpoint)
endpoints_of checkpointed consumed block =
    if checkpointed
    then (do
      state ← at "state" block
      routes ← at "routes" block
      ok (record { consumed = consumed; state = state; routes = routes } ∷ []))
    else ok []

-- a round of the loop
unfoldable pub on_block : Work → Value → Bool → ℕ → ℕ → Value → Loop → Result Loop
on_block work revision validation width i block s = do
  let consumed = i * width
  check_block work width consumed block
  let checkpointed = is_checkpointed validation width consumed
  check_point work revision checkpointed width consumed block
  t ← read_times width block
  value ← at "logits_sha256" block
  rows ← iterate value
  added ← endpoints_of checkpointed (consumed + width) block
  ok (record {
    hashes = s.hashes ++ rows;
    endpoints = s.endpoints ++ added;
    wall = s.wall + t.wall;
    times = s.times ++ t ∷ [];
  })

unfoldable pub on_blocks : Work → Value → Bool → ℕ → ℕ → List Value → Loop → Result Loop
on_blocks work revision validation width i [] s = ok s
on_blocks work revision validation width i (block ∷ blocks) s = do
  s' ← on_block work revision validation width i block s
  on_blocks work revision validation width (suc i) blocks s'
