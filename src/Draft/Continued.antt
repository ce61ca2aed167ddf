-- ===== src/Draft/Continued.antt =====
-- What `observe` of scripts/qwen/perfect_draft.py answers: the rows, the endpoints and the times of
-- the whole continuation.
use zerocool.Prelude.{
  ℕ, ◌+◌, ◌*◌, ◌/◌, ◌≤◌, ◌<◌, ◌≡◌, refl, sym, ◌∙◌, arith, Bool, true, ◌||◌, List, [], ◌∷◌, ◌==◌,
  nat_eq, nat_equal_iff, if◌then◌else◌, Result, ok, ◌>>=◌, require, require-true, sum_of, length,
  bind_inverse, ok_injective, ◌⊎◌, inl, inr, Bool-cases,
}
use mathlib.Core.Path.{subst}
use zerocool.Json.{Value, str, int, Fields, list, nil, at, get_default, is_true}
use zerocool.Json.Numbers.{has, counts, size_of, check-true, both_hold}
use zerocool.Draft.Work.{Work, configuration, valid_work}
use zerocool.Draft.Memory.{memory_observation}
use zerocool.Draft.Probe.{
  Probe, total_of, is_bit, check_scope, check_workspace, check_endpoints, read_prime,
}
use zerocool.Draft.Blocks.{Times, Loop, on_blocks}
use zerocool.Draft.Observe.{
  Answer, read_blocks, clean_hosts, answer_of, observe_blocks, check_end, observe,
}
use zerocool.Draft.Covered.{size_of-iterate, inner, consumed_of, marks_from, Grows, on_blocks-Grows}

-- the widths that are supported
abbrev pub IsWidth : ℕ → Type 0
IsWidth width = (width ≡ 1) ⊎ ((width ≡ 2) ⊎ (width ≡ 4))

configuration-IsWidth :
    (width : ℕ) (slots : Value) {c : Value} → configuration width slots ≡ ok c → IsWidth width
unfolding configuration
configuration-IsWidth width slots h =
    let known = width == 1 || width == 2 || width == 4 in
    let (_, passed, _) = bind_inverse (require known "Unsupported verification width") _ h in
    let holds : known ≡ true = require-true known _ passed in
    elim (Bool-cases (width == 1)) [
      | inl is_1 ↦ inl (ground (arith, is_1, nat_equal_iff width 1))
      | inr not_1 ↦ elim (Bool-cases (width == 2)) [
        | inl is_2 ↦ inr (inl (ground (arith, is_2, nat_equal_iff width 2)))
        | inr not_2 ↦ inr (inr (ground (arith, holds, not_1, not_2, nat_equal_iff width 4)))
      ]
    ]

pub check_scope-IsWidth :
    (raw frozen : Value) (width : ℕ) (validation : Bool) (input slots : Value) {u : Unit {0}}
    → check_scope raw frozen width validation input slots ≡ ok u
    → IsWidth width
unfolding check_scope
check_scope-IsWidth raw frozen width validation input slots h =
    let (_, h1) = both_hold (has "kind" (str "perfect_draft_probe_v1") raw) _ (check-true _ _ h) in
    let (_, h2) = both_hold (counts is_true "complete" raw) _ h1 in
    let (_, h3) = both_hold (has "prime_expert_schedule" (str "fixed-lease-batches-32") raw) _ h2 in
    let (_, h4) = both_hold (counts (is_bit validation) "validation" raw) _ h3 in
    let (_, h5) = both_hold (has "width" (int width) raw) _ h4 in
    let (_, h6) = both_hold (has "verified_tokens" (int (total_of validation)) raw) _ h5 in
    let configured : Result Bool = (do c ← configuration width slots; has "configuration" c raw) in
    let (h7, _) = both_hold configured _ h6 in
    let (c, made, _) = bind_inverse (configuration width slots) _ h7 in
    configuration-IsWidth width slots made

-- the tokens behind which a run leaves an endpoint: those of its blocks where it validates, and
-- each fourth token where it is timed
abbrev pub marks : Bool → ℕ → List ℕ
marks validation width =
    if validation
    then if width == 1 then 1 ∷ 2 ∷ 3 ∷ 4 ∷ [] else if width == 2 then 2 ∷ 4 ∷ [] else 4 ∷ []
    else 4 ∷ 8 ∷ 12 ∷ 16 ∷ []

-- the blocks at a width leave these endpoints, and make up the total
abbrev pub AreAll : Bool → ℕ → Type 0
AreAll validation width =
    (marks_from validation width 0 (total_of validation / width) ≡ marks validation width)
    × (total_of validation / width * width ≡ total_of validation)
    × (0 < total_of validation / width)

pub AreAll-width : (validation : Bool) (width : ℕ) → IsWidth width → AreAll validation width
AreAll-width Bool.true width (inl h) = subst (AreAll Bool.true) (sym h) (refl, refl, omega arith)
AreAll-width Bool.false width (inl h) = subst (AreAll Bool.false) (sym h) (refl, refl, omega arith)
AreAll-width Bool.true width (inr (inl h)) =
    subst (AreAll Bool.true) (sym h) (refl, refl, omega arith)
AreAll-width Bool.false width (inr (inl h)) =
    subst (AreAll Bool.false) (sym h) (refl, refl, omega arith)
AreAll-width Bool.true width (inr (inr h)) =
    subst (AreAll Bool.true) (sym h) (refl, refl, omega arith)
AreAll-width Bool.false width (inr (inr h)) =
    subst (AreAll Bool.false) (sym h) (refl, refl, omega arith)

sum-inner :
    (ts : List Times)
    → sum_of inner ts
      ≡ sum_of (λ t. t.checkpoint) ts + sum_of (λ t. t.forward) ts + sum_of (λ t. t.accept) ts
unfolding sum_of
sum-inner [] = omega arith
sum-inner (t ∷ ts) = omega (arith, sum-inner ts)

pub read_blocks-length :
    (raw : Value) (rounds : ℕ) {blocks : List Value}
    → read_blocks raw rounds ≡ ok blocks
    → length blocks ≡ rounds
unfolding read_blocks
read_blocks-length raw rounds h0 =
    let (value, _, h1) = bind_inverse (get_default "blocks" (list nil) raw) _ h0 in
    let (n, counted, h2) = bind_inverse (size_of value) _ h1 in
    let (_, passed, h3) =
      bind_inverse (require (n == rounds) "Missing or duplicated verification block") _ h2 in
    let size = size_of-iterate value counted h3 in
    ground (arith, size, require-true (n == rounds) _ passed, nat_equal_iff n rounds)

-- the answer is of the whole continuation
abbrev pub IsContinued : Bool → ℕ → Answer → Type 0
IsContinued validation width a =
    (length a.observed.row_logits ≡ a.observed.verified_tokens)
    × (consumed_of a.observed.endpoints ≡ marks validation width)
    × (a.checkpoint_ns + a.forward_ns + a.accept_ns ≤ a.decode_wall_ns)
    × (0 < a.decode_wall_ns)

answer_of-IsContinued :
    (probe : Probe) (raw : Value) (width : ℕ) (validation : Bool) (prime : Value) (s : Loop)
    {a : Answer}
    → answer_of probe raw width validation prime s ≡ ok a
    → length s.hashes ≡ total_of validation
    → consumed_of s.endpoints ≡ marks validation width
    → sum_of inner s.times ≤ s.wall
    → 0 < s.wall
    → IsContinued validation width a
unfolding answer_of
answer_of-IsContinued probe raw width validation prime s h0 hashes left fits positive =
    let (_, _, h1) = bind_inverse (memory_observation raw) _ h0 in
    let (_, _, h2) = bind_inverse (clean_hosts probe raw) _ h1 in
    let (_, _, h3) = bind_inverse (at "snapshot_allocated_bytes" raw) _ h2 in
    let (_, _, h4) = bind_inverse (at "host_logits_bound_bytes" raw) _ h3 in
    let (_, _, h5) = bind_inverse (at "setup_ns" raw) _ h4 in
    let (_, _, h6) = bind_inverse (at "rollback_checks" raw) _ h5 in
    subst (IsContinued validation width) (ok_injective h6)
      (hashes, left, omega (arith, sum-inner s.times, fits), positive)

observe_blocks-Grows :
    (raw : Value) (work : Work) (revision : Value) (width : ℕ) (validation : Bool)
    {p : List Value × Loop}
    → observe_blocks raw work revision width validation ≡ ok p
    → Grows validation width 0
        (total_of validation / width)
        (record { hashes = []; endpoints = []; wall = 0; times = [] })
        p.1
unfolding observe_blocks
observe_blocks-Grows raw work revision width validation h0 =
    let rounds = total_of validation / width in
    let start : Loop = record { hashes = []; endpoints = []; wall = 0; times = [] } in
    let (blocks, found, h1) = bind_inverse (read_blocks raw rounds) _ h0 in
    let (s, looped, h2) =
      bind_inverse (on_blocks work revision validation width 0 blocks start) _ h1 in
    let grown = on_blocks-Grows work revision validation width 0 blocks start looped in
    subst (λ p. Grows validation width 0 rounds start p.1) (ok_injective h2)
      (subst (λ n. Grows validation width 0 n start s) (read_blocks-length raw rounds found) grown)

Grows-IsContinued :
    (probe : Probe) (raw : Value) (width : ℕ) (validation : Bool) (prime : Value) (s : Loop)
    {a : Answer}
    → answer_of probe raw width validation prime s ≡ ok a
    → IsWidth width
    → Grows validation width 0
        (total_of validation / width)
        (record { hashes = []; endpoints = []; wall = 0; times = [] })
        s
    → IsContinued validation width a
unfolding sum_of
Grows-IsContinued probe raw width validation prime s h is_width grown =
    let (left, all_rows, some_blocks) = AreAll-width validation width is_width in
    answer_of-IsContinued probe raw width validation prime s h
      (omega (arith, grown.hashes, all_rows)) (grown.marks ∙ left) (omega (arith, grown.times))
      (omega (arith, grown.wall, some_blocks))

-- Where `observe` answers, its answer has a hash for each verified token, endpoints behind each
-- block of a validation and each fourth token of a timed run, whatever the width, and a wall time
-- that is not 0 and holds the checkpoints, the forwards and the acceptances.
pub observe-IsContinued :
    (probe : Probe) (config : Fields) (raw frozen given : Value) (width : ℕ) (validation : Bool)
    (input slots : Value) {a : Answer}
    → observe probe config raw frozen given width validation input slots ≡ ok a
    → IsContinued validation width a
unfolding observe
observe-IsContinued probe config raw frozen given width validation input slots h0 =
    let (work, _, h1) = bind_inverse (valid_work given) _ h0 in
    let (_, scoped, h2) = bind_inverse (check_scope raw frozen width validation input slots) _ h1 in
    let (plan, _, h3) = bind_inverse (at "memory_plan" raw) _ h2 in
    let (_, _, h4) = bind_inverse (check_workspace probe raw plan slots) _ h3 in
    let (_, _, h5) = bind_inverse (check_endpoints probe raw frozen config plan width) _ h4 in
    let (revision, _, h6) = bind_inverse (at "artifact_revision" frozen) _ h5 in
    let (prime, _, h7) = bind_inverse (read_prime probe raw work revision) _ h6 in
    let (p, blocks, h8) = bind_inverse (observe_blocks raw work revision width validation) _ h7 in
    let (_, _, h9) = bind_inverse (check_end probe raw width validation p.0 p.1.wall) _ h8 in
    Grows-IsContinued probe raw width validation prime p.1 h9
      (check_scope-IsWidth raw frozen width validation input slots scoped)
      (observe_blocks-Grows raw work revision width validation blocks)
