-- ===== src/Draft/Prefixes.antt =====
-- What `compare` of scripts/qwen/perfect_draft.py says of the endpoints of its candidate.
use zerocool.Prelude.{
  ℕ, ◌≡◌, refl, sym, ap, ◌∙◌, Bool, true, ◌&&◌, ◌||◌, Option, none, some, List, [], ◌∷◌, ◌++◌, ◌⊎◌,
  inl, inr, arith, ◌==◌, nat_eq, ok, bind_inverse, require, Bool-cases, all, String,
}
use zerocool.Dict.{Dict, get, put, get-put}
use zerocool.Json.{same}
use zerocool.Draft.Compare.{
  Endpoint, Observed, by_prefix, same_endpoint, matches, same_bool, same_rows, compare,
}

-- the endpoint stands in the list
abbrev pub Contains : Endpoint → List Endpoint → Type 0
Contains q ps = (before : List Endpoint) × (after : List Endpoint) × (ps ≡ before ++ q ∷ after)

-- each endpoint has one of the list that is equal to it
unfoldable pub AreMatched : List Endpoint → List Endpoint → Type 0
AreMatched references [] = Unit {0}
AreMatched references (p ∷ ps) =
    ((q : Endpoint) × Contains q references × (same_endpoint p q ≡ true)) × AreMatched references ps

some_injective : {p q : Endpoint} → some p ≡ some q → p ≡ q
some_injective h = cc

get-by_prefix :
    (k : ℕ) (ps : List Endpoint) (d : Dict ℕ Endpoint) {q : Endpoint}
    → get k (by_prefix ps d) ≡ some q
    → (get k d ≡ some q) ⊎ Contains q ps
unfolding by_prefix
get-by_prefix k [] d h = inl h
get-by_prefix k (p ∷ ps) d {q} h = elim (get-by_prefix k ps (put p.consumed p d) h) [
  | inl early ↦
      let stored = sym (get-put p.consumed k p d) ∙ early in
      elim (Bool-cases (p.consumed == k)) [
        | inl here ↦
            let p_is_q : p ≡ q = some_injective (rw here at stored) in
            inr ([], ps, ap (λ x. x ∷ ps) p_is_q)
        | inr there ↦ inl (rw there at stored)
      ]
  | inr (before, after, split) ↦ inr (p ∷ before, after, ap (λ xs. p ∷ xs) split)
]

matches-some :
    (p : Endpoint) (o : Option Endpoint)
    → matches p o ≡ true
    → (q : Endpoint) × (o ≡ some q) × (same_endpoint p q ≡ true)
matches-some p none h = cc
matches-some p (some q) h = (q, refl, h)

passed : (b : Bool) (message : String) {u : Unit {0}} → require b message ≡ ok u → b ≡ true
passed Bool.true message h = refl
passed Bool.false message h = cc

both : (a b : Bool) → (a && b) ≡ true → (a ≡ true) × (b ≡ true)
both a b h = ground (arith, h)

stored_or_none :
    (k : ℕ) (references : List Endpoint) {q : Endpoint}
    → (get k [] ≡ some q) ⊎ Contains q references
    → Contains q references
unfolding get
stored_or_none k references (inl none_there) = cc
stored_or_none k references (inr there) = there

all-AreMatched :
    (references ps : List Endpoint)
    → all (λ p. matches p (get p.consumed (by_prefix references []))) ps ≡ true
    → AreMatched references ps
unfolding all AreMatched
all-AreMatched references [] h = tt
all-AreMatched references (p ∷ ps) h =
    let prefixes = by_prefix references [] in
    let (first, rest) =
      both (matches p (get p.consumed prefixes))
        (all (λ p'. matches p' (get p'.consumed prefixes)) ps) h in
    let (q, found, equal) = matches-some p (get p.consumed prefixes) first in
    let there =
      stored_or_none p.consumed references (get-by_prefix p.consumed references [] found) in
    ((q, there, equal), all-AreMatched references ps rest)

-- Where `compare` accepts, each endpoint of the candidate has one of the reference at the same
-- prefix with an equal state and equal routes, and the rows of logits are equal.
pub compare-AreMatched :
    (reference candidate : Observed) {r : ℕ × ℕ}
    → compare reference candidate ≡ ok r
    → AreMatched reference.endpoints candidate.endpoints
      × (same_rows reference.row_logits candidate.row_logits ≡ true)
unfolding compare
compare-AreMatched reference candidate {r} h =
    let (u1, e1, h1) =
      bind_inverse
        (require
          (reference.width == 1
            && (candidate.width == 2 || candidate.width == 4)
            && same_bool reference.validation candidate.validation
            && reference.verified_tokens == candidate.verified_tokens)
          "Incompatible verifier comparison")
        _ h in
    let message : String = "Block verification changed prompt, row logits or reserved allocation" in
    let rows =
      same reference.prime candidate.prime && same_rows reference.row_logits candidate.row_logits in
    let snapshots = reference.snapshot_allocated_bytes == candidate.snapshot_allocated_bytes in
    let bounds = reference.host_logits_bound_bytes == candidate.host_logits_bound_bytes in
    let (u2, e2, h2) = bind_inverse (require (rows && snapshots && bounds) message) _ h1 in
    let prefixes = by_prefix reference.endpoints [] in
    let matched = all (λ p. matches p (get p.consumed prefixes)) candidate.endpoints in
    let (u3, e3, h3) =
      bind_inverse (require matched "Block verification changed persistent state or exact routes") _
        h2 in
    let prompt_rows =
      both rows snapshots (both (rows && snapshots) bounds (passed _ message e2)).0 in
    (
      all-AreMatched reference.endpoints candidate.endpoints (passed matched _ e3),
      (both (same reference.prime candidate.prime)
          (same_rows reference.row_logits candidate.row_logits) prompt_rows.0).1,
    )
