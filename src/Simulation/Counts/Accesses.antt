-- ===== src/Simulation/Counts/Accesses.antt =====
-- The counts of one access in `counts` of scripts/qwen/cache_simulation.py.
use zerocool.Prelude.{
  ℕ, zero, suc, ◌+◌, ◌*◌, ◌/◌, ◌<◌, ◌≡◌, refl, Bool, true, false, ◌||◌, List, [], ◌∷◌, arith, ok,
  item_inside, store_inside, length, get_or, set, length-set, sum_of, leb, Bool-cases, inl, inr,
}
use zerocool.Routes.Windows.{Span}
use zerocool.Simulation.Counts.{
  Tally, bump, skip_spans, first_span, count_layer, count_span, count_phase, layers, experts,
}

abbrev pub total_of : List ℕ → ℕ
total_of = sum_of (λ n. n)

-- the hits and misses of a tally
abbrev pub total : Tally → ℕ
total t = total_of t.hits + total_of t.misses

-- a count for each layer
pub record IsSized (t : Tally) : Type 0 where
  pub hits : length t.hits ≡ 48
  pub misses : length t.misses ≡ 48

total_of-set :
    (counts : List ℕ) (i : ℕ)
    → i < length counts
    → total_of (set counts i (get_or counts i 0 + 1)) ≡ total_of counts + 1
unfolding sum_of
total_of-set [] i inside = elim inside [ ]
total_of-set (n ∷ counts) zero inside = omega arith
total_of-set (n ∷ counts) (suc i) inside = omega (arith, total_of-set counts i (omega arith))

-- A layer's count goes up by one.
bump_inside :
    (counts : List ℕ) (i : ℕ)
    → i < length counts
    → (counts' : List ℕ) × (bump counts i ≡ ok counts')
      × (length counts' ≡ length counts)
      × (total_of counts' ≡ total_of counts + 1)
unfolding bump
bump_inside counts i inside = (
  set counts i (get_or counts i 0 + 1),
  rw (item_inside counts i 0 inside) (store_inside counts i (get_or counts i 0 + 1) inside),
  length-set counts i (get_or counts i 0 + 1),
  total_of-set counts i inside,
)

-- An access to an expert's key is counted once.
pub count_layer_inside :
    (hit : Bool) (key : ℕ) (t : Tally)
    → key < layers * experts
    → IsSized t
    → (t' : Tally) × (count_layer hit key t ≡ ok t') × IsSized t' × (total t' ≡ total t + 1)
unfolding count_layer
count_layer_inside true key t low v =
    let (hits, e, size, more) = bump_inside t.hits (key / experts) (omega (arith, low, v.hits)) in
    (
      record t { hits = hits },
      rw e refl,
      record { hits = omega (arith, size, v.hits); misses = v.misses },
      omega (arith, more),
    )
count_layer_inside false key t low v =
    let (misses, e, size, more) =
      bump_inside t.misses (key / experts) (omega (arith, low, v.misses)) in
    (
      record t { misses = misses },
      rw e refl,
      record { hits = v.hits; misses = omega (arith, size, v.misses) },
      omega (arith, more),
    )

-- some span ends at `n` or behind it
unfoldable pub reaches : ℕ → List Span → Bool
reaches n [] = false
reaches n (span ∷ spans) = leb n span.end || reaches n spans

-- Before such an end there is a span for every position.
skip_spans_inside :
    (n position : ℕ) (spans : List Span)
    → position < n
    → reaches n spans ≡ true
    → (span : Span) × (rest : List Span) × (skip_spans position spans ≡ ok (span ∷ rest))
      × (reaches n (span ∷ rest) ≡ true)
unfolding skip_spans reaches
skip_spans_inside n position [] before reached = cc
skip_spans_inside n position (span ∷ spans) before reached =
    elim (Bool-cases (leb span.end position)) [
      | inl passed ↦
          let (s, rest, e, r) =
            skip_spans_inside n position spans before (ground (arith, passed, before)) in
          (s, rest, rw passed e, r)
      | inr inside ↦ (span, spans, rw inside refl, reached)
    ]

pub count_span_inside :
    (spanned hit : Bool) (n position : ℕ) (spans : List Span) (t : Tally)
    → position < n
    → (spanned ≡ true → reaches n spans ≡ true)
    → IsSized t
    → (rest : List Span) × (t' : Tally) × (count_span spanned hit position spans t ≡ ok (rest, t'))
      × (spanned ≡ true → reaches n rest ≡ true)
      × IsSized t'
      × (total t' ≡ total t)
unfolding count_span first_span
count_span_inside false hit n position spans t before reached v = (spans, t, refl, reached, v, refl)
count_span_inside true hit n position spans t before reached v =
    let (span, rest, e, r) = skip_spans_inside n position spans before (reached refl) in
    (
      span ∷ rest,
      record t { phases = count_phase hit span t.phases },
      rw e refl,
      λ u. r,
      record { hits = v.hits; misses = v.misses },
      refl,
    )
