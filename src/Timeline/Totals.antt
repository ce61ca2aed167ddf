-- ===== src/Timeline/Totals.antt =====
-- The totals of `partition` of scripts/qwen/decode_timeline.py make up the whole time.
use zerocool.Prelude.{
  ℕ, zero, suc, ◌+◌, ◌-◌, ◌≤◌, ◌<◌, ◌≡◌, refl, true, false, List, [], ◌∷◌, map, arith, ◌==◌, nat_eq,
  nat_equal_iff, ltb, leb, get_or, set, length, replicate, ok, sum_of, sorted_set, insert_number,
  max, Bool-cases, inl, inr, not, ◌++◌, ◌∙◌, length-set, ◌&&◌,
}
use Prim.Native.Nat.{min}
use zerocool.Dict.{contains, contains-put}
use zerocool.Timeline.{
  Interval, Change, Events, changes_at, append_at, collect, current, walk, partition, place,
}

-- the times do not fall, from `previous` on
abbrev Rising : ℕ → List ℕ → Type 0
Rising previous [] = Unit {0}
Rising previous (at ∷ times) = (previous ≤ at) × Rising at times

-- the last time
abbrev last : ℕ → List ℕ → ℕ
last previous [] = previous
last previous (at ∷ times) = last at times

Rising-insert_number :
    (previous n : ℕ) (times : List ℕ)
    → previous ≤ n
    → Rising previous times
    → Rising previous (insert_number n times)
unfolding insert_number
Rising-insert_number previous n [] low rising = (low, tt)
Rising-insert_number previous n (at ∷ times) low rising = elim (Bool-cases (n == at)) [
  | inl same ↦ rw same rising
  | inr differs ↦ elim (Bool-cases (ltb n at)) [
    | inl less ↦ rw (differs, less) (low, (ground (arith, less), rising.1))
    | inr more ↦
        rw (differs, more)
          (rising.0, Rising-insert_number at n times (ground (arith, more, differs)) rising.1)
  ]
]

last-insert_number :
    (previous n : ℕ) (times : List ℕ)
    → previous ≤ n
    → Rising previous times
    → (n ≤ last previous (insert_number n times))
      × (last previous times ≤ last previous (insert_number n times))
      × (last previous (insert_number n times) ≤ max n (last previous times))
unfolding insert_number
last-insert_number previous n [] low rising = ground arith
last-insert_number previous n (at ∷ times) low rising = elim (Bool-cases (n == at)) [
  | inl same ↦ rw same (ground (arith, same, last_low at times rising.1))
  | inr differs ↦ elim (Bool-cases (ltb n at)) [
    | inl less ↦ rw (differs, less) (ground (arith, less, last_low at times rising.1))
    | inr more ↦
        rw (differs, more) (last-insert_number at n times (ground (arith, more, differs)) rising.1)
  ]
]
  where
    last_low : (p : ℕ) (ts : List ℕ) → Rising p ts → p ≤ last p ts
    last_low p [] r = omega arith
    last_low p (t ∷ ts) r = omega (arith, r.0, last_low t ts r.1)

sum-set :
    (totals : List ℕ) (i v : ℕ)
    → i < length totals
    → sum_of (λ t. t) (set totals i (get_or totals i 0 + v)) ≡ sum_of (λ t. t) totals + v
unfolding sum_of
sum-set [] i v inside = elim inside [ ]
sum-set (t ∷ totals) zero v inside = omega arith
sum-set (t ∷ totals) (suc i) v inside = omega (arith, sum-set totals i v (omega arith))

current_inside : (changes : List Change) → current changes < 6
unfolding current
current_inside changes = ground arith

-- The walk over rising times adds the time from the first to the last.
sum-walk :
    (events : Events) (times : List ℕ) (previous : ℕ) (changes : List Change) (totals : List ℕ)
    → Rising previous times
    → length totals ≡ 6
    → sum_of (λ t. t) (walk events times previous changes totals) + previous
      ≡ sum_of (λ t. t) totals + last previous times
unfolding walk
sum-walk events [] previous changes totals rising size = refl
sum-walk events (at ∷ times) previous changes totals rising size =
    let kind = current changes in
    let more = at - previous in
    let totals' = set totals kind (get_or totals kind 0 + more) in
    let added = sum-set totals kind more (omega (arith, current_inside changes, size)) in
    omega (
      arith,
      sum-walk events times at (changes ++ changes_at at events) totals' rising.1
          (length-set totals kind (get_or totals kind 0 + more) ∙ size),
      added,
      rising.0,
    )

-- every time with changes lies in the token's time
abbrev pub Inside : ℕ → ℕ → Events → Type 0
Inside begin end events = (k : ℕ) → contains k events ≡ true → (begin ≤ k) × (k ≤ end)

-- The sorted times of such changes rise from the begin on, up to the last of the times.
sorted_times :
    (begin end : ℕ) (events : Events)
    → begin ≤ end
    → Inside begin end events
    → Rising begin (sorted_set (map (λ e. e.0) events))
      × (last begin (sorted_set (map (λ e. e.0) events)) ≤ end)
      × ((k : ℕ) → contains k events ≡ true → k ≤ last begin (sorted_set (map (λ e. e.0) events)))
unfolding sorted_set contains
sorted_times begin end [] fits inside = (tt, fits, λ k there. cc)
sorted_times begin end ((at, changes) ∷ events) fits inside =
    let (rising, most, reached) =
      sorted_times begin end events fits (λ k there. inside k (ground (arith, there))) in
    let here = inside at (ground (arith, nat_equal_iff at at)) in
    let (own, later, bound) =
      last-insert_number begin at (sorted_set (map (λ e. e.0) events)) here.0 rising in
    (
      Rising-insert_number begin at (sorted_set (map (λ e. e.0) events)) here.0 rising,
      omega (arith, bound, most, here.1),
      λ k there. elim (Bool-cases (at == k)) [
        | inl same ↦ ground (arith, nat_equal_iff at k, own)
        | inr differs ↦ ground (arith, differs, reached k, later)
      ],
    )

Inside-append_at :
    (begin end at : ℕ) (change : Change) (events : Events)
    → begin ≤ at
    → at ≤ end
    → Inside begin end events
    → Inside begin end (append_at at change events)
unfolding append_at
Inside-append_at begin end at change events low high inside k there = elim (Bool-cases (at == k)) [
  | inl same ↦ ground (arith, nat_equal_iff at k)
  | inr differs ↦
      inside k
        (ground (arith, differs, contains-put at k (changes_at at events ++ change ∷ []) events))
]

contains-append_at :
    (at k : ℕ) (change : Change) (events : Events)
    → contains k events ≡ true
    → contains k (append_at at change events) ≡ true
unfolding append_at
contains-append_at at k change events there =
    ground (arith, contains-put at k (changes_at at events ++ change ∷ []) events)

-- the intervals that `partition` takes: of a kind but the last, and not reversed
abbrev pub AllValid : List Interval → Type 0
AllValid [] = Unit {0}
AllValid (v ∷ intervals) = ((place v.kind < 5) × (v.from ≤ v.to)) × AllValid intervals

collect-Inside :
    (begin end : ℕ) (intervals : List Interval) (events : Events)
    → AllValid intervals
    → Inside begin end events
    → contains end events ≡ true
    → (events' : Events) × (collect begin end intervals events ≡ ok events')
      × Inside begin end events'
      × (contains end events' ≡ true)
unfolding collect
collect-Inside begin end [] events valid inside closed = (events, refl, inside, closed)
collect-Inside begin end (v ∷ intervals) events valid inside closed =
    let passes : (not (place v.kind == 5) && leb v.from v.to) ≡ true = ground (arith, valid.0) in
    let a = max begin v.from in
    let b = min end v.to in
    let events' = append_at b (v.kind, false) (append_at a (v.kind, true) events) in
    elim (Bool-cases (ltb a b)) [
      | inl holds ↦
          rw (passes, holds)
            (collect-Inside begin end intervals events' valid.1
              (Inside-append_at begin end b (v.kind, false) _ (ground (arith, holds)) (omega arith)
                (Inside-append_at begin end a (v.kind, true) events (omega arith)
                  (ground (arith, holds)) inside))
              (contains-append_at b end (v.kind, false) _
                (contains-append_at a end (v.kind, true) events closed)))
      | inr empty ↦
          rw (passes, empty) (collect-Inside begin end intervals events valid.1 inside closed)
    ]

start : (begin end : ℕ) → begin < end → Inside begin end ((begin, []) ∷ (end, []) ∷ [])
unfolding contains
start begin end fits k there = elim (Bool-cases (begin == k)) [
  | inl same ↦ ground (arith, nat_equal_iff begin k)
  | inr differs ↦ ground (arith, differs, nat_equal_iff end k)
]

start_end : (begin end : ℕ) → contains {V = List Change} end ((begin, []) ∷ (end, []) ∷ []) ≡ true
unfolding contains
start_end begin end = ground (arith, nat_equal_iff end end)

none_yet : sum_of (λ t. t) (replicate 6 0) ≡ 0
unfolding sum_of
none_yet = refl

-- At a token's time that is not empty and intervals of a kind but the last that are not reversed,
-- `partition` raises nothing, and its totals are in sum the token's time.
pub sum-partition :
    (begin end : ℕ) (intervals : List Interval)
    → begin < end
    → AllValid intervals
    → (totals : List ℕ) × (partition begin end intervals ≡ ok totals)
      × (sum_of (λ t. t) totals + begin ≡ end)
unfolding partition
sum-partition begin end intervals fits valid =
    let (events, collected, inside, closed) =
      collect-Inside begin end intervals ((begin, []) ∷ (end, []) ∷ []) valid (start begin end fits)
        (start_end begin end) in
    let (rising, most, reached) = sorted_times begin end events (omega (arith, fits)) inside in
    let times = sorted_set (map (λ e. e.0) events) in
    let total = sum-walk events times begin [] (replicate 6 0) rising refl in
    (
      walk events times begin [] (replicate 6 0),
      ground (arith, fits, collected),
      omega (arith, total, most, reached end closed, none_yet),
    )
