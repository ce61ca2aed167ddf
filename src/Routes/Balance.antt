-- ===== src/Routes/Balance.antt =====
-- The counts of `route_segments` in scripts/qwen/cache_simulation.py after each row.
use zerocool.Prelude.{
  ℕ, ◌+◌, ◌*◌, ◌≤◌, ◌<◌, ◌≡◌, refl, sym, ◌∙◌, ap, Bool, false, not, ◌&&◌, List, [], ◌∷◌, ◌++◌,
  arith, ◌==◌, nat_eq, nat_equal_iff, length, length-append, ok, bind_inverse, Bool-cases, inl, inr,
  sum_of, String, if◌then◌else◌, ok_injective,
}
use zerocool.Json.{Value, str}
use zerocool.Routes.Pass.{Pass}
use zerocool.Routes.Windows.{
  State, Segment, discard, split_last, is_empty, is_discontinuous, all_keys, extend, demands_of,
  choose, complete, complete_first, join, on_pass,
}

-- the windows of all segments
abbrev pub windows_of : List Segment → ℕ
windows_of = sum_of (λ g. g.windows)

-- the passes are of `tokens` tokens, and have no more keys than routes
abbrev pub Fits : ℕ → List Pass → Type 0
Fits tokens [] = Unit {0}
Fits tokens (p ∷ passes) =
    ((p.tokens ≡ tokens) × (length p.keys ≤ tokens * 10)) × Fits tokens passes

-- After `rows` rows: each is a boundary, in a complete window, excluded, without routes, filtered or
-- pending; the windows are complete; and there are no more accesses than routes.
pub record IsBalanced (rows : ℕ) (s : State) : Type 0 where
  pub split :
      rows
      ≡ s.explicit_events + s.passes + s.excluded + s.missing_routes + s.filtered + length s.pending
  pub short : length s.pending < 48
  pub whole : s.passes ≡ windows_of s.segments * 48
  pub bounded : demands_of s.segments ≤ s.logical_routes
  pub tokens : ℕ
  pub fits : Fits tokens s.pending

pub discard_excluded :
    (reason : Value) (pointer : String) (s : State)
    → (discard reason pointer s).excluded ≡ s.excluded + length s.pending
unfolding discard
discard_excluded reason pointer s = ground arith

pub discard-IsBalanced :
    (reason : Value) (pointer : String) {n : ℕ} (s : State)
    → IsBalanced n s
    → IsBalanced n (discard reason pointer s)
unfolding discard
discard-IsBalanced reason pointer s v = record {
  split = omega (arith, discard_excluded reason pointer s, v.split);
  short = omega arith;
  whole = v.whole;
  bounded = v.bounded;
  tokens = 0;
  fits = tt;
}

sum_of-append {ℓ} :
    {A : Type ℓ} (f : A → ℕ) (xs ys : List A) → sum_of f (xs ++ ys) ≡ sum_of f xs + sum_of f ys
unfolding sum_of
sum_of-append f [] ys = omega arith
sum_of-append f (x ∷ xs) ys = omega (arith, sum_of-append f xs ys)

sum_of-split_last {ℓ} :
    {A : Type ℓ} (f : A → ℕ) (xs : List A) {front : List A} {last : A}
    → split_last xs ≡ ok (front, last)
    → sum_of f xs ≡ sum_of f front + f last
unfolding split_last sum_of
sum_of-split_last f [] h = cc
sum_of-split_last f (x ∷ []) h = ground arith
sum_of-split_last f (x ∷ y ∷ xs) h =
    let ((front, last), inner, h1) = bind_inverse (split_last (y ∷ xs)) _ h in
    ground (arith, sum_of-split_last f (y ∷ xs) inner)

choose_sums :
    (explicit : Bool) (first p : Pass) (s : State) {front : List Segment} {g : Segment}
    → choose explicit first p s ≡ ok (front, g)
    → (demands_of front + length g.accesses ≡ demands_of s.segments)
      × (windows_of front + g.windows ≡ windows_of s.segments)
unfolding choose
choose_sums explicit first p s {front} {g} h = elim (Bool-cases s.can_continue) [
  | inr cold ↦ ground (arith, cold)
  | inl warm ↦
      let ((front', g'), last, h1) = bind_inverse (split_last s.segments) _ (rw warm at h) in
      ground (
        arith,
        sum_of-split_last (λ d. length d.accesses) s.segments last,
        sum_of-split_last (λ d. d.windows) s.segments last,
      )
]

length-all_keys :
    (tokens : ℕ) (passes : List Pass)
    → Fits tokens passes
    → length (all_keys passes) ≤ length passes * (tokens * 10)
unfolding all_keys
length-all_keys tokens [] fits = omega arith
length-all_keys tokens (p ∷ passes) fits =
    let later = length-all_keys tokens passes fits.1 in
    omega (arith, length-append p.keys (all_keys passes), fits.0, later)

-- A window that is complete keeps the counts, as many passes as it has.
complete-IsBalanced :
    (explicit : Bool) (first p : Pass) (window : List Pass) {n : ℕ} (s : State) {s' : State}
    → complete explicit first p window s ≡ ok s'
    → IsBalanced n s
    → length window ≡ 48
    → length window ≡ length s.pending + 1
    → Fits p.tokens window
    → IsBalanced (n + 1) s'
unfolding complete extend
complete-IsBalanced explicit first p window {n} s {s'} h v size one fits =
    let ((front, g), chosen, h1) = bind_inverse (choose explicit first p s) _ h in
    let (demands, windows) = choose_sums explicit first p s chosen in
    let g' = extend explicit first p window g in
    let segments : s'.segments ≡ front ++ g' ∷ [] = ground arith in
    let sums = sum_of-append (λ d. length d.accesses) front (g' ∷ []) in
    let counts = sum_of-append (λ d. d.windows) front (g' ∷ []) in
    let keys = length-all_keys p.tokens window fits in
    let empty : s'.pending ≡ [] = ground arith in
    let longer = length-append g.accesses (all_keys window) in
    record {
      split = ground (arith, v.split);
      short = ground arith;
      whole = rw segments (unfold sum_of in ground (arith, counts, v.whole, windows));
      bounded =
          rw segments
            (unfold sum_of in ground (arith, sums, v.bounded, demands, keys, longer, size));
      tokens = 0;
      fits = rw empty tt;
    }

Fits-append :
    (tokens : ℕ) (passes : List Pass) (p : Pass)
    → Fits tokens passes
    → p.tokens ≡ tokens
    → length p.keys ≤ tokens * 10
    → Fits tokens (passes ++ p ∷ [])
Fits-append tokens [] p fits same few = ((same, few), tt)
Fits-append tokens (q ∷ passes) p fits same few =
    (fits.0, Fits-append tokens passes p fits.1 same few)

-- The window with a pass has a first pass.
window_cases :
    (passes : List Pass) (p : Pass)
    → (first : Pass) × (rest : List Pass) × (passes ++ p ∷ [] ≡ first ∷ rest)
window_cases [] p = (p, [], refl)
window_cases (q ∷ passes) p = (q, passes ++ p ∷ [], refl)

Fits-same : (t u : ℕ) (passes : List Pass) → t ≡ u → Fits t passes → Fits u passes
Fits-same t u passes e fits = rw (← e) fits

-- A pass that continues the window has its number of tokens.
Fits-joined :
    (p : Pass) (pending : List Pass)
    → is_discontinuous p pending ≡ false
    → (tokens : ℕ) → Fits tokens pending
    → length p.keys ≤ p.tokens * 10
    → Fits p.tokens (pending ++ p ∷ [])
Fits-joined p [] goes tokens fits few = ((refl, few), tt)
Fits-joined p (first ∷ rest) goes tokens fits few =
    let same : p.tokens ≡ tokens = ground (arith, goes, fits.0) in
    Fits-append p.tokens (first ∷ rest) p (Fits-same tokens p.tokens (first ∷ rest) (sym same) fits)
      refl few

join-IsBalanced :
    (explicit : Bool) (p : Pass) {n : ℕ} (s : State) {s' : State}
    → join explicit p s ≡ ok s'
    → IsBalanced n s
    → Fits p.tokens (s.pending ++ p ∷ [])
    → IsBalanced (n + 1) s'
unfolding join complete_first
join-IsBalanced explicit p {n} s {s'} h v fits =
    let window = s.pending ++ p ∷ [] in
    let one = length-append s.pending (p ∷ []) in
    elim (Bool-cases (length window == 48)) [
      | inl full ↦
          let size = (nat_equal_iff (length window) 48).0 full in
          let (first, rest, here) = window_cases s.pending p in
          let h1 = rw (full, here) at h in
          complete-IsBalanced explicit first p (first ∷ rest) s h1 v (ap length (sym here) ∙ size)
            (ap length (sym here) ∙ one) (rw here at fits)
      | inr more ↦
          let kept : record s { pending = window } ≡ s' = ok_injective (rw more at h) in
          rw (← kept) (record {
            split = omega (arith, v.split, one);
            short = ground (arith, more, one, v.short);
            whole = v.whole;
            bounded = v.bounded;
            tokens = p.tokens;
            fits = fits;
          })
    ]

-- A pass keeps the counts, as one row more.
pub on_pass-IsBalanced :
    (explicit : Bool) (p : Pass) {n : ℕ} (s : State) {s' : State}
    → on_pass explicit p s ≡ ok s'
    → length p.keys ≤ p.tokens * 10
    → IsBalanced n s
    → IsBalanced (n + 1) s'
unfolding on_pass
on_pass-IsBalanced explicit p {n} s {s'} h few v =
    elim (Bool-cases (is_discontinuous p s.pending)) [
      | inl breaks ↦
          pass_on (discard (str "incomplete_or_discontinuous_window") p.pointer s)
            (discard-IsBalanced (str "incomplete_or_discontinuous_window") p.pointer s v)
            (unfold discard in ((refl, few), tt)) (rw breaks at h)
      | inr goes ↦ pass_on s v (Fits-joined p s.pending goes v.tokens v.fits few) (rw goes at h)
    ]
  where
    pass_on :
        (t : State)
        → IsBalanced n t
        → Fits p.tokens (t.pending ++ p ∷ [])
        → (if is_empty t.pending && not (p.layer == 0)
            then ok (record t { excluded = t.excluded + 1; can_continue = false })
            else join explicit p t)
          ≡ ok s'
        → IsBalanced (n + 1) s'
    pass_on t v fits h = elim (Bool-cases (is_empty t.pending && not (p.layer == 0))) [
      | inl outside ↦
          let kept : record t { excluded = t.excluded + 1; can_continue = false } ≡ s' =
            ok_injective (rw outside at h) in
          rw (← kept) (record {
            split = omega (arith, v.split);
            short = v.short;
            whole = v.whole;
            bounded = v.bounded;
            tokens = v.tokens;
            fits = v.fits;
          })
      | inr inside ↦ join-IsBalanced explicit p t (rw inside at h) v fits
    ]
