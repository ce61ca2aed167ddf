-- ===== src/Arrivals/Groups.antt =====
-- The commands of a batch in `trace_batches` of scripts/qwen/q4_read_arrivals.py have each of its
-- events once.
use zerocool.Prelude.{
  ℕ, ◌+◌, ◌<◌, ◌≡◌, refl, sym, ap, ◌∙◌, true, ◌&&◌, inl, inr, List, [], ◌∷◌, map, arith, ◌==◌,
  nat_eq, ltb, leb, Bool-cases, length, ok, ok_injective, bind_inverse, require, require-true,
  filter, sum_of, sorted_set, insert_number, if◌then◌else◌,
}
use zerocool.Arrivals.Events.{Event, holds_number}
use zerocool.Arrivals.Commands.{
  Command, submissions_of, members_of, interval_of, command_of, commands_at, experts_of,
}

-- a rising list: each number is above the one before it
abbrev IsAbove : ℕ → List ℕ → Type 0
IsAbove n [] = Unit
IsAbove n (m ∷ ms) = (n < m) × IsAbove m ms

abbrev IsRising : List ℕ → Type 0
IsRising [] = Unit
IsRising (n ∷ ns) = IsAbove n ns

insert_number-IsAbove :
    (k n : ℕ) (ns : List ℕ) → k < n → IsAbove k ns → IsAbove k (insert_number n ns)
unfolding insert_number
insert_number-IsAbove k n [] h above = (h, tt)
insert_number-IsAbove k n (m ∷ ms) h above = ground (arith, h, above, insert_number-IsAbove m n ms)

insert_number-IsRising : (n : ℕ) (ns : List ℕ) → IsRising ns → IsRising (insert_number n ns)
unfolding insert_number
insert_number-IsRising n [] rising = tt
insert_number-IsRising n (m ∷ ms) rising = ground (arith, insert_number-IsAbove m n ms)

sorted_set-IsRising : (ns : List ℕ) → IsRising (sorted_set ns)
unfolding sorted_set
sorted_set-IsRising [] = tt
sorted_set-IsRising (n ∷ ns) = insert_number-IsRising n (sorted_set ns) (sorted_set-IsRising ns)

-- one for a number that is the key
abbrev one : ℕ → ℕ → ℕ
one n k = if n == k then 1 else 0

-- above a number, no key is the number
one-above : (n k : ℕ) (ns : List ℕ) → n < k → IsAbove k ns → sum_of (one n) ns ≡ 0
unfolding sum_of
one-above n k [] h above = refl
one-above n k (m ∷ ms) h above =
    let later : n < m = omega (arith, h, above.0) in
    let rest = one-above n m ms later above.1 in ground (arith, later, rest)

one-head : (n : ℕ) (ns : List ℕ) → IsAbove n ns → sum_of (one n) ns ≡ 0
unfolding sum_of
one-head n [] above = refl
one-head n (m ∷ ms) above = ground (arith, above.0, one-above n m ms above.0 above.1)

tail-IsRising : (m : ℕ) (ns : List ℕ) → IsAbove m ns → IsRising ns
tail-IsRising m [] above = tt
tail-IsRising m (n ∷ ns) above = above.1

-- a number that stands in a rising list stands there once
one-rising : (n : ℕ) (ns : List ℕ) → IsRising ns → holds_number n ns ≡ true → sum_of (one n) ns ≡ 1
unfolding sum_of
one-rising n [] rising h = cc
one-rising n (m ∷ ms) rising h = elim (Bool-cases (m == n)) [
  | inl here ↦
      let same : m ≡ n = (nat_eq.equal_iff m n).0 here in
      let rest = one-head n ms (rw same at rising) in ground (arith, same, rest)
  | inr later ↦
      let rest = one-rising n ms (tail-IsRising m ms rising) in ground (arith, later, h, rest)
]

holds-insert_number :
    (n m : ℕ) (ns : List ℕ)
    → (holds_number n (insert_number n ns) ≡ true)
      × (holds_number m ns ≡ true → holds_number m (insert_number n ns) ≡ true)
unfolding insert_number
holds-insert_number n m [] = ground arith
holds-insert_number n m (k ∷ ns) = ground (arith, holds-insert_number n m ns)

-- the numbers of a list all stand in another
abbrev AllHeld : List ℕ → List ℕ → Type 0
AllHeld [] ks = Unit
AllHeld (n ∷ ns) ks = (holds_number n ks ≡ true) × AllHeld ns ks

AllHeld-insert_number : (n : ℕ) (ns ks : List ℕ) → AllHeld ns ks → AllHeld ns (insert_number n ks)
AllHeld-insert_number n [] ks held = tt
AllHeld-insert_number n (m ∷ ns) ks held =
    ((holds-insert_number n m ks).1 held.0, AllHeld-insert_number n ns ks held.1)

AllHeld-sorted_set : (ns : List ℕ) → AllHeld ns (sorted_set ns)
unfolding sorted_set
AllHeld-sorted_set [] = tt
AllHeld-sorted_set (n ∷ ns) = (
  (holds-insert_number n n (sorted_set ns)).0,
  AllHeld-insert_number n ns (sorted_set ns) (AllHeld-sorted_set ns),
)

sum_of-plus : (f g : ℕ → ℕ) (ns : List ℕ) → sum_of (λ k. f k + g k) ns ≡ sum_of f ns + sum_of g ns
unfolding sum_of
sum_of-plus f g [] = refl
sum_of-plus f g (n ∷ ns) = omega (arith, sum_of-plus f g ns)

sum_of-same : (f g : ℕ → ℕ) (ns : List ℕ) → ((k : ℕ) → f k ≡ g k) → sum_of f ns ≡ sum_of g ns
unfolding sum_of
sum_of-same f g [] h = refl
sum_of-same f g (n ∷ ns) h = omega (arith, h n, sum_of-same f g ns h)

sum_of-zero : (ns : List ℕ) → sum_of (λ k. 0) ns ≡ 0
unfolding sum_of
sum_of-zero [] = refl
sum_of-zero (n ∷ ns) = omega (arith, sum_of-zero ns)

abbrev count_of : List Event → ℕ → ℕ
count_of events k = length (members_of k events)

count_of-first :
    (e : Event) (events : List Event) (k : ℕ)
    → count_of (e ∷ events) k ≡ one e.submitted k + count_of events k
unfolding filter
count_of-first e events k = ground arith

-- Every event is a member at one key of a rising list that has all the keys.
members_of-once :
    (events : List Event) (ks : List ℕ)
    → IsRising ks
    → AllHeld (map (λ e. e.submitted) events) ks
    → sum_of (count_of events) ks ≡ length events
unfolding filter
members_of-once [] ks rising held = sum_of-zero ks
members_of-once (e ∷ events) ks rising held =
    let first = one-rising e.submitted ks rising held.0 in
    let rest = members_of-once events ks rising held.1 in
    sum_of-same (count_of (e ∷ events)) (λ k. one e.submitted k + count_of events k) ks
      (count_of-first e events)
    ∙ sum_of-plus (one e.submitted) (count_of events) ks
    ∙ omega (arith, first, rest)

command_of-experts :
    (group cycle batch : ℕ) (events : List Event) (submitted : ℕ) {c : Command}
    → command_of group cycle batch events submitted ≡ ok c
    → (c.experts ≡ count_of events submitted) × ((ltb 0 c.experts && leb c.experts group) ≡ true)
unfolding command_of
command_of-experts group cycle batch events submitted {c} h =
    let members = members_of submitted events in
    let (u1, e1, h1) =
      bind_inverse
        (require (ltb 0 (length members) && leb (length members) group)
          "Captured command exceeds the ready-group cap")
        _ h in
    let ((begins, ends), e2, h2) = bind_inverse (interval_of members) _ h1 in
    let same : length members ≡ c.experts = ap (λ k. k.experts) (ok_injective h2) in
    (sym same, rw same at (require-true _ _ e1))

commands_at-experts_of :
    (group cycle batch : ℕ) (events : List Event) (ks : List ℕ) {cs : List Command}
    → commands_at group cycle batch events ks ≡ ok cs
    → experts_of cs ≡ sum_of (count_of events) ks
unfolding commands_at sum_of
commands_at-experts_of group cycle batch events [] h = ap experts_of (sym (ok_injective h))
commands_at-experts_of group cycle batch events (k ∷ ks) {cs} h =
    let (c, e1, h1) = bind_inverse (command_of group cycle batch events k) _ h in
    let (rest, e2, h2) = bind_inverse (commands_at group cycle batch events ks) _ h1 in
    let (first, inside) = command_of-experts group cycle batch events k e1 in
    let others = commands_at-experts_of group cycle batch events ks e2 in
    let kept : experts_of cs ≡ c.experts + experts_of rest =
      ap experts_of (sym (ok_injective h2)) in
    kept ∙ omega (arith, first, others)

-- The commands of the submissions have as many experts as there are events.
pub submissions_of-experts_of :
    (group cycle batch : ℕ) (events : List Event) {cs : List Command}
    → commands_at group cycle batch events (submissions_of events) ≡ ok cs
    → experts_of cs ≡ length events
submissions_of-experts_of group cycle batch events h =
    let keys = map (λ e. e.submitted) events in
    commands_at-experts_of group cycle batch events (submissions_of events) h
    ∙ members_of-once events (submissions_of events) (sorted_set-IsRising keys)
        (AllHeld-sorted_set keys)
