-- ===== src/Diagnostic/Accounts.antt =====
-- The decompressions inside and outside the tokens of scripts/qwen/request_diagnostic_memory.py.
use zerocool.Prelude.{
  ℕ, ◌+◌, ◌-◌, ◌≤◌, ◌≡◌, refl, ap, ◌∙◌, true, none, some, List, [], ◌∷◌, ◌++◌, String, arith, ok,
  ok_injective, bind_inverse, sum_of, length,
}
use zerocool.Json.{Value}
use zerocool.Draft.Memory.{Process}
use zerocool.Diagnostic.Observe.{State, Limits, last_of, is_inside, add, observe, phase_boundary}
use zerocool.Diagnostic.Request.{
  Token, Gap, gap_before, gap, Loop, token_of, after_sample, on_sample, on_samples, inside_of,
  outside_of,
}
use zerocool.Diagnostic.Ordered.{is_ordered, last_of-end, observe-ok, phase_boundary-observe}
use zerocool.Diagnostic.Keeps.{Sampled, on_sample-Sampled}

sum_of-end :
    {A : Type 0} (f : A → ℕ) (xs : List A) (x : A) → sum_of f (xs ++ x ∷ []) ≡ sum_of f xs + f x
unfolding sum_of
sum_of-end f [] x = omega arith
sum_of-end f (y ∷ xs) x = omega (arith, sum_of-end f xs x)

-- the last observation is that of a process
abbrev pub IsLast : Process → State → Type 0
IsLast p s = last_of s.observations ≡ some p

rises : (a b : Process) → is_ordered (some a) b ≡ true → a.decompressions ≤ b.decompressions
rises a b h = ground (arith, h)

-- An observation behind another is the last one, and its decompressions have not fallen.
observe-rises :
    (limits : Limits) (v : Value) (name label : String) (s : State) {p q : Process} {s' : State}
    → observe limits v name label s ≡ ok (q, s')
    → IsLast p s
    → (p.decompressions ≤ q.decompressions) × IsLast q s'
unfolding add
observe-rises limits v name label s {p} {q} {s'} h last =
    let (ordered, is_added) = observe-ok limits v name label s h in
    (
      rises p q (rw last at ordered),
      ap (λ t. last_of t.observations) is_added ∙ last_of-end s.observations _,
    )

-- the sums of the entries so far, from the decompressions at the start
pub record Balanced (start : ℕ) (l : Loop) : Type 0 where
  pub last : IsLast l.prior l.state
  pub sums : inside_of l.tokens + outside_of l.gaps + start ≡ l.prior.decompressions

-- the decompressions of an entry
abbrev token_change : Token → ℕ
token_change t = t.memory_after.decompressions - t.memory_before.decompressions

abbrev gap_change : Gap → ℕ
gap_change g = g.to.decompressions - g.from_.decompressions

gap_before-change :
    (step : ℕ) (a b : Process)
    → gap_change (gap_before step a b) ≡ b.decompressions - a.decompressions
unfolding gap_before
gap_before-change ℕ.zero a b = refl
gap_before-change (ℕ.suc n) a b = refl

balance :
    (inside outside start prior before after : ℕ) {inside' outside' : ℕ}
    → prior ≤ before
    → before ≤ after
    → inside + outside + start ≡ prior
    → inside' ≡ inside + (after - before)
    → outside' ≡ outside + (before - prior)
    → inside' + outside' + start ≡ after
balance inside outside start prior before after first second h is_inside is_outside =
    omega (arith, first, second, h, is_inside, is_outside)

after_sample-Balanced :
    (start ends step : ℕ) (token : Token) (s : State) (l : Loop)
    → l.prior.decompressions ≤ token.memory_before.decompressions
    → token.memory_before.decompressions ≤ token.memory_after.decompressions
    → IsLast token.memory_after s
    → Balanced start l
    → Balanced start (after_sample ends step token s l)
unfolding after_sample
after_sample-Balanced start ends step token s l first second last held = record {
  last = last;
  sums =
      balance (inside_of l.tokens) (outside_of l.gaps) start l.prior.decompressions
        token.memory_before.decompressions token.memory_after.decompressions first second held.sums
        (sum_of-end token_change l.tokens token)
        (sum_of-end gap_change l.gaps (gap_before step l.prior token.memory_before)
          ∙ ap (λ n. outside_of l.gaps + n) (gap_before-change step l.prior token.memory_before));
}

on_sample-Balanced :
    (limits : Limits) (name : String) (start : ℕ) (l : Loop) {l' : Loop}
    → Sampled limits name l l'
    → Balanced start l
    → Balanced start l'
unfolding token_of
on_sample-Balanced limits name start l {l'} done held =
    let (rise1, last1) =
      observe-rises limits done.value_before name "token.before" l.state done.observed_before
        held.last in
    let (rise2, last2) =
      observe-rises limits done.value_after name "token.after" done.between done.observed_after
        last1 in
    let token : Token =
      token_of done.position done.input done.forward (length l.state.observations)
        (length done.between.observations) done.before done.after in
    let kept =
      after_sample-Balanced start done.ends done.position.0 token done.behind l rise1 rise2 last2
        held in
    rw done.is_next at kept

on_samples-Balanced :
    (limits : Limits) (name : String) (start : ℕ) (samples : List Value) (l : Loop) {l' : Loop}
    → on_samples limits name samples l ≡ ok l'
    → Balanced start l
    → Balanced start l'
unfolding on_samples
on_samples-Balanced limits name start [] l {l'} h held =
    let same : l ≡ l' = ok_injective h in rw same at held
on_samples-Balanced limits name start (v ∷ samples) l h held =
    let (next, e1, h1) = bind_inverse (on_sample limits name v l) _ h in
    on_samples-Balanced limits name start samples next h1
      (on_sample-Balanced limits name start l (on_sample-Sampled limits name v l e1) held)

-- Where the loop over the samples and the boundary behind it return, after an observation at the
-- boundary before it, the decompressions inside the tokens and outside in the gaps add up to those
-- of the decode phase, so that the check of the accounting never fails.
pub inside_of-outside_of :
    (limits : Limits) (name : String) (row : Value) (samples : List Value) (start : Loop) {l : Loop}
    {p : Process} {s : State}
    → start.tokens ≡ []
    → start.gaps ≡ []
    → IsLast start.prior start.state
    → on_samples limits name samples start ≡ ok l
    → phase_boundary limits row "decode" "after" name l.state ≡ ok (p, s)
    → inside_of l.tokens
        + outside_of (l.gaps ++ gap "last_token_to_decode" (some 15) none l.prior p ∷ [])
      ≡ p.decompressions - start.prior.decompressions
unfolding sum_of
inside_of-outside_of limits name row samples start {l} {p} {s} tokens gaps last h behind =
    let nothing : inside_of start.tokens + outside_of start.gaps ≡ 0 = rw (tokens, gaps) in
    let held =
      on_samples-Balanced limits name start.prior.decompressions samples start h
        (record { last = last; sums = omega (arith, nothing) }) in
    let (v, observed) = phase_boundary-observe limits row "decode" "after" name l.state behind in
    let (rise, ends) = observe-rises limits v name "decode.after" l.state observed held.last in
    let outside =
      sum_of-end gap_change l.gaps (gap "last_token_to_decode" (some 15) none l.prior p) in
    omega (arith, held.sums, rise, outside)
