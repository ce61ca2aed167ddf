-- ===== src/Trace/Committed.antt =====
-- What `decode` of scripts/qwen/route_trace.py commits: the sessions' tokens, and where a forward
-- stands in them.
use zerocool.Prelude.{
  ℕ, ◌+◌, ◌*◌, ◌≤◌, ◌≡◌, refl, sym, ap, ◌∙◌, Option, none, some, List, [], ◌∷◌, ◌++◌, arith, String,
  ◌==◌, nat_eq, string_eq, if◌then◌else◌, length, length-append, Bool-cases, inl, inr, sum_of,
}
use zerocool.Dict.{Dict, put, get-put}
use zerocool.Json.{Value, find, has_key}
use zerocool.Routes.Loop.{Row}
use zerocool.Trace.State.{State, Forward, Active, Completed}
use zerocool.Trace.Events.{or_empty, tokens_of, row_of, boundary, without_last}

-- the tokens of a session's forwards, in order
unfoldable pub inputs_of : String → List Forward → List ℕ
inputs_of session [] = []
inputs_of session (f ∷ forwards) =
    let rest = inputs_of session forwards in if f.session == session then f.input ++ rest else rest

-- each forward starts where the earlier ones of its session end
unfoldable pub Follows : List Forward → List Forward → Type 0
Follows before [] = Unit {0}
Follows before (f ∷ forwards) =
    (f.offset ≡ length (inputs_of f.session before))
    × (f.tokens ≡ length f.input)
    × Follows (before ++ f ∷ []) forwards

pub append_nil {ℓ} : {A : Type ℓ} (xs : List A) → xs ++ [] ≡ xs
append_nil [] = refl
append_nil (x ∷ xs) = ap (λ ys. x ∷ ys) (append_nil xs)

append_assoc {ℓ} : {A : Type ℓ} (xs ys zs : List A) → (xs ++ ys) ++ zs ≡ xs ++ (ys ++ zs)
append_assoc [] ys zs = refl
append_assoc (x ∷ xs) ys zs = ap (λ ws. x ∷ ws) (append_assoc xs ys zs)

pub inputs_of-snoc :
    (session : String) (forwards : List Forward) (f : Forward)
    → inputs_of session (forwards ++ f ∷ []) ≡ (
        if f.session == session
        then inputs_of session forwards ++ f.input
        else inputs_of session forwards)
unfolding inputs_of
inputs_of-snoc session [] f = elim (Bool-cases (f.session == session)) [
  | inl same ↦ rw (same, append_nil f.input) refl
  | inr differs ↦ rw differs refl
]
inputs_of-snoc session (g ∷ forwards) f = elim (Bool-cases (g.session == session)) [
  | inl here ↦ elim (Bool-cases (f.session == session)) [
    | inl same ↦
        rw (here, inputs_of-snoc session forwards f, same)
          (sym (append_assoc g.input (inputs_of session forwards) f.input))
    | inr differs ↦ rw (here, inputs_of-snoc session forwards f, differs) refl
  ]
  | inr there ↦ rw (there, inputs_of-snoc session forwards f) refl
]

pub Follows-snoc :
    (before forwards : List Forward) (f : Forward)
    → Follows before forwards
    → f.offset ≡ length (inputs_of f.session (before ++ forwards))
    → f.tokens ≡ length f.input
    → Follows before (forwards ++ f ∷ [])
unfolding Follows
Follows-snoc before [] f v e n = (rw (append_nil before) at e, n, tt)
Follows-snoc before (g ∷ forwards) f v e n = (
  v.0,
  v.1,
  Follows-snoc (before ++ g ∷ []) forwards f v.2 (rw (append_assoc before (g ∷ []) forwards) e) n,
)

pub tokens_of-put :
    (k j : String) (tokens : List ℕ) (states : Dict String (List ℕ))
    → tokens_of j (put k tokens states) ≡ (if k == j then tokens else tokens_of j states)
tokens_of-put k j tokens states = elim (Bool-cases (k == j)) [
  | inl same ↦ ap or_empty (get-put k j tokens states) ∙ rw same refl
  | inr differs ↦ ap or_empty (get-put k j tokens states) ∙ rw differs refl
]

-- a request is answered behind some of the forwards, where a session holds its input and all of
-- its output but the last token
abbrev pub IsAnswered : List Forward → Completed → Type 0
IsAnswered forwards c =
    (before : List Forward) × (after : List Forward) × (session : String) × (forwards
      ≡ before ++ after)
    × (inputs_of session before ≡ c.request.input ++ without_last c.output)

unfoldable pub AreAnswered : List Forward → List Completed → Type 0
AreAnswered forwards [] = Unit {0}
AreAnswered forwards (c ∷ requests) = IsAnswered forwards c × AreAnswered forwards requests

pub AreAnswered-more :
    (forwards : List Forward) (f : Forward) (requests : List Completed)
    → AreAnswered forwards requests
    → AreAnswered (forwards ++ f ∷ []) requests
unfolding AreAnswered
AreAnswered-more forwards f [] v = tt
AreAnswered-more forwards f (c ∷ requests) ((before, after, session, split, held), rest) = (
  (
    before,
    after ++ f ∷ [],
    session,
    ap (λ fs. fs ++ f ∷ []) split ∙ append_assoc before after (f ∷ []),
    held,
  ),
  AreAnswered-more forwards f requests rest,
)

pub AreAnswered-snoc :
    (forwards : List Forward) (requests : List Completed) (c : Completed)
    → AreAnswered forwards requests
    → IsAnswered forwards c
    → AreAnswered forwards (requests ++ c ∷ [])
unfolding AreAnswered
AreAnswered-snoc forwards [] c v w = (w, tt)
AreAnswered-snoc forwards (b ∷ requests) c v w = (v.0, AreAnswered-snoc forwards requests c v.1 w)

-- the rows with the routes of a layer
abbrev pub passes_of : List Row → ℕ
passes_of = sum_of (λ row. if has_key "routes" row.1 then 1 else 0)

pub passes_of-append :
    (rows more : List Row) → passes_of (rows ++ more) ≡ passes_of rows + passes_of more
unfolding sum_of
passes_of-append [] more = omega arith
passes_of-append (row ∷ rows) more = omega (arith, passes_of-append rows more)

pub passes_of-none : passes_of [] ≡ 0
unfolding sum_of
passes_of-none = refl

pub passes_of-boundary :
    (rows : List Row) (pointer reason : String)
    → passes_of (rows ++ (pointer, boundary reason) ∷ []) ≡ passes_of rows
passes_of-boundary rows pointer reason =
    let none_there : passes_of ((pointer, boundary reason) ∷ []) ≡ 0 =
      unfold sum_of has_key find in refl in
    omega (arith, passes_of-append rows ((pointer, boundary reason) ∷ []), none_there)

pub passes_of-row :
    (rows : List Row) (pointer : String) (f : Forward) (layer : ℕ) (routes build revision : Value)
    (epoch : ℕ)
    → passes_of rows ≡ length rows
    → passes_of (rows ++ (pointer, row_of f layer routes build revision epoch) ∷ [])
      ≡ length (rows ++ (pointer, row_of f layer routes build revision epoch) ∷ [])
passes_of-row rows pointer f layer routes build revision epoch all =
    let row = row_of f layer routes build revision epoch in
    let one : passes_of ((pointer, row) ∷ []) ≡ 1 = unfold sum_of has_key find in refl in
    omega (
      arith,
      passes_of-append rows ((pointer, row) ∷ []),
      one,
      all,
      length-append rows ((pointer, row) ∷ []),
    )

-- an active forward goes on at the end of its session, and stays within the context
abbrev pub Fits : Option Active → Dict String (List ℕ) → Type 0
Fits none states = Unit {0}
Fits (some a) states =
    (a.forward.offset ≡ length (tokens_of a.forward.session states))
    × (a.forward.tokens ≡ length a.forward.input)
    × (a.forward.offset + a.forward.tokens ≤ 8192)
    × (passes_of a.rows ≡ length a.rows)

pub record IsCommitted (s : State) : Type 0 where
  pub held : (session : String) → tokens_of session s.states ≡ inputs_of session s.committed
  pub bounded : (session : String) → length (tokens_of session s.states) ≤ 8192
  pub fits : Fits s.active s.states
  pub follows : Follows [] s.committed
  pub counted : passes_of s.rows ≡ 48 * length s.committed
  pub answered : AreAnswered s.committed s.requests

-- The same tokens, forwards and rows with routes.
pub IsCommitted-same :
    {s t : State}
    → t.states ≡ s.states
    → t.committed ≡ s.committed
    → passes_of t.rows ≡ passes_of s.rows
    → Fits t.active s.states
    → AreAnswered s.committed t.requests
    → IsCommitted s
    → IsCommitted t
IsCommitted-same {s} {t} states committed rows fits answered v = record {
  held = λ session. rw (states, committed) (v.held session);
  bounded = λ session. rw states (v.bounded session);
  fits = rw states fits;
  follows = rw committed v.follows;
  counted = omega (arith, rows, v.counted, ap length committed);
  answered = rw committed answered;
}
