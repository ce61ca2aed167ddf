-- ===== src/Capture/Signatures.antt =====
-- What `validate` of scripts/qwen/benchmark_exact.py leaves in its dict of signatures.
use zerocool.Prelude.{
  ℕ, ◌≡◌, refl, true, not, ◌||◌, none, some, List, [], ◌∷◌, ◌++◌, if◌then◌else◌, ok, raise,
  Exception, value_error, require, Bool-cases, ◌⊎◌, inl, inr, Option-cases, nat_equal_iff,
  string_eq, nat_eq, bind_inverse, ok_injective, arith,
}
use mathlib.Core.Path.{subst}
use zerocool.Json.{
  Value, null, bool, int, negative, float, str, list, object, bit, is_hashable, is_text, is_null,
  at, same,
}
use zerocool.Capture.Rows.{Bench}
use zerocool.Capture.Benchmark.{Expected, Signature, same_signature, lookup, admit, message}
use zerocool.Capture.Exact.{
  check_state, observe_row, identity_of, on_row, on_rows, check_report, validate,
}

-- the signature itself, or one that equals it
abbrev pub Agrees : Signature → Signature → Type 0
Agrees t s = (t ≡ s) ⊎ (same_signature t s ≡ true)

-- the dict has such a signature under the name
abbrev pub IsRecorded : Expected → Value × Signature → Type 0
IsRecorded e (name, s) = (t : Signature) × (lookup name e.signatures ≡ some t) × Agrees t s

-- the names of the one dict have the same signatures in the other
abbrev pub Keeps : Expected → Expected → Type 0
Keeps e e' =
    (name : Value) (t : Signature)
    → lookup name e.signatures ≡ some t
    → lookup name e'.signatures ≡ some t

same-hashable : (v : Value) → is_hashable v ≡ true → same v v ≡ true
unfolding same
same-hashable null h = refl
same-hashable (bool b) h = ground (arith, nat_equal_iff (bit b) (bit b))
same-hashable (int n) h = ground (arith, nat_equal_iff n n)
same-hashable (negative n) h = ground (arith, nat_equal_iff n n)
same-hashable (float s) h = (string_eq.equal_iff s s).1 refl
same-hashable (str s) h = (string_eq.equal_iff s s).1 refl
same-hashable (list vs) h = cc
same-hashable (object fs) h = cc

lookup-append :
    (name : Value) (signatures : List (Value × Signature)) (k : Value) (s : Signature)
    {t : Signature}
    → lookup name signatures ≡ some t
    → lookup name (signatures ++ (k, s) ∷ []) ≡ some t
unfolding lookup
lookup-append name [] k s h = cc
lookup-append name ((j, u) ∷ rest) k s h = elim (Bool-cases (same j name)) [
  | inl here ↦ rw here (rw here at h)
  | inr there ↦ rw there (lookup-append name rest k s (rw there at h))
]

some≢none : {s : Signature} → some s ≡ none → ⊥
some≢none h = cc

lookup-append_new :
    (name : Value) (signatures : List (Value × Signature)) (s : Signature)
    → lookup name signatures ≡ none
    → same name name ≡ true
    → lookup name (signatures ++ (name, s) ∷ []) ≡ some s
unfolding lookup
lookup-append_new name [] s h self = rw self refl
lookup-append_new name ((j, u) ∷ rest) s h self = elim (Bool-cases (same j name)) [
  | inl here ↦ elim (some≢none (rw here at h)) [ ]
  | inr there ↦ rw there (lookup-append_new name rest s (rw there at h) self)
]

raised : {x : Exception} {e : Expected} → raise x ≡ ok e → ⊥
raised h = cc

-- the dict with a signature more
abbrev extended : Value → Signature → Expected → Expected
extended name s e = record e { signatures = e.signatures ++ (name, s) ∷ [] }

-- an old signature is kept where it equals the new one
admit_old :
    (name : Value) (s t : Signature) (e : Expected) {e' : Expected}
    → lookup name e.signatures ≡ some t
    → (if same_signature t s then ok e else raise (value_error message)) ≡ ok e'
    → IsRecorded e' (name, s) × Keeps e e'
admit_old name s t e old h = elim (Bool-cases (same_signature t s)) [
  | inl equal ↦
      subst (λ k. IsRecorded k (name, s) × Keeps e k) (ok_injective (rw equal at h))
        ((t, old, inr equal), λ k u found. found)
  | inr unequal ↦ elim (raised (rw unequal at h)) [ ]
]

-- What is put into the dict is there, and nothing else has changed.
admit-IsRecorded :
    (name : Value) (s : Signature) (e : Expected) {e' : Expected}
    → admit name s e ≡ ok e'
    → IsRecorded e' (name, s) × Keeps e e'
unfolding admit
admit-IsRecorded name s e {e'} h = elim (Bool-cases (is_hashable name)) [
  | inr unhashable ↦ elim (raised (rw unhashable at h)) [ ]
  | inl hashable ↦ elim (Bool-cases (is_text "build" name || is_text "revision" name)) [
    | inl reserved ↦ elim (raised (rw (hashable, reserved) at h)) [ ]
    | inr free ↦ elim (Option-cases (lookup name e.signatures)) [
      | inl new ↦
          let made : extended name s e ≡ e' = ok_injective (rw (hashable, free, new) at h) in
          subst (λ k. IsRecorded k (name, s) × Keeps e k) made
            (
              (
                s,
                lookup-append_new name e.signatures s new (same-hashable name hashable),
                inl refl,
              ),
              λ k u found. lookup-append k e.signatures name s found,
            )
      | inr (t, old) ↦ admit_old name s t e old (rw (hashable, free, old) at h)
    ]
  ]
]

on_row-IsRecorded :
    (bench : Bench) (config : Value) (budget output : ℕ) (row : Value) (s : Value × Expected)
    {s' : Value × Expected}
    → on_row bench config budget output row s ≡ ok s'
    → ((p : Value × Signature) × (identity_of row ≡ ok p) × IsRecorded s'.1 p) × Keeps s.1 s'.1
unfolding on_row
on_row-IsRecorded bench config budget output row (last, e) h0 =
    let (state, _, h1) = bind_inverse (at "after" row) _ h0 in
    let (plan, _, h2) = bind_inverse (at "memory_plan" state) _ h1 in
    let (machine, _, h3) = bind_inverse (at "metal" state) _ h2 in
    let (execution, _, h4) =
      bind_inverse
        (check_state bench config budget output row state plan machine e.build e.revision) _ h3 in
    let (p, identified, h5) = bind_inverse (identity_of row) _ h4 in
    let (e', admitted, h6) = bind_inverse (admit p.0 p.1 e) _ h5 in
    let (observation, _, h7) =
      bind_inverse
        (observe_row bench config budget output row state plan machine execution p.0 last) _ h6 in
    let (recorded, kept) = admit-IsRecorded p.0 p.1 e admitted in
    subst
      (λ k. ((q : Value × Signature) × (identity_of row ≡ ok q) × IsRecorded k.1 q) × Keeps e k.1)
      (ok_injective h7) ((p, identified, recorded), kept)

-- every row's name has its signature, or one that equals it
abbrev pub AllRecorded : Expected → List Value → Type 0
AllRecorded e [] = Unit {0}
AllRecorded e (row ∷ rows) =
    ((p : Value × Signature) × (identity_of row ≡ ok p) × IsRecorded e p) × AllRecorded e rows

IsRecorded-Keeps :
    (e e' : Expected) (p : Value × Signature) → IsRecorded e p → Keeps e e' → IsRecorded e' p
IsRecorded-Keeps e e' (name, s) (t, found, agrees) kept = (t, kept name t found, agrees)

on_rows-AllRecorded :
    (bench : Bench) (config : Value) (budget output : ℕ) (rows : List Value) (s : Value × Expected)
    {s' : Value × Expected}
    → on_rows bench config budget output rows s ≡ ok s'
    → AllRecorded s'.1 rows × Keeps s.1 s'.1
unfolding on_rows
on_rows-AllRecorded bench config budget output [] s h =
    subst (λ k. AllRecorded k.1 [] × Keeps s.1 k.1) (ok_injective h) (tt, λ name t found. found)
on_rows-AllRecorded bench config budget output (row ∷ rows) s {s'} h =
    let (s1, first, rest) = bind_inverse (on_row bench config budget output row s) _ h in
    let ((p, identified, recorded), kept) =
      on_row-IsRecorded bench config budget output row s first in
    let (all_recorded, kept_after) = on_rows-AllRecorded bench config budget output rows s1 rest in
    (
      ((p, identified, IsRecorded-Keeps s1.1 s'.1 p recorded kept_after), all_recorded),
      λ name t found. kept_after name t (kept name t found),
    )

-- Where `validate` answers, its dict has a signature under the name of each row of the report that is
-- the row's own or equals it, and keeps each signature that it had before: reports that are validated
-- one after another agree on the rows of a name.
pub validate-AllRecorded :
    (bench : Bench) (config : Value) (budget output : ℕ) (report : Value) (e : Expected)
    {s' : Value × Expected}
    → validate bench config budget output report e ≡ ok s'
    → (rows : List Value) × (check_report bench report e.revision ≡ ok rows)
      × AllRecorded s'.1 rows
      × Keeps e s'.1
unfolding validate
validate-AllRecorded bench config budget output report e h0 =
    let (rows, read, h1) = bind_inverse (check_report bench report e.revision) _ h0 in
    let (s, looped, h2) = bind_inverse (on_rows bench config budget output rows (null, e)) _ h1 in
    let (_, _, h3) = bind_inverse (require (not (is_null s.0)) "No generated request") _ h2 in
    let all_recorded = on_rows-AllRecorded bench config budget output rows (null, e) looped in
    subst
      (λ k.
        (rows : List Value) × (check_report bench report e.revision ≡ ok rows)
        × AllRecorded k.1 rows
        × Keeps e k.1)
      (ok_injective h3) (rows, read, all_recorded.0, all_recorded.1)
