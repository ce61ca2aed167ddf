-- ===== src/Trace/Checks.antt =====
-- What the checks of `decode` in scripts/qwen/route_trace.py say of the values that pass them.
use zerocool.Prelude.{
  ℕ, ◌+◌, ◌≤◌, ◌≡◌, refl, Bool, true, ◌&&◌, Option, none, some, List, [], ◌∷◌, arith, String, ◌==◌,
  nat_eq, string_eq, leb, ok, require, require-true, same_list, same_numbers,
}
use zerocool.Dict.{Dict, get}
use zerocool.Json.{Value, null, bool, int, negative, float, str, list, object, is_number, number}
use zerocool.Trace.State.{Active, Request, at_least}
use zerocool.Trace.Events.{active_of, request_of, holds, or_empty, tokens_of}

-- the first of two tests that both hold, and the second
pub both_true : (a b : Bool) → (a && b) ≡ true → (a ≡ true) × (b ≡ true)
both_true a b h = ground (arith, h)

pub number_of : (n : ℕ) (v : Value) → is_number n v ≡ true → number v ≡ n
number_of n (int m) h = ground (arith, h)
number_of n null h = cc
number_of n (bool b) h = cc
number_of n (negative m) h = cc
number_of n (float s) h = cc
number_of n (str s) h = cc
number_of n (list vs) h = cc
number_of n (object fs) h = cc

pub geometry :
    (offset : Value) (n : ℕ) (tokens : Value) {u : Unit {0}}
    → require
        (at_least 0 offset && is_number n tokens && leb (number offset + number tokens) 8192)
        "Invalid forward identity or geometry"
      ≡ ok u
    → (number tokens ≡ n) × (number offset + number tokens ≤ 8192)
geometry offset n tokens h =
    let all =
      require-true
        (at_least 0 offset && is_number n tokens && leb (number offset + number tokens) 8192)
        "Invalid forward identity or geometry" h in
    let (first, inside) =
      both_true (at_least 0 offset && is_number n tokens) (leb (number offset + number tokens) 8192)
        all in
    let (low, sized) = both_true (at_least 0 offset) (is_number n tokens) first in
    (number_of n tokens sized, ground (arith, inside))

pub active_of-some :
    (o : Option Active) (message : String) {a : Active} → active_of o message ≡ ok a → o ≡ some a
unfolding active_of
active_of-some none message h = cc
active_of-some (some b) message h = cc

pub request_of-some :
    (o : Option Request) (message : String) {r : Request} → request_of o message ≡ ok r → o ≡ some r
unfolding request_of
request_of-some none message h = cc
request_of-some (some b) message h = cc

pub same_numbers_equal : (xs ys : List ℕ) → same_numbers xs ys ≡ true → xs ≡ ys
unfolding same_list
same_numbers_equal [] [] h = refl
same_numbers_equal [] (y ∷ ys) h = cc
same_numbers_equal (x ∷ xs) [] h = cc
same_numbers_equal (x ∷ xs) (y ∷ ys) h =
    let (head, tail) = both_true (x == y) (same_numbers xs ys) h in
    let same_head : x ≡ y = ground (arith, head) in
    let same_tail = same_numbers_equal xs ys tail in cc

held_equal :
    (tokens : Option (List ℕ)) (expected : List ℕ)
    → (elim tokens [ none ↦ Bool.false | some held ↦ same_numbers held expected ]) ≡ true
    → or_empty tokens ≡ expected
held_equal none expected h = cc
held_equal (some held) expected h = same_numbers_equal held expected h

-- Where the current session holds some tokens, there is one that has them.
pub holds_tokens :
    (current : Option String) (states : Dict String (List ℕ)) (expected : List ℕ)
    → holds current states expected ≡ true
    → (session : String) × (tokens_of session states ≡ expected)
holds_tokens none states expected h = cc
holds_tokens (some session) states expected h =
    (session, held_equal (get session states) expected h)
