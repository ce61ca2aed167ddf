-- ===== src/Draft/Sizes.antt =====
-- How many bytes a state has that `check_state` of scripts/qwen/perfect_draft.py accepts.
use zerocool.Prelude.{
  ℕ, zero, suc, ◌+◌, ◌%◌, ◌≡◌, refl, sym, ap, ◌∙◌, Bool, true, ◌&&◌, List, [], ◌∷◌, ◌++◌, map,
  arith, ◌==◌, nat_eq, length, Result, ok, raise, bind_inverse, require, ok_injective, Bool-cases,
  inl, inr, if◌then◌else◌, sum_of, take, ◌>>=◌, String, ◌⊎◌,
}
use zerocool.Json.{
  Value, null, bool, int, negative, float, str, list, object, nil, as_items, at, get_key,
  get_default, iterate, is_object, is_true, number, same,
}
use zerocool.Draft.Work.{Work}
use zerocool.Draft.State.{
  are_buffers, bytes_of, all_bytes, expected_bytes, check_layer, check_layers, check_state,
  any_there, last_two,
}

both : (a b : Bool) → (a && b) ≡ true → (a ≡ true) × (b ≡ true)
both a b h = ground (arith, h)

abbrev number_or : Result Value → ℕ
number_or (raise e) = 0
number_or (ok v) = number v

-- the bytes of a buffer, none where it has no number of them
abbrev pub size : Value → ℕ
size b = number_or (at "bytes" b)

abbrev sizes : Result (List Value) → (Value → ℕ) → ℕ
sizes (raise e) f = 0
sizes (ok vs) f = sum_of f vs

-- the bytes of all buffers of a layer
abbrev pub layer_size : Value → ℕ
layer_size layer = sizes (get_default "buffers" (list nil) layer >>= iterate) size

-- the bytes of all buffers of all layers
abbrev pub state_size : Value → ℕ
state_size state = sizes (get_default "layers" (list nil) state >>= iterate) layer_size

bytes_of-size : (b : Value) {v : Value} → bytes_of b ≡ ok v → size b ≡ number v
unfolding bytes_of at
bytes_of-size null h = ap number (ok_injective h)
bytes_of-size (bool b) h = ap number_or h
bytes_of-size (int n) h = ap number_or h
bytes_of-size (negative n) h = ap number_or h
bytes_of-size (float s) h = ap number_or h
bytes_of-size (str s) h = ap number_or h
bytes_of-size (list vs) h = ap number_or h
bytes_of-size (object fs) h = ap number_or h

all_bytes-size :
    (bs : List Value) {vs : List Value} → all_bytes bs ≡ ok vs → sum_of size bs ≡ sum_of number vs
unfolding all_bytes sum_of
all_bytes-size [] {vs} h = ap (λ xs. sum_of number xs) (ok_injective h)
all_bytes-size (b ∷ bs) {vs} h =
    let (v, e1, h1) = bind_inverse (bytes_of b) _ h in
    let (rest, e2, h2) = bind_inverse (all_bytes bs) _ h1 in
    let kept : v ∷ rest ≡ vs = ok_injective h2 in
    omega (arith, bytes_of-size b e1, all_bytes-size bs e2, ap (λ xs. sum_of number xs) kept)

-- equal lists of values, of which the second are numbers or null, and not 0 or 1
abbrev AreSizes : List Value → Type 0
AreSizes [] = Unit {0}
AreSizes (v ∷ vs) = ((v ≡ null) ⊎ ((n : ℕ) × (v ≡ int (n + 2)))) × AreSizes vs

same_null : (v : Value) → same v null ≡ true → number v ≡ 0
unfolding same
same_null null h = refl
same_null (bool b) h = cc
same_null (int n) h = cc
same_null (negative n) h = cc
same_null (float s) h = cc
same_null (str s) h = cc
same_null (list vs) h = cc
same_null (object fs) h = cc

small : (m n : ℕ) → (m == n + 2) ≡ true → m ≡ n + 2
small m n h = ground (arith, h)

same_int : (v : Value) (n : ℕ) → same v (int (n + 2)) ≡ true → number v ≡ n + 2
unfolding same
same_int (int m) n h = ground (arith, h)
same_int (bool Bool.true) n h = absurd (omega (arith, small 1 n h))
same_int (bool Bool.false) n h = absurd (omega (arith, small 0 n h))
same_int null n h = cc
same_int (negative m) n h = cc
same_int (float s) n h = cc
same_int (str s) n h = cc
same_int (list vs) n h = cc
same_int (object fs) n h = cc

same_size :
    (v w : Value)
    → same v w ≡ true
    → ((w ≡ null) ⊎ ((n : ℕ) × (w ≡ int (n + 2))))
    → number v ≡ number w
same_size v w h size_w = elim size_w [
  | inl w_null ↦ same_null v (ap (same v) (sym w_null) ∙ h) ∙ sym (ap number w_null)
  | inr (n, w_int) ↦ same_int v n (ap (same v) (sym w_int) ∙ h) ∙ sym (ap number w_int)
]

same_sizes :
    (vs ws : List Value)
    → same (list (as_items vs)) (list (as_items ws)) ≡ true
    → AreSizes ws
    → sum_of number vs ≡ sum_of number ws
unfolding same sum_of
same_sizes [] [] h v = refl
same_sizes [] (w ∷ ws) h v = cc
same_sizes (x ∷ xs) [] h v = cc
same_sizes (x ∷ xs) (w ∷ ws) h v =
    let (first, rest) = both (same x w) (same (list (as_items xs)) (list (as_items ws))) h in
    omega (arith, same_size x w first v.0, same_sizes xs ws rest v.1)

-- the size of the ngrams' state, where a layer has one
optional_size :
    (b : Bool)
    → ((if b then int 368640 else null) ≡ null)
      ⊎ ((n : ℕ) × ((if b then int 368640 else null) ≡ int (n + 2)))
optional_size Bool.true = inr (368638, refl)
optional_size Bool.false = inl refl

expected_bytes-AreSizes : (index : ℕ) → AreSizes (expected_bytes index)
unfolding expected_bytes
expected_bytes-AreSizes index =
    let last = optional_size (index == 1) in
    elim (Bool-cases ((index + 1) % 4 == 0)) [
      | inl fourth ↦ rw fourth (
        inl refl,
        (
          inl refl,
          (inr (16777214, refl), (inr (16777214, refl), (inr (4194302, refl), (last, tt)))),
        ),
      )
      | inr recurrent ↦ rw recurrent (
        inr (122878, refl),
        (inr (3145726, refl), (inl refl, (inl refl, (inl refl, (last, tt))))),
      )
    ]

check_layer-size :
    (position index : ℕ) (layer : Value)
    → check_layer position index layer ≡ ok tt
    → layer_size layer ≡ sum_of number (expected_bytes index)
unfolding check_layer
check_layer-size position index layer h =
    let message : String = "Missing layer state or invalid buffer identity" in
    let (value, e1, h1) = bind_inverse (get_default "buffers" (list nil) layer) _ h in
    let (at_position, e2, h2) = bind_inverse (get_key "position" layer) _ h1 in
    let (u0, e0, h0) = bind_inverse (require (same at_position (int position)) message) _ h2 in
    let (buffers, e3, h3) = bind_inverse (iterate value) _ h0 in
    let (u4, e4, h4) =
      bind_inverse (require (length buffers == 6 && any_there buffers) message) _ h3 in
    let (good, e5, h5) = bind_inverse (are_buffers buffers) _ h4 in
    let (u6, e6, h6) = bind_inverse (require good message) _ h5 in
    let (recorded, e7, h7) = bind_inverse (all_bytes buffers) _ h6 in
    let equal : same (list (as_items recorded)) (list (as_items (expected_bytes index))) ≡ true =
      ground (arith, h7) in
    let there : (get_default "buffers" (list nil) layer >>= iterate) ≡ ok buffers =
      ap (λ r. r >>= iterate) e1 ∙ e3 in
    ap (λ r. sizes r size) there
    ∙ all_bytes-size buffers e7
    ∙ same_sizes recorded (expected_bytes index) equal (expected_bytes-AreSizes index)

-- the bytes that are expected of so many layers from an index on
unfoldable expected_total : ℕ → ℕ → ℕ
expected_total index zero = 0
expected_total index (suc layers) =
    sum_of number (expected_bytes index) + expected_total (suc index) layers

check_layers-size :
    (position index : ℕ) (layers : List Value)
    → check_layers position index layers ≡ ok tt
    → sum_of layer_size layers ≡ expected_total index (length layers)
unfolding check_layers sum_of expected_total
check_layers-size position index [] h = refl
check_layers-size position index (layer ∷ layers) h =
    let (u, e1, h1) = bind_inverse (check_layer position index layer) _ h in
    let first = check_layer-size position index layer e1 in
    let rest = check_layers-size position (suc index) layers h1 in
    ap (λ n. n + sum_of layer_size layers) first
    ∙ ap (λ n. sum_of number (expected_bytes index) + n) rest

all_layers : expected_total 0 48 ≡ 571023360
unfolding expected_total expected_bytes sum_of
all_layers = refl

-- A state that `check_state` accepts has 571023360 bytes in all of its buffers, however far the
-- continuation has gone.
pub check_state-size :
    (state : Value) (work : Work) (consumed : ℕ) (revision : Value)
    → check_state state work consumed revision ≡ ok tt
    → state_size state ≡ 571023360
unfolding check_state
check_state-size state work consumed revision h =
    let message : String = "Incomplete persistent state or changed token/ngram history" in
    let (u1, e1, h1) = bind_inverse (require (is_object state) message) _ h in
    let (recorded, e2, h2) = bind_inverse (get_key "artifact_revision" state) _ h1 in
    let (valid, e3, h3) = bind_inverse (get_key "valid" state) _ h2 in
    let (tokens, e4, h4) = bind_inverse (get_key "tokens" state) _ h3 in
    let (history, e5, h5) = bind_inverse (get_key "history" state) _ h4 in
    let expected = last_two (work.prompt_ids ++ take consumed work.continuation_ids) in
    let (u6, e6, h6) =
      bind_inverse
        (require
          (same recorded revision
            && is_true valid
            && same tokens (int (72 + consumed))
            && same history (list (as_items (map (λ t. int t) expected))))
          message)
        _ h5 in
    let (value, e7, h7) = bind_inverse (get_default "layers" (list nil) state) _ h6 in
    let (layers, e8, h8) = bind_inverse (iterate value) _ h7 in
    let (u9, e9, h9) = bind_inverse (require (length layers == 48) message) _ h8 in
    let whole : length layers ≡ 48 = ground (arith, e9) in
    let there : (get_default "layers" (list nil) state >>= iterate) ≡ ok layers =
      ap (λ r. r >>= iterate) e7 ∙ e8 in
    ap (λ r. sizes r layer_size) there
    ∙ check_layers-size (72 + consumed) 0 layers h9
    ∙ ap (expected_total 0) whole
    ∙ all_layers
