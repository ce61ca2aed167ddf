-- ===== src/Routes/Keys.antt =====
-- What a pass of `route_segments` in scripts/qwen/cache_simulation.py has for keys.
use zerocool.Prelude.{
  ℕ, suc, ◌+◌, ◌-◌, ◌*◌, ◌≤◌, ◌<◌, ◌≡◌, refl, ap, Bool, ◌&&◌, List, [], ◌∷◌, map, arith, ◌==◌,
  nat_eq, length, length-map, ok, bind_inverse, require, sorted_set, insert_number, String,
  Bool-cases, inl, inr, ltb,
}
use zerocool.Json.{Value, at, get_key, is_list, elements, numbers}
use zerocool.Routes.Pass.{
  Pass, layers, experts, top_k, integer, check_format, check_experts, check_tokens, event_of,
  pass_of,
}

length-insert_number : (n : ℕ) (xs : List ℕ) → length (insert_number n xs) ≤ length xs + 1
unfolding insert_number
length-insert_number n [] = omega arith
length-insert_number n (x ∷ xs) = ground (arith, length-insert_number n xs)

length-sorted_set : (xs : List ℕ) → length (sorted_set xs) ≤ length xs
unfolding sorted_set
length-sorted_set [] = omega arith
length-sorted_set (x ∷ xs) =
    omega (arith, length-insert_number x (sorted_set xs), length-sorted_set xs)

length-numbers : (vs : List Value) → length (numbers vs) ≡ length vs
length-numbers [] = refl
length-numbers (v ∷ vs) = ap suc (length-numbers vs)

-- A pass has no more keys than its tokens have routes.
event_of-keys :
    (explicit : Bool) (pointer : String) (row : Value) (layer offset tokens : ℕ) (selected : List ℕ)
    {p : Pass}
    → event_of explicit pointer row layer offset tokens selected ≡ ok p
    → (p.tokens ≡ tokens) × (p.keys ≡ map (λ e. layer * experts + e) (sorted_set selected))
unfolding event_of
event_of-keys explicit pointer row layer offset tokens selected h = (ground arith, ground arith)

integer_inside :
    (value : Value) (minimum maximum : ℕ) (label : String) {n : ℕ}
    → integer value minimum maximum label ≡ ok n
    → n ≤ maximum
unfolding integer
integer_inside value minimum maximum label h = ground arith

-- The checked layer, tokens and routes of a pass.
pub record IsRead (p : Pass) : Type 0 where
  pub layer : ℕ
  pub routes : List Value
  pub low : layer < layers
  pub known : check_experts routes ≡ ok tt
  pub size : length routes ≡ p.tokens * 10
  pub keys : p.keys ≡ map (λ e. layer * experts + e) (sorted_set (numbers routes))

pub pass_of-IsRead :
    (explicit : Bool) (pointer : String) (row : Value) {p : Pass}
    → pass_of explicit pointer row ≡ ok p
    → IsRead p
unfolding pass_of
pass_of-IsRead explicit pointer row {p} h =
    let (u, format, h1) = bind_inverse (check_format row) _ h in
    let (layer_value, e2, h2) = bind_inverse (get_key "layer" row) _ h1 in
    let (layer, e3, h3) = bind_inverse (integer layer_value 0 (layers - 1) "layer") _ h2 in
    let (offset_value, e4, h4) = bind_inverse (get_key "offset" row) _ h3 in
    let (offset, e5, h5) = bind_inverse (integer offset_value 0 8191 "offset") _ h4 in
    let (tokens_value, e6, h6) = bind_inverse (get_key "tokens" row) _ h5 in
    let (tokens, e7, h7) = bind_inverse (integer tokens_value 1 (8192 - offset) "tokens") _ h6 in
    let (routes, e8, h8) = bind_inverse (at "routes" row) _ h7 in
    let selected = numbers (elements routes) in
    let (v, sized, h9) =
      bind_inverse
        (require (is_list routes && length (elements routes) == tokens * top_k)
          "Routes must contain exactly tokens * top-10 expert IDs")
        _ h8 in
    let (w, known, h10) = bind_inverse (check_experts (elements routes)) _ h9 in
    let (x, distinct, h11) = bind_inverse (check_tokens tokens selected) _ h10 in
    let (same, keys) = event_of-keys explicit pointer row layer offset tokens selected h11 in
    record {
      layer = layer;
      routes = elements routes;
      low = omega (arith, integer_inside layer_value 0 (layers - 1) "layer" e3);
      known = known;
      size = ground (arith, sized, same);
      keys = keys;
    }

-- A pass has no more keys than its tokens have routes.
pub pass_of-keys :
    (explicit : Bool) (pointer : String) (row : Value) {p : Pass}
    → pass_of explicit pointer row ≡ ok p
    → length p.keys ≤ p.tokens * 10
pass_of-keys explicit pointer row {p} h =
    let r = pass_of-IsRead explicit pointer row h in
    omega (
      arith,
      ap length r.keys,
      length-map (sorted_set (numbers r.routes)) (λ e. r.layer * experts + e),
      length-sorted_set (numbers r.routes),
      length-numbers r.routes,
      r.size,
    )

-- the numbers are below a bound
abbrev pub AllBelow : ℕ → List ℕ → Type 0
AllBelow n [] = Unit {0}
AllBelow n (x ∷ xs) = (x < n) × AllBelow n xs

AllBelow-insert_number :
    (n x : ℕ) (xs : List ℕ) → x < n → AllBelow n xs → AllBelow n (insert_number x xs)
unfolding insert_number
AllBelow-insert_number n x [] low all = (low, tt)
AllBelow-insert_number n x (y ∷ xs) low all = elim (Bool-cases (x == y)) [
  | inl same ↦ rw same all
  | inr differs ↦ elim (Bool-cases (ltb x y)) [
    | inl less ↦ rw (differs, less) (low, all)
    | inr more ↦ rw (differs, more) (all.0, AllBelow-insert_number n x xs low all.1)
  ]
]

AllBelow-sorted_set : (n : ℕ) (xs : List ℕ) → AllBelow n xs → AllBelow n (sorted_set xs)
unfolding sorted_set
AllBelow-sorted_set n [] all = tt
AllBelow-sorted_set n (x ∷ xs) all =
    AllBelow-insert_number n x (sorted_set xs) all.0 (AllBelow-sorted_set n xs all.1)

AllBelow-numbers :
    (routes : List Value) → check_experts routes ≡ ok tt → AllBelow experts (numbers routes)
unfolding check_experts integer
AllBelow-numbers [] h = tt
AllBelow-numbers (v ∷ routes) h =
    let (n, inside, h1) = bind_inverse (integer v 0 (experts - 1) "expert") _ h in
    (ground (arith, inside), AllBelow-numbers routes h1)

AllBelow-map :
    (layer : ℕ) (xs : List ℕ)
    → layer < layers
    → AllBelow experts xs
    → AllBelow (layers * experts) (map (λ e. layer * experts + e) xs)
AllBelow-map layer [] low all = tt
AllBelow-map layer (x ∷ xs) low all = (omega (arith, low, all.0), AllBelow-map layer xs low all.1)

-- The keys of a pass are those of experts.
pub pass_of-AllBelow :
    (explicit : Bool) (pointer : String) (row : Value) {p : Pass}
    → pass_of explicit pointer row ≡ ok p
    → AllBelow (layers * experts) p.keys
pass_of-AllBelow explicit pointer row h =
    let r = pass_of-IsRead explicit pointer row h in
    rw r.keys (
      AllBelow-map r.layer (sorted_set (numbers r.routes)) r.low
        (AllBelow-sorted_set experts (numbers r.routes) (AllBelow-numbers r.routes r.known)))
