-- ===== src/Capture/Workload.antt =====
-- `append_tokens` of scripts/qwen/capture_routes.py and `workloads` of scripts/qwen/benchmark_exact.py.
use zerocool.Prelude.{
  ℕ, zero, suc, ◌+◌, ◌-◌, ◌/◌, ◌≤◌, ◌<◌, ◌≡◌, refl, sym, ap, ◌∙◌, Bool, true, false, ◌&&◌, Option,
  none, some, List, [], ◌∷◌, ◌++◌, arith, String, ltb, leb, length, length-append, if◌then◌else◌,
  Result, ok, raise, zero_division_error, ok_injective, bind_inverse, ◌>>=◌, ◌>>◌, require,
  require-true, take,
}
use zerocool.Json.{Value, at}
use zerocool.Trace.State.{token_ids}

-- `parts[k]['tokens']`
unfoldable pub part_tokens : String → Value → Result Value
part_tokens k parts = do part ← at k parts; at "tokens" part

-- `append_tokens`, in numbers that `tokens` of route_trace.py has checked
unfoldable pub append_tokens : Value → Result (List ℕ)
append_tokens parts = do
  prefix_value ← part_tokens "prefix" parts
  body_value ← part_tokens "body" parts
  suffix_value ← part_tokens "suffix" parts
  prefix ← token_ids false prefix_value
  body ← token_ids false body_value
  suffix ← token_ids false suffix_value
  require
      (ltb (length prefix + length suffix) 128
        && leb (128 - length prefix - length suffix) (length body))
      "Append framing or body cannot produce exactly 128 tokens"
  ok (prefix ++ (take (128 - length prefix - length suffix) body ++ suffix))

-- a request of a workload; what is not there is none or false
pub record Task : Type 0 where
  pub name : String
  pub tokens : List ℕ
  pub max_tokens : Option ℕ
  pub prime : Bool
  pub append : Bool

-- `seed * n`
abbrev pub repeated : List ℕ → ℕ → List ℕ
repeated seed zero = []
repeated seed (suc n) = seed ++ repeated seed n

-- `sized`
unfoldable pub sized : List ℕ → ℕ → Result (List ℕ)
sized [] n = raise zero_division_error
sized (t ∷ seed) n =
    ok (take n (repeated (t ∷ seed) ((n + length (t ∷ seed) - 1) / length (t ∷ seed))))

abbrev prompt : String → List ℕ → ℕ → Task
prompt name tokens output = record {
  name = name;
  tokens = tokens;
  max_tokens = some output;
  prime = false;
  append = false;
}

-- `workloads`: the cases in the order of the dict
unfoldable pub workloads : List ℕ → ℕ → Bool → Result (List (String × List Task))
workloads seed output include_7k = do
  two ← sized seed 2048
  four ← sized seed 4096
  new ← sized seed 128
  let cases =
      ("prompt_2k", prompt "prompt_2k" two output ∷ [])
      ∷ ("prompt_4k", prompt "prompt_4k" four output ∷ [])
      ∷ (
        "append_128",
        record { name = "prime_4k"; tokens = four; max_tokens = none; prime = true; append = false }
            ∷ record {
              name = "append_128";
              tokens = new;
              max_tokens = some output;
              prime = false;
              append = true;
            }
            ∷ [],
      )
      ∷ []
  if include_7k
      then (do
        seven ← sized seed 7168
        ok (cases ++ ("prompt_7k", prompt "prompt_7k" seven output ∷ []) ∷ []))
      else ok cases

length-take : (n : ℕ) (xs : List ℕ) → n ≤ length xs → length (take n xs) ≡ n
unfolding take
length-take zero xs h = refl
length-take (suc n) [] h = absurd (omega (arith, h))
length-take (suc n) (x ∷ xs) h = ap suc (length-take n xs (omega (arith, h)))

-- Where append_tokens answers, it answers with 128 tokens.
pub length-append_tokens :
    (parts : Value) {ts : List ℕ} → append_tokens parts ≡ ok ts → length ts ≡ 128
unfolding append_tokens
length-append_tokens parts h =
    let (v1, e1, h1) = bind_inverse (part_tokens "prefix" parts) _ h in
    let (v2, e2, h2) = bind_inverse (part_tokens "body" parts) _ h1 in
    let (v3, e3, h3) = bind_inverse (part_tokens "suffix" parts) _ h2 in
    let (prefix, e4, h4) = bind_inverse (token_ids false v1) _ h3 in
    let (body, e5, h5) = bind_inverse (token_ids false v2) _ h4 in
    let (suffix, e6, h6) = bind_inverse (token_ids false v3) _ h5 in
    let (u, e7, h7) =
      bind_inverse
        (require
          (ltb (length prefix + length suffix) 128
            && leb (128 - length prefix - length suffix) (length body))
          "Append framing or body cannot produce exactly 128 tokens")
        _ h6 in
    ap length (sym (ok_injective h7))
    ∙ joined prefix body suffix
        (require-true _ "Append framing or body cannot produce exactly 128 tokens" e7)
  where
    joined :
        (prefix body suffix : List ℕ)
        → (ltb (length prefix + length suffix) 128
            && leb (128 - length prefix - length suffix) (length body))
          ≡ true
        → length (prefix ++ (take (128 - length prefix - length suffix) body ++ suffix)) ≡ 128
    joined prefix body suffix fits =
        let room = 128 - length prefix - length suffix in
        let below : length prefix + length suffix < 128 = ground (arith, fits) in
        let inside : room ≤ length body = ground (arith, fits) in
        omega (
          arith,
          below,
          length-append prefix (take room body ++ suffix),
          length-append (take room body) suffix,
          length-take room body inside,
        )
