-- ===== src/Replay/Simulate/Blocks.antt =====
-- The loop of `simulate` in scripts/qwen/block_cache_replay.py over one request more, and the
-- block that a request counts in.
use zerocool.Prelude.{
  ℕ, ◌≡◌, refl, List, [], ◌∷◌, ◌++◌, map, length, length-map, Result, ok, raise, ◌>>=◌,
  bind_through, item, store, ap, sym, ◌∙◌,
}
use zerocool.Replay.Cache.{Cache}
use zerocool.Replay.Events.{Request}
use zerocool.Replay.State.{Completed}
use zerocool.Replay.Simulate.{Block, apply, apply_all}

-- the hits and misses of a forward of `decode`
abbrev pub block_of : Completed → Block
block_of f = (f.hits, f.misses)

pub block_of_lem :
    (f : Completed) (hits misses : ℕ)
    → hits ≡ f.hits
    → misses ≡ f.misses
    → ◌≡◌ {A = Block} (hits, misses) (block_of f)
block_of_lem f hits misses e d = rw (e, d) refl

bind_ok {ℓ} : {A : Type ℓ} (m : Result A) → (m >>= λ a. ok a) ≡ m
bind_ok (ok a) = refl
bind_ok (raise e) = refl

-- One request more at the end is applied last.
pub apply_all-append :
    (requests : List Request) (r : Request) (s : Cache × List Block)
    → apply_all (requests ++ r ∷ []) s ≡ (apply_all requests s >>= apply r)
unfolding apply_all
apply_all-append [] r s = bind_ok (apply r s)
apply_all-append (q ∷ requests) r s =
    bind_through (apply q s) _ _ _ (λ s'. apply_all-append requests r s')

module _ {ℓ} {A : Type ℓ} where
  item_middle : (xs ys : List A) (b : A) → item (xs ++ b ∷ ys) (length xs) ≡ ok b
  unfolding item
  item_middle [] ys b = refl
  item_middle (x ∷ xs) ys b = item_middle xs ys b

  store_middle : (xs ys : List A) (b v : A) → store (xs ++ b ∷ ys) (length xs) v ≡ ok (xs ++ v ∷ ys)
  unfolding store
  store_middle [] ys b v = refl
  store_middle (x ∷ xs) ys b v = rw (store_middle xs ys b v)

-- The block of the forward under way stands behind those of the completed forwards.
pub item_current :
    (forwards : List Completed) (later : List Block) (b : Block)
    → item (map block_of forwards ++ b ∷ later) (length forwards) ≡ ok b
item_current forwards later b =
    ap (item (map block_of forwards ++ b ∷ later)) (sym (length-map forwards block_of))
    ∙ item_middle (map block_of forwards) later b

pub store_current :
    (forwards : List Completed) (later : List Block) (b v : Block)
    → store (map block_of forwards ++ b ∷ later) (length forwards) v
      ≡ ok (map block_of forwards ++ v ∷ later)
store_current forwards later b v =
    ap (λ i. store (map block_of forwards ++ b ∷ later) i v) (sym (length-map forwards block_of))
    ∙ store_middle (map block_of forwards) later b v

pub map-append_one :
    (forwards : List Completed) (f : Completed) (later : List Block)
    → map block_of forwards ++ block_of f ∷ later ≡ map block_of (forwards ++ f ∷ []) ++ later
map-append_one [] f later = refl
map-append_one (g ∷ forwards) f later = ap (λ l. block_of g ∷ l) (map-append_one forwards f later)
