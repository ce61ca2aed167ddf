-- ===== src/Replay/Cache/Counts.antt =====
-- What `acquire` and `lease` of scripts/qwen/block_cache_replay.py make of the counts of hits and
-- misses.
use zerocool.Prelude.{
  ℕ, nat_eq, ◌+◌, ◌≡◌, Bool, true, false, Option, some, arith, if◌then◌else◌, ok, bind_inverse,
  require, leb, ◌*◌, ◌-◌, item, store, ◌/◌, inl, inr, Option-cases,
}
use zerocool.Dict.{get}
use zerocool.Replay.Cache.{
  Cache, Entry, Answer, acquire, acquire_hit, acquire_miss, promote, select, drop_old, install,
  lease, entry_at, count_at, experts, layers,
}

-- the counts are the same
abbrev pub SameCounts : Cache → Cache → Type 0
SameCounts c c' = (c'.hits ≡ c.hits) × (c'.misses ≡ c.misses)

-- one hit more, or one miss more
abbrev pub Counts : Bool → Cache → Cache → Type 0
Counts hit c c' =
    (c'.hits ≡ c.hits + (if hit then 1 else 0)) × (c'.misses ≡ c.misses + (if hit then 0 else 1))

promote-SameCounts : (key : ℕ) (c : Cache) {c' : Cache} → promote key c ≡ ok c' → SameCounts c c'
unfolding promote
promote-SameCounts key c h = ground arith

select-SameCounts :
    (c : Cache) {selected : Option ℕ} {c' : Cache} → select c ≡ ok (selected, c') → SameCounts c c'
unfolding select
select-SameCounts c h = ground arith

drop_old-SameCounts :
    (old : Option Entry) (c : Cache) {c' : Cache} → drop_old old c ≡ ok c' → SameCounts c c'
unfolding drop_old
drop_old-SameCounts old c h = ground arith

install-Counts :
    (key slot : ℕ) (c : Cache) {c' : Cache} {evicted : Option ℕ}
    → install key slot c ≡ ok (c', evicted)
    → Counts false c c'
unfolding install
install-Counts key slot c h =
    let (old, there, h1) = bind_inverse (item c.slots slot) _ h in
    let (c1, dropped, h2) = bind_inverse (drop_old old c) _ h1 in
    ground (arith, drop_old-SameCounts old c dropped)

acquire_hit-Counts :
    (key : ℕ) (kind : Option ℕ) (slot : ℕ) (c : Cache) {c' : Cache}
    → acquire_hit key kind slot c ≡ ok c'
    → Counts true c c'
unfolding acquire_hit
acquire_hit-Counts key kind slot c h =
    let (e, there, h1) = bind_inverse (entry_at c.slots slot) _ h in
    let (slots, stored, h2) =
      bind_inverse (store c.slots slot (some (record e { referenced = true }))) _ h1 in
    let (layer_hits, counted, h3) = bind_inverse (count_at c.layer_hits (key / experts)) _ h2 in
    let hit : Cache = record c { slots = slots; hits = c.hits + 1; layer_hits = layer_hits } in
    let (c1, promoted, h4) = bind_inverse (promote key hit) _ h3 in
    ground (arith, promote-SameCounts key hit promoted)

pub lease-SameCounts :
    (key : ℕ) (released : Bool) (c : Cache) {c' : Cache} {pins : ℕ}
    → lease key released c ≡ ok (c', pins)
    → SameCounts c c'
unfolding lease
lease-SameCounts key released c h = ground arith

acquire_miss-Counts :
    (key : ℕ) (c : Cache) {c' : Cache} {a : Answer}
    → acquire_miss key c ≡ ok (c', a)
    → Counts a.hit c c' × (a.hit ≡ false)
unfolding acquire_miss
acquire_miss-Counts key c h =
    let ((selected, c1), chosen, h1) = bind_inverse (select c) _ h in
    let same = select-SameCounts c chosen in
    elim (Option-cases selected) [
      | inl none_free ↦ ground (arith, none_free)
      | inr (slot, found) ↦
          let h2 = rw found at h1 in
          let ((c2, evicted), placed, h3) = bind_inverse (install key slot c1) _ h2 in
          ground (arith, install-Counts key slot c1 placed)
    ]

-- An acquisition counts one hit, or one miss, as it answers.
pub acquire-Counts :
    (key : ℕ) (kind : Option ℕ) (c : Cache) {c' : Cache} {a : Answer}
    → acquire key kind c ≡ ok (c', a)
    → Counts a.hit c c'
unfolding acquire
acquire-Counts key kind c h =
    let (u, inside, h1) =
      bind_inverse
        (require (leb key (layers * experts - 1)) "expert key must be an integer in 0..24575") _
        h in
    elim (Option-cases (get key c.lookup)) [
      | inl missing ↦ (acquire_miss-Counts key c (rw missing at h1)).0
      | inr (slot, there) ↦
          let (c1, hit, h2) = bind_inverse (acquire_hit key kind slot c) _ (rw there at h1) in
          ground (arith, acquire_hit-Counts key kind slot c hit)
    ]
