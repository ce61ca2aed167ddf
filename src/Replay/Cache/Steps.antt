-- ===== src/Replay/Cache/Steps.antt =====
-- What the parts of `Cache.acquire` compute under second chance, where they raise nothing.
use zerocool.Prelude.{
  nat_eq, ℕ, ◌+◌, ◌*◌, ◌/◌, ◌<◌, ◌≡◌, refl, true, Option, none, some, List, arith, length, get_or,
  set, if◌then◌else◌, ok, item_inside, store_inside,
}
use zerocool.Dict.{get, put, remove, delete_present}
use zerocool.Replay.Cache.{
  clock, is_slru, Entry, Slots, Cache, experts, count_at, entry_at, promote, count_kind,
  acquire_hit, scan, select, drop_old, victim, install,
}

pub count_at_inside :
    (counts : List ℕ) (i : ℕ)
    → i < length counts
    → count_at counts i ≡ ok (set counts i (get_or counts i 0 + 1))
unfolding count_at
count_at_inside counts i h =
    rw (item_inside counts i 0 h, store_inside counts i (get_or counts i 0 + 1) h)

pub entry_at-some :
    (slots : Slots) (i : ℕ) (e : Entry)
    → i < length slots
    → get_or slots i none ≡ some e
    → entry_at slots i ≡ ok e
unfolding entry_at
entry_at-some slots i e h there = rw (item_inside slots i none h, there)

-- the cache after a hit, but for the kind of the acquisition
abbrev pub after_hit : ℕ → ℕ → Entry → Cache → Cache
after_hit key slot e c = record c {
  slots = set c.slots slot (some (record e { referenced = true }));
  hits = c.hits + 1;
  layer_hits = set c.layer_hits (key / experts) (get_or c.layer_hits (key / experts) 0 + 1);
}

promote-clock : (key : ℕ) (c : Cache) → c.policy ≡ clock → promote key c ≡ ok c
unfolding promote
promote-clock key c p = ground arith

pub acquire_hit_lem :
    (key : ℕ) (kind : Option ℕ) (slot : ℕ) (e : Entry) (c : Cache)
    → c.policy ≡ clock
    → slot < length c.slots
    → key / experts < length c.layer_hits
    → get_or c.slots slot none ≡ some e
    → acquire_hit key kind slot c ≡ ok (count_kind kind (after_hit key slot e c))
unfolding acquire_hit
acquire_hit_lem key kind slot e c p h k there = rw (
  entry_at-some c.slots slot e h there,
  store_inside c.slots slot (some (record e { referenced = true })) h,
  count_at_inside c.layer_hits (key / experts) k,
  promote-clock key (after_hit key slot e c) p,
)

pub select-scan :
    (c : Cache) (selected : Option ℕ) (slots : Slots) (hand : ℕ)
    → c.policy ≡ clock
    → scan (2 * c.capacity + 1) clock c.capacity c.slots c.hand ≡ ok (selected, slots, hand)
    → select c ≡ ok (selected, record c { slots = slots; hand = hand })
unfolding select
select-scan c selected slots hand p e = ground (arith, e)

-- the cache without the entry of the slot, and how many entries that were
abbrev pub without_old : Option Entry → Cache → Cache
without_old none c = c
without_old (some old) c = record c {
  lookup = remove old.key c.lookup;
  probation = remove old.key c.probation;
  protected = remove old.key c.protected;
  evictions = c.evictions + 1;
}

pub drop_old_lem :
    (o : Option Entry) (slot : ℕ) (c : Cache)
    → ((e : Entry) → o ≡ some e → get e.key c.lookup ≡ some slot)
    → drop_old o c ≡ ok (without_old o c)
unfolding drop_old
drop_old_lem none slot c listed = refl
drop_old_lem (some old) slot c listed = rw (delete_present old.key slot c.lookup (listed old refl))

-- the cache after a miss that takes `slot`
abbrev pub taken : ℕ → ℕ → Cache → Cache
taken key slot c = record c {
  slots = set c.slots slot (some (record { key = key; referenced = true; pins = 0 }));
  lookup = put key slot c.lookup;
  probation = if is_slru c.policy then put key tt c.probation else c.probation;
  misses = c.misses + 1;
  layer_misses = set c.layer_misses (key / experts) (get_or c.layer_misses (key / experts) 0 + 1);
}

pub install_old :
    (key slot : ℕ) (o : Option Entry) (c : Cache)
    → get_or c.slots slot none ≡ o
    → slot < length c.slots
    → key / experts < length c.layer_misses
    → ((e : Entry) → o ≡ some e → get e.key c.lookup ≡ some slot)
    → install key slot c ≡ ok (taken key slot (without_old o c), victim o)
unfolding install
install_old key slot none c there h k listed = rw (
  item_inside c.slots slot none h,
  there,
  drop_old_lem none slot c listed,
  store_inside c.slots slot (some (record { key = key; referenced = true; pins = 0 })) h,
  count_at_inside c.layer_misses (key / experts) k,
)
install_old key slot (some old) c there h k listed = rw (
  item_inside c.slots slot none h,
  there,
  drop_old_lem (some old) slot c listed,
  store_inside c.slots slot (some (record { key = key; referenced = true; pins = 0 })) h,
  count_at_inside c.layer_misses (key / experts) k,
)
