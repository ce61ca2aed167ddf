-- ===== src/Replay/Cache/Plain.antt =====
-- `Cache.acquire` without the kind of the acquisition, as `simulate` calls it: all of the cache but
-- the two native counters of a hit is as with the kind.
use zerocool.Prelude.{
  ℕ, ◌+◌, ◌/◌, ◌≡◌, refl, Bool, true, Option, none, some, [], ◌∷◌, arith, Result, ok, raise, ◌>>=◌,
  store, item, bind_through, bind_map_through, require, Option-cases, inl, inr, ◌*◌, ◌-◌, ◌++◌,
  nat_eq, leb,
}
use zerocool.Dict.{get}
use zerocool.Replay.Cache.{
  Cache, Order, Entry, acquire, acquire_hit, acquire_miss, promote, select, first_unpinned,
  drop_old, install, lease, entry_at, count_at, count_of, count_kind, layers, experts,
}

-- the cache without the native counters of hits
abbrev pub plain : Cache → Cache
plain c = record c { ready_hits = 0; joins = 0 }

-- The search of an order for an entry without pins does not read those counters.
first_unpinned-plain : (c : Cache) (q : Order) → first_unpinned (plain c) q ≡ first_unpinned c q
unfolding first_unpinned
first_unpinned-plain c [] = refl
first_unpinned-plain c ((k, _) ∷ rest) = rw (first_unpinned-plain c rest)

promote-plain :
    (key : ℕ) (c : Cache) → promote key (plain c) ≡ (promote key c >>= λ c'. ok (plain c'))
unfolding promote
promote-plain key c = ground arith

plain_counted :
    (kind : Option ℕ) (m : Result Cache)
    → ((m >>= λ c. ok (plain c)) >>= λ c. ok (count_kind none c))
      ≡ ((m >>= λ c. ok (count_kind kind c)) >>= λ c. ok (plain c))
unfolding count_of
plain_counted kind (ok c) = refl
plain_counted kind (raise e) = refl

acquire_hit-plain :
    (key : ℕ) (kind : Option ℕ) (slot : ℕ) (c : Cache)
    → acquire_hit key none slot (plain c) ≡ (acquire_hit key kind slot c >>= λ c'. ok (plain c'))
unfolding acquire_hit
acquire_hit-plain key kind slot c = bind_through (entry_at c.slots slot) _ _ _ (λ e.
    bind_through (store c.slots slot (some (record e { referenced = true }))) _ _ _ (λ slots.
      bind_through (count_at c.layer_hits (key / experts)) _ _ _ (λ layer_hits.
        let c' : Cache = record c { slots = slots; hits = c.hits + 1; layer_hits = layer_hits } in
        rw (promote-plain key c') (plain_counted kind (promote key c')))))

select-plain : (c : Cache) → select (plain c) ≡ (select c >>= λ r. ok (r.0, plain r.1))
unfolding select
select-plain c = ground (arith, first_unpinned-plain c (c.probation ++ c.protected))

drop_old-plain :
    (old : Option Entry) (c : Cache)
    → drop_old old (plain c) ≡ (drop_old old c >>= λ c'. ok (plain c'))
unfolding drop_old
drop_old-plain old c = ground arith

install-plain :
    (key slot : ℕ) (c : Cache)
    → install key slot (plain c) ≡ (install key slot c >>= λ r. ok (plain r.0, r.1))
unfolding install
install-plain key slot c =
    bind_through (item c.slots slot) _ _ _ (λ old. ground (arith, drop_old-plain old c))

pub lease-plain :
    (key : ℕ) (released : Bool) (c : Cache)
    → lease key released (plain c) ≡ (lease key released c >>= λ r. ok (plain r.0, r.1))
unfolding lease
lease-plain key released c = ground arith

acquire_miss-plain :
    (key : ℕ) (c : Cache)
    → acquire_miss key (plain c) ≡ (acquire_miss key c >>= λ r. ok (plain r.0, r.1))
unfolding acquire_miss
acquire_miss-plain key c = rw (select-plain c) (
    bind_map_through (select c) _ _ _ _ (λ r. elim (Option-cases r.0) [
      | inl none_free ↦ ground (arith, none_free)
      | inr (slot, found) ↦ ground (arith, found, install-plain key slot r.1)
    ]))

-- An acquisition without a kind is the one with a kind, less the native counters of hits.
pub acquire-plain :
    (key : ℕ) (kind : Option ℕ) (c : Cache)
    → acquire key none (plain c) ≡ (acquire key kind c >>= λ r. ok (plain r.0, r.1))
unfolding acquire
acquire-plain key kind c =
    bind_through
      (require (leb key (layers * experts - 1)) "expert key must be an integer in 0..24575") _ _ _
      (λ u. elim (Option-cases (get key c.lookup)) [
        | inl missing ↦ rw missing (acquire_miss-plain key c)
        | inr (slot, there) ↦ ground (arith, there, acquire_hit-plain key kind slot c)
      ])
