-- ===== src/Simulation/Belady/Access.antt =====
-- `Belady.access` on a well-formed state.
use Prim.Native.Nat.{max}
use zerocool.Prelude.{
  ℕ, suc, ◌*◌, ◌≤◌, ◌<◌, ◌≡◌, ◌≢◌, ◌⊎◌, refl, ◌∙◌, true, false, not, ◌&&◌, none, some, List, [],
  ◌∷◌, arith, ◌==◌, nat_eq, nat_equal_iff, if◌then◌else◌, ltb, length, length-map, get_or, is_some,
  item_inside, ok, Bool-cases, Option-cases, inl, inr,
}
use zerocool.Dict.{
  Dict, get, put, remove, contains, contains-get, get-put, get-remove, IsDistinct, put-IsDistinct,
  remove-IsDistinct, length-put_new, length-put_old, length-remove,
}
use zerocool.Simulation.Belady.{Belady, Entry, entries, admit, make_room, access, evict}
use zerocool.Simulation.Belady.Heap.{same_iff, has}
use zerocool.Simulation.Belady.Evict.{Covers, evict-Evicted}

pub record IsValid (b : Belady) : Type 0 where
  pub distinct : IsDistinct b.resident
  pub bound : length b.resident ≤ b.capacity
  pub covers : Covers b.resident b.heap
  pub heap_bound : length b.heap ≤ 2 * max 1 b.capacity

entries-Covers : (d : Dict ℕ ℕ) → Covers d (entries d)
unfolding get has
entries-Covers [] k n h = cc
entries-Covers ((j, m) ∷ d) k n h =
    ground (arith, same_iff (m, j) (n, k), nat_equal_iff j k, entries-Covers d k n)

push-Covers :
    (key n : ℕ) (d : Dict ℕ ℕ) (heap : List Entry)
    → Covers d heap
    → Covers (put key n d) ((n, key) ∷ heap)
unfolding has
push-Covers key n d heap covers k m h =
    ground (arith, get-put key k n d, same_iff (n, key) (m, k), nat_equal_iff key k, covers k m)

-- The last step keeps the heap's bound: it is rebuilt where it would pass it.
admit-IsValid :
    (b : Belady) (key n : ℕ) (d : Dict ℕ ℕ) (heap : List Entry)
    → IsDistinct d
    → Covers d heap
    → length (put key n d) ≤ b.capacity
    → IsValid (admit b key n d heap)
unfolding admit
admit-IsValid b key n d heap distinct covers bound =
    elim (Bool-cases (ltb (2 * max 1 b.capacity) (suc (length heap)))) [
      | inl long ↦ record {
        distinct = put-IsDistinct key n d distinct;
        bound = bound;
        covers = rw long (entries-Covers (put key n d));
        heap_bound =
            rw long (omega (arith, length-map {B = Entry} (put key n d) (λ e. (e.1, e.0)), bound));
      }
      | inr short ↦ record {
        distinct = put-IsDistinct key n d distinct;
        bound = bound;
        covers = rw short (push-Covers key n d heap covers);
        heap_bound = rw short (ground arith);
      }
    ]

-- What becomes of the resident keys: the key gets the next use `n`, and where it was new and the
-- cache full, a key with the latest next use goes.
abbrev pub Replaces : ℕ → ℕ → Belady → Belady → Type 0
Replaces key n b b' =
    (((get key b.resident ≢ none) ⊎ (length b.resident < b.capacity))
      × ((k : ℕ) → get k b'.resident ≡ (if key == k then some n else get k b.resident)))
    ⊎ ((victim : ℕ) × (m : ℕ) × (get key b.resident ≡ none)
        × (length b.resident ≡ b.capacity)
        × (get victim b.resident ≡ some m)
        × ((k j : ℕ) → get k b.resident ≡ some j → j ≤ m)
        × ((k : ℕ)
            → get k b'.resident
              ≡ (if key == k then some n else if victim == k then none else get k b.resident)))

abbrev Accessed : ℕ → ℕ → Belady → Type 0
Accessed key position b =
    (b' : Belady) × (access key position b ≡ ok (b', is_some (get key b.resident)))
    × IsValid b'
    × (b'.capacity ≡ b.capacity)
    × (b'.next ≡ b.next)
    × Replaces key (get_or b.next position 0) b b'

get-admit :
    (b : Belady) (key n : ℕ) (d : Dict ℕ ℕ) (heap : List Entry) (k : ℕ)
    → get k (admit b key n d heap).resident ≡ (if key == k then some n else get k d)
unfolding admit
get-admit b key n d heap k = get-put key k n d

module _ (key position : ℕ) (b : Belady) (v : IsValid b) (some_slots : 0 < b.capacity)
    (known : position < length b.next) where
  admitted :
      (d : Dict ℕ ℕ) (heap : List Entry)
      → make_room b (is_some (get key b.resident)) ≡ ok (d, heap)
      → access key position b
        ≡ ok (admit b key (get_or b.next position 0) d heap, is_some (get key b.resident))
  unfolding access
  admitted d heap e =
      let positive : (b.capacity == 0) ≡ false = ground arith in
      rw (positive, access, e, item_inside b.next position 0 known) refl

  -- a hit, or room left
  access_kept :
      ((get key b.resident ≢ none) ⊎ (length b.resident < b.capacity))
      → (not (is_some (get key b.resident)) && length b.resident == b.capacity) ≡ false
      → length (put key (get_or b.next position 0) b.resident) ≤ b.capacity
      → Accessed key position b
  unfolding make_room
  access_kept why test fits = (
    admit b key (get_or b.next position 0) b.resident b.heap,
    admitted b.resident b.heap (rw (test, make_room) refl),
    admit-IsValid b key (get_or b.next position 0) b.resident b.heap v.distinct v.covers fits,
    unfold admit in refl,
    unfold admit in refl,
    inl (why, get-admit b key (get_or b.next position 0) b.resident b.heap),
  )

  room_by_evicting :
      get key b.resident ≡ none
      → length b.resident ≡ b.capacity
      → make_room b (is_some (get key b.resident)) ≡ evict (suc (length b.heap)) b.resident b.heap
  unfolding make_room
  room_by_evicting new full =
      rw new (rw ((nat_equal_iff (length b.resident) b.capacity).1 full) refl)

  access_evicting :
      (k n : ℕ)
      → get k b.resident ≡ some n
      → get key b.resident ≡ none
      → length b.resident ≡ b.capacity
      → Accessed key position b
  access_evicting k n there new full =
      let (victim, m, heap, e, ev) =
        evict-Evicted (suc (length b.heap)) b.resident b.heap k n (omega arith) v.covers there in
      let d = remove victim b.resident in
      let stood : contains victim b.resident ≡ true =
        rw (contains-get victim b.resident, ev.stood) refl in
      let absent : contains key d ≡ false =
        ground (arith, contains-get key d, get-remove victim key b.resident) in
      (
        admit b key (get_or b.next position 0) d heap,
        admitted d heap (room_by_evicting new full ∙ e),
        admit-IsValid b key (get_or b.next position 0) d heap
            (remove-IsDistinct victim b.resident v.distinct) ev.covers
            (omega (
              arith,
              length-put_new key (get_or b.next position 0) d absent,
              length-remove victim b.resident v.distinct stood,
            )),
        unfold admit in refl,
        unfold admit in refl,
        inr (victim, m, new, full, ev.stood, ev.latest, λ j. rw (get-admit, get-remove) refl),
      )

-- a key of a dictionary that is not empty
some_key : (d : Dict ℕ ℕ) → 0 < length d → (k : ℕ) × (n : ℕ) × (get k d ≡ some n)
unfolding get
some_key [] h = absurd (omega arith)
some_key ((k, n) ∷ d) h = (k, n, ground (arith, nat_equal_iff k k))

-- On a well-formed state with slots, at a position that the table covers, an access ends and
-- raises nothing. It answers whether the key was resident, keeps the state well-formed with its
-- capacity and its table, and evicts only a key with the latest next use, on a miss at full
-- capacity.
pub access-Replaces :
    (key position : ℕ) (b : Belady)
    → IsValid b
    → 0 < b.capacity
    → position < length b.next
    → (b' : Belady) × (access key position b ≡ ok (b', is_some (get key b.resident)))
      × IsValid b'
      × (b'.capacity ≡ b.capacity)
      × (b'.next ≡ b.next)
      × Replaces key (get_or b.next position 0) b b'
access-Replaces key position b v some_slots known = elim (Option-cases (get key b.resident)) [
  | inr (n, there) ↦ access_kept key position b v some_slots known (inl (λ e. cc)) (rw there refl) (
      omega (
        arith,
        v.bound,
        length-put_old key (get_or b.next position 0) b.resident
            (rw (contains-get key b.resident, there) refl),
      ))
  | inl new ↦ elim (Bool-cases (length b.resident == b.capacity)) [
    | inr room ↦
        access_kept key position b v some_slots known (inr (ground (arith, v.bound)))
          (rw (new, room) refl)
          (ground (
            arith,
            v.bound,
            length-put_new key (get_or b.next position 0) b.resident
                (rw (contains-get key b.resident, new) refl),
          ))
    | inl full ↦
        let f = (nat_equal_iff (length b.resident) b.capacity).0 full in
        let (k, n, there) = some_key b.resident (omega arith) in
        access_evicting key position b v some_slots known k n there new f
  ]
]
