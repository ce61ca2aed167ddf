-- ===== src/Replay/Decode/Changes.antt =====
-- What a round of the event loop of `decode` in scripts/qwen/block_cache_replay.py does to the
-- cache, the forwards and the requests, as a relation between the states.
use zerocool.Prelude.{
  ℕ, ◌+◌, ◌-◌, ◌<◌, ◌≡◌, refl, sym, ◌∙◌, is_some, ap, Bool, true, false, Option, none, some, List,
  [], ◌∷◌, ◌++◌, arith, length, sorted_set, ok, bind_inverse, require, some_of, ok_of, ◌||◌, nat_eq,
}
use zerocool.Replay.Cache.{Cache, Answer, acquire, lease}
use zerocool.Replay.Events.{
  Capture, Event, LayerDetail, AcquireDetail, LeaseDetail, Snapshot, Stats, acquire_request,
  lease_request, forward_begin, layer_boundary, acquisition, pin, release, snapshot, forward_end,
  unknown,
}
use zerocool.Replay.Coverage.{Forward}
use zerocool.Replay.State.{Active, State, Completed, is_none}
use zerocool.Replay.Layers.{on_layer}
use zerocool.Replay.Snapshots.{on_snapshot, count_snapshot}
use zerocool.Replay.Decode.{
  on_forward_begin, on_acquire, on_lease, on_forward_end, step, handle, is_pin,
}

-- the hits and misses of the cache when the forward under way began
abbrev pub started : Option Active → Option (ℕ × ℕ)
started none = none
started (some a) = some (a.hits_before, a.misses_before)

-- the cache, the forwards and the requests are the same
pub record SameTrace (s s' : State) : Type 0 where
  pub cache : s'.cache ≡ s.cache
  pub forwards : s'.forwards ≡ s.forwards
  pub requests : s'.requests ≡ s.requests

-- the forward that ends has the hits and misses since it began
pub record IsCount (c : Cache) (before : ℕ × ℕ) (f : Completed) : Type 0 where
  pub hits : f.hits ≡ c.hits - before.0
  pub misses : f.misses ≡ c.misses - before.1

pub data Change (w : Capture) (s s' : State) : Type 0 where
  begins :
      SameTrace s s'
      → length s.forwards < length w.patterns
      → started s.active ≡ none
      → started s'.active ≡ some (s.cache.hits, s.cache.misses)
      → Change w s s'
  keeps : SameTrace s s' → started s'.active ≡ started s.active → Change w s s'
  acquires :
      (key kind : ℕ) (a : Answer) (before : ℕ × ℕ)
      → acquire key (some kind) s.cache ≡ ok (s'.cache, a)
      → s'.forwards ≡ s.forwards
      → started s.active ≡ some before
      → started s'.active ≡ some before
      → s'.requests ≡ s.requests ++ acquire_request key (length s.forwards) ∷ []
      → Change w s s'
  leases :
      (released : Bool) (key pins : ℕ)
      → lease key released s.cache ≡ ok (s'.cache, pins)
      → s'.forwards ≡ s.forwards
      → started s'.active ≡ started s.active
      → s'.requests ≡ s.requests ++ lease_request released key (length s.forwards) ∷ []
      → Change w s s'
  ends :
      (f : Completed) (before : ℕ × ℕ)
      → IsCount s.cache before f
      → s'.cache ≡ s.cache
      → s'.requests ≡ s.requests
      → s'.forwards ≡ s.forwards ++ f ∷ []
      → started s.active ≡ some before
      → started s'.active ≡ none
      → Change w s s'

on_forward_begin-Change :
    (w : Capture) (d : Forward) (input : List ℕ) (s : State) {s' : State}
    → on_forward_begin w d input s ≡ ok s'
    → Change w s s'
unfolding on_forward_begin
on_forward_begin-Change w d input s h =
    begins (record { cache = ground arith; forwards = ground arith; requests = ground arith })
      (ground arith) (ground arith) (ground arith)

on_layer-Change :
    (w : Capture) (d : LayerDetail) (s : State) {s' : State} → on_layer d s ≡ ok s' → Change w s s'
unfolding on_layer
on_layer-Change w d s h =
    keeps (record { cache = ground arith; forwards = ground arith; requests = ground arith })
      (ground arith)

count_snapshot-started :
    (o : Option Active) {o' : Option Active} → count_snapshot o ≡ ok o' → started o' ≡ started o
unfolding count_snapshot
count_snapshot-started o h = ground arith

on_snapshot-Change :
    (w : Capture) (d : Snapshot) (t : Stats) (s : State) {s' : State}
    → on_snapshot w d t s ≡ ok s'
    → Change w s s'
unfolding on_snapshot
on_snapshot-Change w d t s h =
    let (active, counted, h1) = bind_inverse (count_snapshot s.active) _ h in
    keeps (record { cache = ground arith; forwards = ground arith; requests = ground arith })
      (ground (arith, count_snapshot-started s.active counted))

abbrev pub after_acquire : ℕ → Cache → Active → State → State
after_acquire key c a s = record s {
  cache = c;
  active = some (record a { index = a.index + 1; demands = a.demands ++ key ∷ [] });
  pending_pin = some key;
  requests = s.requests ++ acquire_request key (length s.forwards) ∷ [];
}

pub on_acquire_lem :
    (w : Capture) (d : AcquireDetail) (s : State) {s' : State} (a : Active)
    → s.active ≡ some a
    → on_acquire w d s ≡ ok s'
    → (c : Cache) × (answer : Answer) × (acquire d.key (some d.acquisition) s.cache
        ≡ ok (c, answer))
      × (s' ≡ after_acquire d.key c a s)
unfolding on_acquire
on_acquire_lem w d s a active h =
    let h1 = rw active at h in
    let ((c, answer), acquired) =
      ok_of (acquire d.key (some d.acquisition) s.cache) (ground arith) in
    let h2 = rw acquired at h1 in (c, answer, acquired, ground arith)

pub on_acquire-active :
    (w : Capture) (d : AcquireDetail) (s : State) {s' : State}
    → on_acquire w d s ≡ ok s'
    → is_some s.active ≡ true
unfolding on_acquire
on_acquire-active w d s h = ground arith

on_acquire-Change :
    (w : Capture) (d : AcquireDetail) (s : State) {s' : State}
    → on_acquire w d s ≡ ok s'
    → Change w s s'
on_acquire-Change w d s h =
    let (a, active) = some_of s.active (on_acquire-active w d s h) in
    let (c, answer, acquired, e) = on_acquire_lem w d s a active h in
    acquires d.key d.acquisition answer (a.hits_before, a.misses_before)
      (acquired ∙ ap (λ t. ok (t.cache, answer)) (sym e)) (ap (λ t. t.forwards) e)
      (ap started active) (ap (λ t. started t.active) e) (ap (λ t. t.requests) e)

on_lease-Change :
    (w : Capture) (released : Bool) (d : LeaseDetail) (s : State) {s' : State}
    → on_lease released d s ≡ ok s'
    → Change w s s'
unfolding on_lease
on_lease-Change w released d s h =
    let ((c, pins), leased) = ok_of (lease d.key released s.cache) (ground arith) in
    leases released d.key pins (ground arith) (ground arith) (ground arith) (ground arith)

on_forward_end-Change :
    (w : Capture) (position : ℕ) (s : State) {s' : State}
    → on_forward_end w position s ≡ ok s'
    → Change w s s'
unfolding on_forward_end
on_forward_end-Change w position s h =
    let (a, active) = some_of s.active (ground arith) in
    let f : Completed = record {
      offset = a.offset;
      tokens = a.tokens;
      phase = a.phase;
      hits = s.cache.hits - a.hits_before;
      misses = s.cache.misses - a.misses_before;
      distinct_records = length (sorted_set a.demands);
      demands = a.demands;
    } in
    ends f (a.hits_before, a.misses_before) (record { hits = refl; misses = refl }) (ground arith)
      (ground arith) (ground arith) (ap started active) (ground arith)

handle-Change :
    (w : Capture) (e : Event) (s : State) {s' : State} → handle w e s ≡ ok s' → Change w s s'
unfolding handle
handle-Change w (forward_begin d input) s h = on_forward_begin-Change w d input s h
handle-Change w (layer_boundary d) s h = on_layer-Change w d s h
handle-Change w (acquisition d) s h = on_acquire-Change w d s h
handle-Change w (pin d) s h = on_lease-Change w false d s h
handle-Change w (release d) s h = on_lease-Change w true d s h
handle-Change w (snapshot d t) s h = on_snapshot-Change w d t s h
handle-Change w (forward_end position) s h = on_forward_end-Change w position s h
handle-Change w (unknown name) s h = cc

-- A round that raises nothing is one of the changes.
pub step-Change :
    (w : Capture) (e : Event) (s : State) {s' : State} → step w e s ≡ ok s' → Change w s s'
unfolding step
step-Change w e s h =
    let (u, paired, h1) =
      bind_inverse
        (require (is_none s.pending_pin || is_pin e) "Acquisition was not pinned immediately") _
        h in
    handle-Change w e s h1
