-- ===== src/Replay/Decode/Pairs.antt =====
-- The order of acquisitions and pins among the requests that `decode` of
-- scripts/qwen/block_cache_replay.py records.
use zerocool.Prelude.{
  ℕ, ◌≡◌, refl, ap, ◌∙◌, Bool, true, false, ◌||◌, Option, none, some, List, [], ◌∷◌, ◌++◌, arith,
  length, ok, ok_injective, not, bind_inverse, require, some_of, Option-cases, inl, inr, nat_eq,
  ◌==◌, if◌then◌else◌, nat_equal_iff,
}
use zerocool.Replay.Cache.{clock, cache}
use zerocool.Replay.Coverage.{Forward, check_patterns}
use zerocool.Replay.Events.{
  Capture, Event, LayerDetail, AcquireDetail, LeaseDetail, Snapshot, Stats, Request,
  acquire_request, lease_request, forward_begin, layer_boundary, acquisition, pin, release,
  snapshot, forward_end, unknown,
}
use zerocool.Replay.State.{State, initial, is_none, same_option}
use zerocool.Replay.Layers.{on_layer}
use zerocool.Replay.Snapshots.{on_snapshot}
use zerocool.Replay.Decode.{
  on_forward_begin, on_acquire, on_lease, on_forward_end, handle, step, run, is_pin, decode_events,
}
use zerocool.Replay.Decode.Changes.{on_acquire_lem, on_acquire-active}

-- An acquisition waits for the pin of its key, and nothing else may come before that; a pin comes
-- only so.
unfoldable pub next : Option ℕ → Request → Option (Option ℕ)
next none (acquire_request key forward) = some (some key)
next none (lease_request true key forward) = some none
next none (lease_request false key forward) = none
next (some waiting) (acquire_request key forward) = none
next (some waiting) (lease_request true key forward) = none
next (some waiting) (lease_request false key forward) = if waiting == key then some none else none

-- the key that waits after some requests, where they are in that order
unfoldable pub follow : Option ℕ → List Request → Option (Option ℕ)
follow waiting [] = some waiting
follow waiting (r ∷ requests) = elim (next waiting r) [ none ↦ none | some w ↦ follow w requests ]

follow-append :
    (waiting : Option ℕ) (requests : List Request) (r : Request) (w : Option ℕ)
    → follow waiting requests ≡ some w
    → follow waiting (requests ++ r ∷ []) ≡ next w r
unfolding follow
follow-append waiting [] r w h = ground arith
follow-append waiting (q ∷ requests) r w h = elim (Option-cases (next waiting q)) [
  | inl stops ↦ ground (arith, stops)
  | inr (v, goes) ↦
      let later = follow-append v requests r w (ground (arith, goes)) in ground (arith, goes, later)
]

-- the requests and the pending pin are the same
abbrev SamePairs : State → State → Type 0
SamePairs s s' = (s'.requests ≡ s.requests) × (s'.pending_pin ≡ s.pending_pin)

-- the requests are in order up to the pending pin
abbrev IsPaired : State → Type 0
IsPaired s = follow none s.requests ≡ some s.pending_pin

on_forward_begin-SamePairs :
    (w : Capture) (d : Forward) (input : List ℕ) (s : State) {s' : State}
    → on_forward_begin w d input s ≡ ok s'
    → SamePairs s s'
unfolding on_forward_begin
on_forward_begin-SamePairs w d input s h = (ground arith, ground arith)

on_layer-SamePairs :
    (d : LayerDetail) (s : State) {s' : State} → on_layer d s ≡ ok s' → SamePairs s s'
unfolding on_layer
on_layer-SamePairs d s h = (ground arith, ground arith)

on_snapshot-SamePairs :
    (w : Capture) (d : Snapshot) (t : Stats) (s : State) {s' : State}
    → on_snapshot w d t s ≡ ok s'
    → SamePairs s s'
unfolding on_snapshot
on_snapshot-SamePairs w d t s h = (ground arith, ground arith)

on_forward_end-SamePairs :
    (w : Capture) (position : ℕ) (s : State) {s' : State}
    → on_forward_end w position s ≡ ok s'
    → SamePairs s s'
unfolding on_forward_end
on_forward_end-SamePairs w position s h = (ground arith, ground arith)

on_lease_requests :
    (released : Bool) (d : LeaseDetail) (s : State) {s' : State}
    → on_lease released d s ≡ ok s'
    → s'.requests ≡ s.requests ++ lease_request released d.key (length s.forwards) ∷ []
unfolding on_lease
on_lease_requests released d s h = ground arith

on_lease_pending :
    (released : Bool) (d : LeaseDetail) (s : State) {s' : State}
    → on_lease released d s ≡ ok s'
    → (s'.pending_pin ≡ (if released then s.pending_pin else none))
      × ((released || same_option (some d.key) s.pending_pin) ≡ true)
unfolding on_lease
on_lease_pending released d s h = ground arith

IsPaired-same : (s s' : State) → SamePairs s s' → IsPaired s → IsPaired s'
IsPaired-same s s' same h = rw (same.0, same.1) h

on_acquire-IsPaired :
    (w : Capture) (d : AcquireDetail) (s : State) {s' : State}
    → on_acquire w d s ≡ ok s'
    → is_none s.pending_pin ≡ true
    → IsPaired s
    → IsPaired s'
unfolding next
on_acquire-IsPaired w d s h idle v =
    let (a, active) = some_of s.active (on_acquire-active w d s h) in
    let (c, answer, acquired, e) = on_acquire_lem w d s a active h in
    let nothing : s.pending_pin ≡ none = ground arith in
    rw e (
      follow-append none s.requests (acquire_request d.key (length s.forwards)) none
        (v ∙ ap some nothing))

on_lease-IsPaired :
    (released : Bool) (d : LeaseDetail) (s : State) {s' : State}
    → on_lease released d s ≡ ok s'
    → (is_none s.pending_pin || not released) ≡ true
    → IsPaired s
    → IsPaired s'
unfolding next
on_lease-IsPaired released d s h paired v =
    let r = lease_request released d.key (length s.forwards) in
    let pending = on_lease_pending released d s h in
    let last = follow-append none s.requests r s.pending_pin v in
    let ends : next s.pending_pin r ≡ some (if released then s.pending_pin else none) =
      ground (arith, pending.1, nat_equal_iff d.key d.key) in
    rw (on_lease_requests released d s h, pending.0) (last ∙ ends)

step-IsPaired :
    (w : Capture) (e : Event) (s : State) {s' : State}
    → step w e s ≡ ok s'
    → IsPaired s
    → IsPaired s'
unfolding step handle
step-IsPaired w e s {s'} h v =
    let (u, paired, h1) =
      bind_inverse
        (require (is_none s.pending_pin || is_pin e) "Acquisition was not pinned immediately") _
        h in
    handled e (ground (arith, paired)) h1
  where
    handled :
        (e : Event)
        → (is_none s.pending_pin || is_pin e) ≡ true
        → handle w e s ≡ ok s'
        → IsPaired s'
    handled (forward_begin d input) turn h =
        IsPaired-same s s' (on_forward_begin-SamePairs w d input s h) v
    handled (layer_boundary d) turn h = IsPaired-same s s' (on_layer-SamePairs d s h) v
    handled (acquisition d) turn h = on_acquire-IsPaired w d s h (ground (arith, turn)) v
    handled (pin d) turn h = on_lease-IsPaired false d s h (ground (arith, turn)) v
    handled (release d) turn h = on_lease-IsPaired true d s h (ground (arith, turn)) v
    handled (snapshot d t) turn h = IsPaired-same s s' (on_snapshot-SamePairs w d t s h) v
    handled (forward_end position) turn h =
        IsPaired-same s s' (on_forward_end-SamePairs w position s h) v
    handled (unknown name) turn h = cc

run-IsPaired :
    (w : Capture) (events : List Event) (s : State) {s' : State}
    → run w events s ≡ ok s'
    → IsPaired s
    → IsPaired s'
unfolding run
run-IsPaired w [] s h v = rw (ok_injective h) at v
run-IsPaired w (e ∷ events) s h v =
    let (s1, stepped, h1) = bind_inverse (step w e s) _ h in
    run-IsPaired w events s1 h1 (step-IsPaired w e s stepped v)

-- Where `decode` accepts, each acquisition among the requests that it recorded is followed at once
-- by the pin of its key, each pin follows an acquisition of its key, and no acquisition at the end
-- waits for its pin.
pub follow-decode_events :
    (w : Capture) (prompt continuation : ℕ) (events : List Event) {s : State}
    → decode_events w prompt continuation events ≡ ok s
    → follow none s.requests ≡ some none
unfolding decode_events
follow-decode_events w prompt continuation events {s} h =
    let (c, made, h1) = bind_inverse (cache w.capacity clock) _ h in
    let (u, covered, h2) = bind_inverse (check_patterns prompt continuation w.patterns) _ h1 in
    let (s1, ran, h3) = bind_inverse (run w events (initial c)) _ h2 in
    let v = run-IsPaired w events (initial c) ran (unfold follow in refl) in ground (arith, v)
