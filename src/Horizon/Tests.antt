-- ===== src/Horizon/Tests.antt =====
-- Tests of `patterns`, of the control and of the windows.
use zerocool.Prelude.{◌≡◌, refl, List, [], ◌∷◌, arith, ok, ok_of, inl}
use zerocool.Dict.{get, put}
use zerocool.Replay.Simulate.Tests.{capture, captured, captured_end, captured_simulates}
use zerocool.Replay.Coverage.{Forward, prefill, decode, check_patterns}
use zerocool.Horizon.{rows_at, decode_from, patterns}
use zerocool.Horizon.Summary.{update, count_layer, on_event, on_events, check_control, curve_at}
use zerocool.Horizon.Control.{check_control-decode_events}
use zerocool.Horizon.Coverage.{patterns-check_patterns}

-- six tokens at width 4: one block, and the rest one by one
six :
    patterns 4 72 6
    ≡ ok (
        record { at = 0; count = 72; phase = prefill }
        ∷ record { at = 72; count = 4; phase = decode }
        ∷ record { at = 76; count = 1; phase = decode }
        ∷ record { at = 77; count = 1; phase = decode }
        ∷ [])
unfolding patterns decode_from rows_at
six = refl

patterns-check_patterns_example :
    (fs : List Forward) × (patterns 4 72 6 ≡ ok fs) × (check_patterns 72 6 fs ≡ ok tt)
patterns-check_patterns_example =
    patterns-check_patterns 4 72 6 (inl refl) (omega arith) (omega arith) (omega arith)
      (omega arith)

-- the control of a capture on one slot
check_control-decode_events_example :
    check_control (ok_of (curve_at captured_end.0 1) captured_simulates).0 captured_end.0 ≡ ok tt
check_control-decode_events_example =
    check_control-decode_events capture 1 1 captured captured_end.1
      (ok_of (curve_at captured_end.0 1) captured_simulates).1

-- the windows of its two forwards: ten experts in each of 48 layers, each chosen by one token
windows_counted :
    on_events captured []
    ≡ ok (
        record { offset = 0; tokens = 1; phase = prefill; histogram = (1, 480) ∷ [] }
        ∷ record { offset = 1; tokens = 1; phase = decode; histogram = (1, 480) ∷ [] }
        ∷ [])
unfolding on_events on_event count_layer update get put
windows_counted = refl
