-- ===== src/Bcm/Monitor/Laws.antt =====
-- A run records, alerts and blocks exactly what it should, and agrees with the offline path.
use mcp_contract.Base.{
  ℕ, suc, ◌≡◌, refl, ap, Bool, false, ◌&&◌, ◌||◌, List, [], ◌∷◌, ◌++◌, Option, none, some,
  if◌then◌else◌, take, keep, leb, Text, text_eq, nat_eq, Exception, Builtins,
}
use mcp_contract.Models.{id_eq, status_eq, class_eq, BehaviorEvent}
use Prim.Native.Nat.{max}
use mcp_contract.Models.Report.{is_outside}
use mcp_contract.Bcm.Diff.{classify_event, track_tool_ctx}
use mcp_contract.Bcm.Offline.{classified, annotate}
use mcp_contract.Bcm.Monitor.{
  Monitor, Run, Hooks, Outcome, alerts_in, blocks, failure, first_of, continued, reached,
  handle_event, run_stream, Rounds, expired, timed_out, received, ended, run_timed,
}

-- The events that a run handles when it has already recorded `k`.
abbrev handled : Option ℕ → ℕ → List BehaviorEvent → List BehaviorEvent
handled most k [] = []
handled most k (e ∷ es) =
    let rest = handled most (suc k) es in e ∷ (if reached most (suc k) then [] else rest)

-- Whether a run that has recorded `k` events stops within the stream.
abbrev stops : Option ℕ → ℕ → List BehaviorEvent → Bool
stops most k [] = false
stops most k (e ∷ es) = let later = stops most (suc k) es in reached most (suc k) || later

-- The events up to the first that raises, and what is raised first.
abbrev and_then : Option Exception → List BehaviorEvent → List BehaviorEvent
and_then (some x) es = []
and_then none es = es

abbrev pub through : (BehaviorEvent → Option Exception) → List BehaviorEvent → List BehaviorEvent
through f [] = []
through f (e ∷ es) = let rest = through f es in e ∷ and_then (f e) rest

abbrev pub first_failure :
    (BehaviorEvent → Option Exception) → List BehaviorEvent → Option Exception
first_failure f [] = none
first_failure f (e ∷ es) = let rest = first_failure f es in first_of (f e) rest

module _ (py : Builtins) (m : Monitor) (h : Hooks) (most : Option ℕ) where
  abbrev marks : Option Text → List BehaviorEvent → List BehaviorEvent
  marks = annotate py m.policy m.manifest_caps

  abbrev mark : Run → BehaviorEvent → BehaviorEvent
  mark r e =
      let stamped = (track_tool_ctx e r.tool_ctx).0 in
      classified stamped (classify_event py stamped m.policy m.manifest_caps)

  abbrev alerted : BehaviorEvent → Bool
  alerted e = is_outside e && alerts_in m.mode

  abbrev blocked_by : BehaviorEvent → Bool
  blocked_by e = blocks h m.mode e

  abbrev raised_by : BehaviorEvent → Option Exception
  raised_by e = failure h m.mode e

  -- What a run adds to a state, given the marked events that it handles, and how it ends.
  abbrev Adds : Run → List BehaviorEvent → Option Exception → Outcome → Type 0
  Adds r es raised (out, raised') =
      (out.events ≡ r.events ++ es)
      × (out.alerts ≡ r.alerts ++ keep alerted es)
      × (out.blocked ≡ r.blocked ++ keep blocked_by es)
      × (raised' ≡ raised)

  abbrev ends : ℕ → List BehaviorEvent → List BehaviorEvent → Option Exception → Option Exception
  ends k marked es ending =
      first_of (first_failure raised_by marked) (if stops most k es then none else ending)

-- The events that a run handles: all of the stream, or its first `most`, but one at least.
abbrev pub limited : Option ℕ → List BehaviorEvent → List BehaviorEvent
limited none es = es
limited (some most) es = take (max 1 most) es

-- Whether `max_events` are reached within that many events.
abbrev pub is_filled : Option ℕ → ℕ → Bool
is_filled none n = false
is_filled (some most) n = leb (max 1 most) n

-- The events that the timed loop receives before anything else happens, and the error of the pump
-- if that is what happens next.
abbrev pub delivered : Rounds → List BehaviorEvent
delivered (received e rounds) = e ∷ delivered rounds
delivered _ = []

abbrev pub pump_failure : Rounds → Option Exception
pump_failure (received e rounds) = pump_failure rounds
pump_failure (ended pump_error) = pump_error
pump_failure _ = none

-- A run with a deadline does what a run without one does over the events that arrive in time, where
-- the stream ends with the error of the pump if the loop meets it, and without one otherwise.
pub run_timed_lem :
    (py : Builtins) (m : Monitor) (h : Hooks) (most : Option ℕ) (r : Run) (rounds : Rounds)
    → run_timed py m h most r rounds
      ≡ run_stream py m h most r (delivered rounds) (pump_failure rounds)
unfolding run_timed run_stream
run_timed_lem py m h most r expired = refl
run_timed_lem py m h most r timed_out = refl
run_timed_lem py m h most r (ended pump_error) = refl
run_timed_lem py m h most r (received e rounds) =
    let (r', raised, stop) = handle_event py m h most r e in
    ap (continued r' raised stop) (run_timed_lem py m h most r' rounds)
