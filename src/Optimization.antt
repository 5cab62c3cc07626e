-- ===== src/Optimization.antt =====
-- src/observability/optimization.py: the tracker of tuning experiments. The measured numbers are
-- of any type `F`, since the calls only store them; `cost_improvement_pct` and `snapshot`, which
-- compute with them for a report, are not modelled. The time of an event is an argument.
use Prim.Native.String.{String}
use nifre.Prelude.{ℕ, ◌+◌, ◌≡◌, refl, List, [], ◌∷◌, ◌++◌, Option, none, some, or_else, arith}

pub data Action : Type 0 where
  attempted promoted rolled_back : Action

pub record OptimizationEvent (F : Type 0) : Type 0 where
  pub name : String
  pub action : Action
  pub timestamp : F
  pub details : String

pub record Tracker (F : Type 0) : Type 0 where
  pub baseline_latency_ms : Option F
  pub current_latency_ms : Option F
  pub baseline_throughput_tps : Option F
  pub current_throughput_tps : Option F
  pub attempted : ℕ
  pub promoted : ℕ
  pub rolled_back : ℕ
  pub events : List (OptimizationEvent F)

module _ {F : Type 0} where
  unfoldable pub new_tracker : Tracker F
  new_tracker = record {
    baseline_latency_ms = none;
    current_latency_ms = none;
    baseline_throughput_tps = none;
    current_throughput_tps = none;
    attempted = 0;
    promoted = 0;
    rolled_back = 0;
    events = [];
  }

  -- `if self.current is None: self.current = value`
  abbrev pub if_none : Option F → F → Option F
  if_none current value = some (or_else current value)

  unfoldable pub set_baseline : F → F → Tracker F → Tracker F
  set_baseline latency throughput t = record t {
    baseline_latency_ms = some latency;
    baseline_throughput_tps = some throughput;
    current_latency_ms = if_none t.current_latency_ms latency;
    current_throughput_tps = if_none t.current_throughput_tps throughput;
  }

  unfoldable pub update_current : F → F → Tracker F → Tracker F
  update_current latency throughput t = record t {
    current_latency_ms = some latency;
    current_throughput_tps = some throughput;
  }

  abbrev pub event : Action → String → String → F → OptimizationEvent F
  event action name details now = record {
    name = name;
    action = action;
    timestamp = now;
    details = details;
  }

  unfoldable pub record_attempt : String → String → F → Tracker F → Tracker F
  record_attempt name details now t = record t {
    attempted = t.attempted + 1;
    events = t.events ++ event Action.attempted name details now ∷ [];
  }

  unfoldable pub record_promotion : String → String → F → Tracker F → Tracker F
  record_promotion name details now t = record t {
    promoted = t.promoted + 1;
    events = t.events ++ event Action.promoted name details now ∷ [];
  }

  unfoldable pub record_rollback : String → String → F → Tracker F → Tracker F
  record_rollback name details now t = record t {
    rolled_back = t.rolled_back + 1;
    events = t.events ++ event Action.rolled_back name details now ∷ [];
  }

-- 1 for an event with the action.
abbrev pub is_of : Action → Action → ℕ
is_of Action.attempted Action.attempted = 1
is_of Action.promoted Action.promoted = 1
is_of Action.rolled_back Action.rolled_back = 1
is_of _ _ = 0

-- The calls, and a sequence of them.
pub data Call (F : Type 0) : Type 0 where
  baseline current : F → F → Call F
  attempt promotion rollback : String → String → F → Call F

module _ {F : Type 0} where
  abbrev pub call : Call F → Tracker F → Tracker F
  call (Call.baseline latency throughput) = set_baseline latency throughput
  call (Call.current latency throughput) = update_current latency throughput
  call (Call.attempt name details now) = record_attempt name details now
  call (Call.promotion name details now) = record_promotion name details now
  call (Call.rollback name details now) = record_rollback name details now

  abbrev pub run : List (Call F) → Tracker F → Tracker F
  run [] t = t
  run (c ∷ calls) t = run calls (call c t)

  abbrev pub events_of : Action → List (OptimizationEvent F) → ℕ
  events_of action [] = 0
  events_of action (e ∷ events) = is_of action e.action + events_of action events

  events_of-append :
      (action : Action) (l l' : List (OptimizationEvent F))
      → events_of action (l ++ l') ≡ events_of action l + events_of action l'
  events_of-append action [] l' = omega arith
  events_of-append action (e ∷ l) l' = omega (arith, events_of-append action l l')

  -- Each counter is the number of events with its action.
  pub record Counted (t : Tracker F) : Type 0 where
    pub attempts : t.attempted ≡ events_of Action.attempted t.events
    pub promotions : t.promoted ≡ events_of Action.promoted t.events
    pub rollbacks : t.rolled_back ≡ events_of Action.rolled_back t.events

  call-Counted : (c : Call F) (t : Tracker F) → Counted t → Counted (call c t)
  unfolding set_baseline update_current record_attempt record_promotion record_rollback
  call-Counted (Call.baseline latency throughput) t k = record {
    attempts = k.attempts;
    promotions = k.promotions;
    rollbacks = k.rollbacks;
  }
  call-Counted (Call.current latency throughput) t k = record {
    attempts = k.attempts;
    promotions = k.promotions;
    rollbacks = k.rollbacks;
  }
  call-Counted (Call.attempt name details now) t k =
      let new = event Action.attempted name details now ∷ [] in
      record {
        attempts = omega (arith, k.attempts, events_of-append Action.attempted t.events new);
        promotions = omega (arith, k.promotions, events_of-append Action.promoted t.events new);
        rollbacks = omega (arith, k.rollbacks, events_of-append Action.rolled_back t.events new);
      }
  call-Counted (Call.promotion name details now) t k =
      let new = event Action.promoted name details now ∷ [] in
      record {
        attempts = omega (arith, k.attempts, events_of-append Action.attempted t.events new);
        promotions = omega (arith, k.promotions, events_of-append Action.promoted t.events new);
        rollbacks = omega (arith, k.rollbacks, events_of-append Action.rolled_back t.events new);
      }
  call-Counted (Call.rollback name details now) t k =
      let new = event Action.rolled_back name details now ∷ [] in
      record {
        attempts = omega (arith, k.attempts, events_of-append Action.attempted t.events new);
        promotions = omega (arith, k.promotions, events_of-append Action.promoted t.events new);
        rollbacks = omega (arith, k.rollbacks, events_of-append Action.rolled_back t.events new);
      }

  run-Counted : (calls : List (Call F)) (t : Tracker F) → Counted t → Counted (run calls t)
  run-Counted [] t k = k
  run-Counted (c ∷ calls) t k = run-Counted calls (call c t) (call-Counted c t k)

  -- After any calls on a new tracker, in any order, each of its three counters is the number of
  -- its events with that action.
  pub new_tracker-run-Counted : (calls : List (Call F)) → Counted (run calls new_tracker)
  unfolding new_tracker
  new_tracker-run-Counted calls =
      run-Counted calls new_tracker
        (record { attempts = refl; promotions = refl; rollbacks = refl })
