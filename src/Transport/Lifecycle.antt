-- ===== src/Transport/Lifecycle.antt =====
-- The life of a node, core/transport/src/lifecycle.rs. The engine is the state, and an operation
-- takes the time `now` that the clock shows; a reason is its text.
pub mod History
use voidnet.Base.{
  ℕ, ◌≡◌, ◌-◌, Bool, true, false, Option, none, some, List, [], ◌∷◌, ◌++◌, Text, codes, leb,
  if◌then◌else◌,
}

pub data NodeLifecycleState : Type 0 where
  genesis bootstrap discovering authenticating syncing active partitioned quarantined offline :
      NodeLifecycleState

unfoldable pub display : NodeLifecycleState → Text
display genesis = codes "GENESIS"
display bootstrap = codes "BOOTSTRAP"
display discovering = codes "DISCOVERING"
display authenticating = codes "AUTHENTICATING"
display syncing = codes "SYNCING"
display active = codes "ACTIVE"
display partitioned = codes "PARTITIONED"
display quarantined = codes "QUARANTINED"
display offline = codes "OFFLINE"

-- `==` of two states
abbrev pub NodeLifecycleState-discrete : Discrete NodeLifecycleState
NodeLifecycleState-discrete = hlevel

pub record LifecycleTransition : Type 0 where
  pub from : NodeLifecycleState
  pub to : NodeLifecycleState
  pub reason : Text

pub record LifecycleEngine : Type 0 where
  pub state : NodeLifecycleState
  pub last_transition : ℕ
  pub history : List LifecycleTransition

abbrev pub new : ℕ → LifecycleEngine
new now = record { state = genesis; last_transition = now; history = [] }

abbrev pub change_of : LifecycleEngine → NodeLifecycleState → Text → LifecycleTransition
change_of engine to reason = record { from = engine.state; to = to; reason = reason }

-- `transition` where the comparison of the two states says whether they are the same
abbrev pub move_unless :
    {P : Type 0}
    → Dec P
    → ℕ
    → NodeLifecycleState
    → Text
    → LifecycleEngine
    → Option LifecycleTransition × LifecycleEngine
move_unless (yes _) now to reason engine = (none, engine)
move_unless (no _) now to reason engine = (
  some (change_of engine to reason),
  record {
    state = to;
    last_transition = now;
    history = engine.history ++ change_of engine to reason ∷ [];
  },
)

unfoldable pub transition :
    ℕ → NodeLifecycleState → Text → LifecycleEngine → Option LifecycleTransition × LifecycleEngine
transition now to reason engine =
    move_unless (NodeLifecycleState-discrete engine.state to) now to reason engine

-- `elapsed` stops at 0.
unfoldable pub transition_if_stalled :
    ℕ
    → NodeLifecycleState
    → ℕ
    → Text
    → LifecycleEngine
    → Option LifecycleTransition × LifecycleEngine
transition_if_stalled now to after reason engine =
    if leb after (now - engine.last_transition)
    then transition now to reason engine
    else (none, engine)

unfoldable pub mark_failure :
    ℕ → Text → LifecycleEngine → Option LifecycleTransition × LifecycleEngine
mark_failure now reason = transition now quarantined reason

unfoldable pub mark_offline :
    ℕ → Text → LifecycleEngine → Option LifecycleTransition × LifecycleEngine
mark_offline now reason = transition now offline reason
