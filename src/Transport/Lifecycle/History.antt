-- ===== src/Transport/Lifecycle/History.antt =====
-- The history of an engine tells how it came to its state.
use voidnet.Base.{
  ℕ, ◌≡◌, ◌≢◌, refl, ◌-◌, Option, none, some, List, [], ◌∷◌, ◌++◌, append-nil, Text, leb,
  Bool-cases, inl, inr,
}
use voidnet.Transport.Lifecycle.{
  NodeLifecycleState, genesis, NodeLifecycleState-discrete, LifecycleTransition, LifecycleEngine,
  new, move_unless, transition, transition_if_stalled, mark_failure, mark_offline,
}

-- The changes lead from `a` to `b`: each begins where the one before it ended, and changes the state.
abbrev pub IsChain : NodeLifecycleState → List LifecycleTransition → NodeLifecycleState → Type 0
IsChain a [] b = a ≡ b
IsChain a (t ∷ ts) b = (t.from ≡ a) × (t.from ≢ t.to) × IsChain t.to ts b

IsChain-append :
    (a b : NodeLifecycleState) (ts : List LifecycleTransition) (t : LifecycleTransition)
    → IsChain a ts b
    → t.from ≡ b
    → t.from ≢ t.to
    → IsChain a (ts ++ t ∷ []) t.to
IsChain-append a b [] t h e n = (cc, n, refl)
IsChain-append a b (u ∷ ts) t (from, differ, h) e n =
    (from, differ, IsChain-append u.to b ts t h e n)

-- The calls of an engine, at any times.
pub data Step : LifecycleEngine → Option LifecycleTransition × LifecycleEngine → Type 0 where
  moved :
      (now : ℕ) (to : NodeLifecycleState) (reason : Text) (e : LifecycleEngine)
      → Step e (transition now to reason e)
  stalled :
      (now : ℕ) (to : NodeLifecycleState) (after : ℕ) (reason : Text) (e : LifecycleEngine)
      → Step e (transition_if_stalled now to after reason e)
  failed : (now : ℕ) (reason : Text) (e : LifecycleEngine) → Step e (mark_failure now reason e)
  left : (now : ℕ) (reason : Text) (e : LifecycleEngine) → Step e (mark_offline now reason e)

pub data Reach : LifecycleEngine → Type 0 where
  start : (now : ℕ) → Reach (new now)
  next :
      {e : LifecycleEngine} {r : Option LifecycleTransition × LifecycleEngine}
      → Reach e
      → Step e r
      → Reach r.1

abbrev pub noted : Option LifecycleTransition → List LifecycleTransition
noted none = []
noted (some t) = t ∷ []

-- What a call does: it stays, or it goes on from the present state to another one. Either way the
-- history grows by what the call returns.
abbrev pub Goes : LifecycleEngine → Option LifecycleTransition × LifecycleEngine → Type 0
Goes e (none, e') = e' ≡ e
Goes e (some t, e') =
    (t.from ≡ e.state) × (t.from ≢ t.to) × (e'.state ≡ t.to) × (e'.history ≡ e.history ++ t ∷ [])

move_unless-Goes :
    (now : ℕ) (to : NodeLifecycleState) (reason : Text) (e : LifecycleEngine)
    (d : Dec (e.state ≡ to))
    → Goes e (move_unless d now to reason e)
move_unless-Goes now to reason e (yes _) = refl
move_unless-Goes now to reason e (no n) = (refl, n, refl, refl)

transition-Goes :
    (now : ℕ) (to : NodeLifecycleState) (reason : Text) (e : LifecycleEngine)
    → Goes e (transition now to reason e)
unfolding transition
transition-Goes now to reason e =
    move_unless-Goes now to reason e (NodeLifecycleState-discrete e.state to)

Step-Goes :
    (e : LifecycleEngine) (r : Option LifecycleTransition × LifecycleEngine) → Step e r → Goes e r
unfolding transition_if_stalled mark_failure mark_offline
Step-Goes e r (moved now to reason _) = transition-Goes now to reason e
Step-Goes e r (stalled now to after reason _) =
    elim (Bool-cases (leb after (now - e.last_transition))) [
      | inl h ↦ rw h (transition-Goes now to reason e)
      | inr h ↦ rw h refl
    ]
Step-Goes e r (failed now reason _) = transition-Goes now NodeLifecycleState.quarantined reason e
Step-Goes e r (left now reason _) = transition-Goes now NodeLifecycleState.offline reason e

-- Every call adds to the history exactly the change that it returns, and nothing if it returns none.
pub Step-history :
    (e : LifecycleEngine) (r : Option LifecycleTransition × LifecycleEngine)
    → Step e r
    → r.1.history ≡ e.history ++ noted r.0
Step-history e r step = history_of e r.0 r.1 (Step-Goes e r step)
  where
    history_of :
        (e : LifecycleEngine) (o : Option LifecycleTransition) (e' : LifecycleEngine)
        → Goes e (o, e')
        → e'.history ≡ e.history ++ noted o
    history_of e none e' h = rw (h, append-nil e.history) refl
    history_of e (some t) e' h = h.3

-- In every engine that calls can bring about, the history leads from GENESIS to the present state,
-- each change beginning where the one before ended and none of them staying in its state.
pub Reach-IsChain : (e : LifecycleEngine) → Reach e → IsChain genesis e.history e.state
Reach-IsChain e (start now) = refl
Reach-IsChain _ (next {e} {r} reached step) =
    extended e r.0 r.1 (Step-Goes e r step) (Reach-IsChain e reached)
  where
    extended :
        (e : LifecycleEngine) (o : Option LifecycleTransition) (e' : LifecycleEngine)
        → Goes e (o, e')
        → IsChain genesis e.history e.state
        → IsChain genesis e'.history e'.state
    extended e none e' same h = rw same h
    extended e (some t) e' (from, differ, to, history) h =
        rw (history, to) (IsChain-append genesis e.state e.history t h from differ)
