-- ===== src/Chat/Replay.antt =====
-- `ReplayProtector` of apps/void-chat/src/lib.rs.
pub mod Refinement
pub mod Safety
use voidnet.Base.{
  ℕ, ◌-◌, ◌+◌, ◌++◌, ◌∷◌, [], Bool, ◌||◌, Text, Result, ok, err, leb, ltb, if◌then◌else◌,
}
use voidnet.Base.Map
use voidnet.Base.Map.{Map}
use voidnet.Chat.Error.{ChatError, replay_detected, replay_window_expired}

pub record ReplayProtector : Type 0 where
  pub window_ms : ℕ
  pub seen : Map ℕ

abbrev pub new : ℕ → ReplayProtector
new window_ms = record { window_ms = window_ms; seen = [] }

-- `format!("{scope}:{nonce}")`
abbrev pub key_of : Text → Text → Text
key_of scope nonce = scope ++ b':' ∷ nonce

-- the ends of the window at the time `now`
abbrev pub lower : ℕ → ℕ → ℕ
lower window_ms now = now - window_ms

abbrev pub upper : ℕ → ℕ → ℕ
upper window_ms now = now + window_ms

abbrev pub is_outside : ℕ → ℕ → ℕ → Bool
is_outside window_ms now timestamp =
    ltb timestamp (lower window_ms now) || ltb (upper window_ms now) timestamp

abbrev pub purged : ℕ → ReplayProtector → Map ℕ
purged now p = Map.retain (leb (lower p.window_ms now)) p.seen

unfoldable pub check_and_record :
    ℕ → Text → Text → ℕ → ReplayProtector → Result ChatError (Unit {0}) × ReplayProtector
check_and_record now scope nonce timestamp p =
    if is_outside p.window_ms now timestamp
    then (err replay_window_expired, record p { seen = purged now p })
    else if Map.contains_key (key_of scope nonce) (purged now p)
    then (err replay_detected, record p { seen = purged now p })
    else (ok tt, record p { seen = Map.insert (key_of scope nonce) timestamp (purged now p) })
