-- ===== src/Chat/Replay/Refinement.antt =====
-- The protector, which purges its memory, against a log of which only the window counts.
use voidnet.Base.{
  ℕ, ◌≡◌, ◌≤◌, refl, sym, ap, subst, ◌∙◌, inl, inr, List, [], ◌∷◌, Bool, true, false, ◌&&◌, Option,
  none, some, Text, Result, ok, err, text_eq, text_eq_sound, leb, any, arith, if◌then◌else◌,
  Bool-cases,
}
use mathlib.Core.Path.{ap₂}
use voidnet.Base.Map
use voidnet.Base.Map.{
  Map, IsSorted, keep_if, get-insert, get-retain, insert-IsSorted, retain-IsSorted,
}
use voidnet.Chat.Error.{ChatError, replay_detected, replay_window_expired}
use voidnet.Chat.Replay.{ReplayProtector, new, key_of, lower, is_outside, purged, check_and_record}

-- What was accepted: the keys and their timestamps, the latest first.
abbrev pub Log : Type 0
Log = List (Text × ℕ)

-- The log has the key with a timestamp that is not below `low`.
abbrev pub is_logged : Text → ℕ → Log → Bool
is_logged key low log = any (λ (k, t). text_eq k key && leb low t) log

-- The specification: a message is accepted if its timestamp is in the window and nothing with its
-- scope and nonce was accepted before whose timestamp is not below the present window. What has fallen
-- below the window counts no more.
unfoldable pub check_log : ℕ → ℕ → Text → Text → ℕ → Log → Result ChatError (Unit {0}) × Log
check_log window_ms now scope nonce timestamp log =
    if is_outside window_ms now timestamp
    then (err replay_window_expired, log)
    else if is_logged (key_of scope nonce) (lower window_ms now) log
    then (err replay_detected, log)
    else (ok tt, (key_of scope nonce, timestamp) ∷ log)

abbrev pub is_held : ℕ → Option ℕ → Bool
is_held low none = false
is_held low (some t) = leb low t

-- The protector agrees with the log on all that is not below `low`.
pub record Tracks (low : ℕ) (p : ReplayProtector) (log : Log) : Type 0 where
  pub sorted : IsSorted p.seen
  pub agrees : (key : Text) (l : ℕ) → low ≤ l → is_held l (Map.get key p.seen) ≡ is_logged key l log

is_held-keep_if :
    (l low : ℕ) (o : Option ℕ) → low ≤ l → is_held l (keep_if (leb low) o) ≡ is_held l o
is_held-keep_if l low none h = refl
is_held-keep_if l low (some t) h = ground arith

contains_key-retain :
    (low : ℕ) (key : Text) (m : Map ℕ)
    → IsSorted m
    → Map.contains_key key (Map.retain (leb low) m) ≡ is_held low (Map.get key m)
contains_key-retain low key m h =
    rw (Map.contains_key, get-retain (leb low) key m h) (of_option (Map.get key m))
  where
    of_option :
        (o : Option ℕ)
        → (elim (keep_if (leb low) o) [ none ↦ false | some _ ↦ true ]) ≡ is_held low o
    of_option none = refl
    of_option (some t) = ground arith

pub is_logged-le :
    (key : Text) (low l : ℕ) (log : Log)
    → low ≤ l
    → is_logged key low log ≡ false
    → is_logged key l log ≡ false
is_logged-le key low l [] le h = h
is_logged-le key low l ((k, t) ∷ log) le h = ground (arith, is_logged-le key low l log le)

module _ (low now : ℕ) (p : ReplayProtector) (log : Log) (later : low ≤ lower p.window_ms now) where
  Tracks-purged :
      Tracks low p log → Tracks (lower p.window_ms now) (record p { seen = purged now p }) log
  Tracks-purged h = record {
    sorted = retain-IsSorted (leb (lower p.window_ms now)) p.seen h.sorted;
    agrees = λ key l above.
        ap (is_held l) (get-retain (leb (lower p.window_ms now)) key p.seen h.sorted)
        ∙ is_held-keep_if l (lower p.window_ms now) (Map.get key p.seen) above
        ∙ h.agrees key l (omega arith);
  }

  Tracks-insert :
      (key : Text) (timestamp : ℕ)
      → Tracks (lower p.window_ms now) (record p { seen = purged now p }) log
      → is_logged key (lower p.window_ms now) log ≡ false
      → Tracks
          (lower p.window_ms now)
          (record p { seen = Map.insert key timestamp (purged now p) })
          ((key, timestamp) ∷ log)
  Tracks-insert key timestamp h free = record {
    sorted = insert-IsSorted key timestamp (purged now p) h.sorted;
    agrees = λ k l above. elim (Bool-cases (text_eq key k)) [
      | inl same ↦
          let old = is_logged-le k (lower p.window_ms now) l log above (
            subst (λ j. is_logged j (lower p.window_ms now) log ≡ false) (text_eq_sound key k same)
              free) in
          rw (get-insert, same, old) (ground arith)
      | inr other ↦ rw (get-insert, other, h.agrees k l above) refl
    ];
  }

  -- One call gives the same answer, and the two still agree.
  pub check_and_record-check_log :
      (scope nonce : Text) (timestamp : ℕ)
      → Tracks low p log
      → let concrete = check_and_record now scope nonce timestamp p in
        let abstract = check_log p.window_ms now scope nonce timestamp log in
        (concrete.0 ≡ abstract.0)
        × (concrete.1.window_ms ≡ p.window_ms)
        × Tracks (lower p.window_ms now) concrete.1 abstract.1
  unfolding check_and_record check_log
  check_and_record-check_log scope nonce timestamp h =
      let kept = Tracks-purged h in
      let key = key_of scope nonce in
      let same : Map.contains_key key (purged now p) ≡ is_logged key (lower p.window_ms now) log =
        contains_key-retain (lower p.window_ms now) key p.seen h.sorted
        ∙ h.agrees key (lower p.window_ms now) later in
      elim (Bool-cases (is_outside p.window_ms now timestamp)) [
        | inl e ↦ rw e (refl, refl, kept)
        | inr e ↦ elim (Bool-cases (is_logged key (lower p.window_ms now) log)) [
          | inl old ↦ rw (e, same, old) (refl, refl, kept)
          | inr free ↦ rw (e, same, free) (refl, refl, Tracks-insert key timestamp kept free)
        ]
      ]

-- A message as it arrives, with the time of its arrival.
pub record Call : Type 0 where
  pub now : ℕ
  pub scope : Text
  pub nonce : Text
  pub timestamp : ℕ

-- The clock does not go back.
abbrev pub IsTimely : ℕ → List Call → Type 0
IsTimely time [] = Unit
IsTimely time (c ∷ calls) = (time ≤ c.now) × IsTimely c.now calls

abbrev pub handle : ReplayProtector → Call → Result ChatError (Unit {0}) × ReplayProtector
handle p c = check_and_record c.now c.scope c.nonce c.timestamp p

abbrev pub handle_log : ℕ → Log → Call → Result ChatError (Unit {0}) × Log
handle_log window_ms log c = check_log window_ms c.now c.scope c.nonce c.timestamp log

-- The answers to the calls in turn.
unfoldable pub answers : ReplayProtector → List Call → List (Result ChatError (Unit {0}))
answers p [] = []
answers p (c ∷ calls) = (handle p c).0 ∷ answers (handle p c).1 calls

unfoldable pub answers_log : ℕ → Log → List Call → List (Result ChatError (Unit {0}))
answers_log window_ms log [] = []
answers_log window_ms log (c ∷ calls) =
    (handle_log window_ms log c).0 ∷ answers_log window_ms (handle_log window_ms log c).1 calls

answers-Tracks :
    (time : ℕ) (p : ReplayProtector) (log : Log) (calls : List Call)
    → Tracks (lower p.window_ms time) p log
    → IsTimely time calls
    → answers p calls ≡ answers_log p.window_ms log calls
unfolding answers answers_log
answers-Tracks time p log [] h timely = refl
answers-Tracks time p log (c ∷ calls) h (later, timely) =
    let (same, window, still) =
      check_and_record-check_log (lower p.window_ms time) c.now p log (omega arith) c.scope c.nonce
        c.timestamp h in
    let q = (handle p c).1 in
    let log' = (handle_log p.window_ms log c).1 in
    ap₂ ◌∷◌ same (
      answers-Tracks c.now q log' calls
        (subst (λ w. Tracks (lower w c.now) q log') (sym window) still) timely
      ∙ ap (λ w. answers_log w log' calls) window)

pub new-Tracks : (window_ms : ℕ) → Tracks 0 (new window_ms) []
unfolding Map.get
new-Tracks window_ms = record { sorted = tt; agrees = λ key l above. refl }

-- While the clock does not go back, a protector that purges its memory at every call answers every
-- sequence of messages as a specification over a log of the accepted messages: a message is refused
-- exactly if its timestamp is outside the window, or the log has its scope and nonce with a timestamp
-- that is not below the window at the time of the call. A nonce whose logged timestamp has fallen below
-- the window is free again.
pub answers-answers_log :
    (window_ms : ℕ) (calls : List Call)
    → IsTimely 0 calls
    → answers (new window_ms) calls ≡ answers_log window_ms [] calls
answers-answers_log window_ms calls timely =
    answers-Tracks 0 (new window_ms) [] calls
      (subst (λ l. Tracks l (new window_ms) []) (omega arith) (new-Tracks window_ms)) timely
