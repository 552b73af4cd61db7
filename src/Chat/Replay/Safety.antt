-- ===== src/Chat/Replay/Safety.antt =====
-- A message is accepted once, and a new message in the window is accepted.
use voidnet.Base.{
  ℕ, ◌≡◌, ◌≢◌, ◌≤◌, refl, sym, subst, ◌∙◌, inl, inr, [], true, Text, ok, text_eq_refl, arith,
  Bool-cases,
}
use voidnet.Chat.Replay.{ReplayProtector, new, key_of, lower, is_outside}
use voidnet.Chat.Replay.Refinement.{
  Log, is_logged, check_log, is_logged-le, Tracks, new-Tracks, check_and_record-check_log, Call,
  handle, handle_log,
}

-- The messages that a protector handles from a time to a later one.
pub data Run (p : ReplayProtector) (time : ℕ) : ReplayProtector → ℕ → Type 0 where
  here : Run p time p time
  call :
      {q : ReplayProtector} {mid : ℕ}
      → Run p time q mid
      → (c : Call) → mid ≤ c.now
      → Run p time (handle q c).1 c.now

is_logged-handle_log :
    (window_ms : ℕ) (key : Text) (timestamp : ℕ) (log : Log) (c : Call)
    → is_logged key timestamp log ≡ true
    → is_logged key timestamp (handle_log window_ms log c).1 ≡ true
unfolding check_log
is_logged-handle_log window_ms key timestamp log c h = ground arith

-- A property of logs that calls keep.
module _ (P : Log → Type 0)
    (keeps : (window_ms : ℕ) (log : Log) (c : Call) → P log → P (handle_log window_ms log c).1)
    (p : ReplayProtector) (time : ℕ) where
  -- What a run keeps: the window, and the agreement with some log that has the property.
  abbrev Kept : ReplayProtector → ℕ → Type 0
  Kept q mid =
      (q.window_ms ≡ p.window_ms) × ((log : Log) × Tracks (lower q.window_ms mid) q log × P log)

  Kept-handle :
      (q : ReplayProtector) (mid : ℕ) (c : Call)
      → mid ≤ c.now
      → Kept q mid
      → Kept (handle q c).1 c.now
  Kept-handle q mid c later (window, (log, tracks, has)) =
      let (_, same, still) =
        check_and_record-check_log (lower q.window_ms mid) c.now q log (omega arith) c.scope c.nonce
          c.timestamp tracks in
      let log' = (handle_log q.window_ms log c).1 in
      (
        same ∙ window,
        (
          log',
          subst (λ w. Tracks (lower w c.now) (handle q c).1 log') (sym same) still,
          keeps q.window_ms log c has,
        ),
      )

  Run-Kept : (q : ReplayProtector) (mid : ℕ) → Kept p time → Run p time q mid → Kept q mid
  Run-Kept q mid h here = h
  Run-Kept q mid h (call {q = r} {mid = m} run c later) =
      Kept-handle r m c later (Run-Kept r m h run)

-- What accepts a message logs it.
check_log_logs :
    (window_ms now : ℕ) (scope nonce : Text) (timestamp : ℕ) (log : Log)
    → (check_log window_ms now scope nonce timestamp log).0 ≡ ok tt
    → is_logged (key_of scope nonce) timestamp (check_log window_ms now scope nonce timestamp log).1
      ≡ true
unfolding check_log
check_log_logs window_ms now scope nonce timestamp log h =
    ground (arith, text_eq_refl (key_of scope nonce))

check_log_refused :
    (window_ms now : ℕ) (scope nonce : Text) (timestamp : ℕ) (log : Log)
    → is_logged (key_of scope nonce) timestamp log ≡ true
    → (check_log window_ms now scope nonce timestamp log).0 ≢ ok tt
unfolding check_log
check_log_refused window_ms now scope nonce timestamp log logged =
    let key = key_of scope nonce in
    elim (Bool-cases (is_outside window_ms now timestamp)) [
      | inl e ↦ rw e (λ r. cc)
      | inr e ↦ elim (Bool-cases (is_logged key (lower window_ms now) log)) [
        | inl old ↦ rw (e, old) (λ r. cc)
        | inr free ↦
            let le : lower window_ms now ≤ timestamp = ground arith in
            let not_logged = is_logged-le key (lower window_ms now) timestamp log le free in λ r. cc
      ]
    ]

-- Once a protector has accepted a message, it never accepts one with the same scope, nonce and
-- timestamp again, whatever it handles in between, while the clock does not go back.
pub accepted_once :
    (window_ms first : ℕ) (p : ReplayProtector) (c : Call) (q : ReplayProtector) (last : ℕ)
    (again : Call)
    → Run (new window_ms) 0 p first
    → first ≤ c.now
    → (handle p c).0 ≡ ok tt
    → Run (handle p c).1 c.now q last
    → last ≤ again.now
    → again.scope ≡ c.scope
    → again.nonce ≡ c.nonce
    → again.timestamp ≡ c.timestamp
    → (handle q again).0 ≢ ok tt
accepted_once window_ms first p c q last again before start accepted between later scope nonce
      timestamp =
    let key = key_of c.scope c.nonce in
    let none_yet = subst (λ l. Tracks l (new window_ms) []) (omega arith) (new-Tracks window_ms) in
    let (_, (log, tracks, _)) =
      Run-Kept (λ _. Unit) (λ w l d u. tt) (new window_ms) 0 p first (refl, ([], none_yet, tt))
        before in
    let (same, window, still) =
      check_and_record-check_log (lower p.window_ms first) c.now p log (omega arith) c.scope c.nonce
        c.timestamp tracks in
    let log₁ = (handle_log p.window_ms log c).1 in
    let logged =
      check_log_logs p.window_ms c.now c.scope c.nonce c.timestamp log (sym same ∙ accepted) in
    let (_, (log₂, tracks₂, logged₂)) =
      Run-Kept (λ l. is_logged key c.timestamp l ≡ true)
        (λ w l d. is_logged-handle_log w key c.timestamp l d) (handle p c).1 c.now q last
        (
          refl,
          (
            log₁,
            subst (λ w. Tracks (lower w c.now) (handle p c).1 log₁) (sym window) still,
            logged,
          ),
        )
        between in
    let (same₂, _, _) =
      check_and_record-check_log (lower q.window_ms last) again.now q log₂ (omega arith) again.scope
        again.nonce again.timestamp tracks₂ in
    λ accepted_again.
      check_log_refused q.window_ms again.now again.scope again.nonce again.timestamp log₂
        (rw (scope, nonce, timestamp) logged₂) (sym same₂ ∙ accepted_again)
