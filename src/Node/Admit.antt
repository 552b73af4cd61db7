-- ===== src/Node/Admit.antt =====
-- What the guards of a handler let through.
use voidnet.Base.{ℕ, Bool, ◌≡◌, refl, ◌⊎◌, inl, inr, true, false, Text, Result, ok, err}
use voidnet.Chat.Error.{ChatError}
use voidnet.Chat.Replay.{ReplayProtector, check_and_record}
use voidnet.Node.State.{TransportError, Node}
use voidnet.Node.Session.{checked, admit}

module _ {Secret : Type 0} where
  -- the state after a message was let through
  abbrev pub admitted : ReplayProtector → Node Secret → Node Secret
  admitted replay s = record s { chat = record s.chat { replay = replay } }

  -- The guards stop the handler, and of the chat only the replay protector may have changed.
  abbrev pub IsRefused : Result TransportError Bool × Node Secret → Node Secret → Type 0
  IsRefused r s =
      (replay : ReplayProtector) × (t : Node Secret) × (r ≡ (ok false, t))
      × (t.chat ≡ record s.chat { replay = replay })

  -- The guards let the message through, and the protector has recorded it.
  abbrev pub IsAdmitted :
      Result TransportError Bool × Node Secret
      → Result ChatError (Unit {0})
      → Result ChatError (Unit {0}) × ReplayProtector
      → Node Secret
      → Type 0
  IsAdmitted r verified check s =
      (verified ≡ ok tt) × (check.0 ≡ ok tt) × (r ≡ (ok true, admitted check.1 s))

  checked-cases :
      (context peer_id nonce : Text) (check : Result ChatError (Unit {0}) × ReplayProtector)
      (s : Node Secret)
      → IsRefused (checked context peer_id nonce check s) s
        ⊎ IsAdmitted (checked context peer_id nonce check s) (ok tt) check s
  checked-cases context peer_id nonce (ok tt, replay) s = inr (refl, refl, refl)
  checked-cases context peer_id nonce (err e, replay) s = inl (replay, _, refl, refl)

  pub admit-cases :
      (now : ℕ) (verified : Result ChatError (Unit {0})) (context peer_id scope nonce : Text)
      (timestamp : ℕ) (s : Node Secret)
      → IsRefused (admit now verified context peer_id scope nonce timestamp s) s
        ⊎ IsAdmitted
            (admit now verified context peer_id scope nonce timestamp s)
            verified
            (check_and_record now scope nonce timestamp s.chat.replay)
            s
  unfolding admit
  admit-cases now (err e) context peer_id scope nonce timestamp s =
      inl (s.chat.replay, _, refl, refl)
  admit-cases now (ok tt) context peer_id scope nonce timestamp s =
      checked-cases context peer_id nonce (check_and_record now scope nonce timestamp s.chat.replay)
        s

  checked-accepts :
      (context peer_id nonce : Text) (check : Result ChatError (Unit {0}) × ReplayProtector)
      (s : Node Secret)
      → check.0 ≡ ok tt
      → checked context peer_id nonce check s ≡ (ok true, admitted check.1 s)
  checked-accepts context peer_id nonce (ok tt, replay) s h = refl
  checked-accepts context peer_id nonce (err e, replay) s h = cc

  pub admit-accepts :
      (now : ℕ) (verified : Result ChatError (Unit {0})) (context peer_id scope nonce : Text)
      (timestamp : ℕ) (s : Node Secret)
      → verified ≡ ok tt
      → (check_and_record now scope nonce timestamp s.chat.replay).0 ≡ ok tt
      → admit now verified context peer_id scope nonce timestamp s
        ≡ (ok true, admitted (check_and_record now scope nonce timestamp s.chat.replay).1 s)
  unfolding admit
  admit-accepts now (err e) context peer_id scope nonce timestamp s h k = cc
  admit-accepts now (ok tt) context peer_id scope nonce timestamp s h k =
      checked-accepts context peer_id nonce
        (check_and_record now scope nonce timestamp s.chat.replay) s k
