-- ===== src/SocketConnection/Modes.antt =====
-- The mode of a socket as a state machine: it leaves `undefined` once, and nothing moves it after that.
use libkzr.Prelude.{◌≡◌, ◌≢◌, refl, true, false, List, [], ◌∷◌}
use libkzr.Outcome.{
  Outcome, returns, throws, Action, Exception, mode_already_set, invalid_socket_dial,
  invalid_socket_announce,
}
use libkzr.MessageStream.{Text}
use libkzr.FileHandleConnection.{is_valid_handle}
use libkzr.SocketConnection.{
  SocketMode, SocketConnection, undefined, connect_to, listen, dial, announce, performed,
}

-- The calls that a user of a socket can make.
pub data Call : Type 0 where
  dials : Text → Call
  announces : Text → Call

-- How a user goes on who catches exceptions: behind undefined behaviour there is nothing.
unfoldable pub settled : Outcome (Unit {0}) → Outcome (Unit {0})
settled (returns a) = returns tt
settled (throws e) = returns tt
settled Outcome.undefined = Outcome.undefined

module _ {W : Type 0} where
  unfoldable pub go_on :
      Outcome (Unit {0}) × (SocketConnection × W)
      → (SocketConnection × W → Outcome (Unit {0}) × (SocketConnection × W))
      → Outcome (Unit {0}) × (SocketConnection × W)
  go_on (returns a, p) next = next p
  go_on (throws e, p) next = next p
  go_on (Outcome.undefined, p) next = (Outcome.undefined, p)

module _ {W : Type 0} (perform_dial perform_announce : SocketConnection → Action W (Unit {0})) where
  unfoldable pub call : Call → Action (SocketConnection × W) (Unit {0})
  call (dials addr) p = dial perform_dial addr p
  call (announces addr) p = announce perform_announce addr p

  -- The calls in turn; an exception of one does not stop the next, and undefined behaviour does.
  unfoldable pub run : List Call → Action (SocketConnection × W) (Unit {0})
  unfolding go_on
  run [] p = (returns tt, p)
  run (c ∷ cs) p = go_on (call c p) (λ q. run cs q)

  in_mode :
      (c : Call) (m : SocketMode) (s : SocketConnection) (w : W)
      → s.mode ≡ m
      → m ≢ undefined
      → call c (s, w) ≡ (throws mode_already_set, (s, w))
  unfolding call dial announce
  in_mode c undefined s w e h = absurd (h refl)
  in_mode (dials addr) connect_to s w e h = rw e
  in_mode (announces addr) connect_to s w e h = rw e
  in_mode (dials addr) listen s w e h = rw e
  in_mode (announces addr) listen s w e h = rw e

  -- Once a mode is set every call throws, and changes neither the socket nor the system.
  pub call-mode_set :
      (c : Call) (s : SocketConnection) (w : W)
      → s.mode ≢ undefined
      → call c (s, w) ≡ (throws mode_already_set, (s, w))
  call-mode_set c s w h = in_mode c s.mode s w refl h

  -- So of any calls none is carried out.
  pub run-mode_set :
      (cs : List Call) (s : SocketConnection) (w : W)
      → s.mode ≢ undefined
      → run cs (s, w) ≡ (returns tt, (s, w))
  unfolding run go_on
  run-mode_set [] s w h = refl
  run-mode_set (c ∷ cs) s w h = rw (call-mode_set c s w h) (run-mode_set cs s w h)

  -- A call on a fresh socket with a valid descriptor sets the mode and the address before the virtual
  -- function runs, and they stay set if that throws.
  pub dial_fresh :
      (addr : Text) (s : SocketConnection) (w : W)
      → s.mode ≡ undefined
      → is_valid_handle s.file ≡ true
      → call (dials addr) (s, w)
        ≡ performed
            (record s { mode = connect_to; address = addr })
            (perform_dial (record s { mode = connect_to; address = addr }) w)
  unfolding call dial
  dial_fresh addr s w e v = simp (e, v)

  pub announce_fresh :
      (addr : Text) (s : SocketConnection) (w : W)
      → s.mode ≡ undefined
      → is_valid_handle s.file ≡ true
      → call (announces addr) (s, w)
        ≡ performed
            (record s { mode = listen; address = addr })
            (perform_announce (record s { mode = listen; address = addr }) w)
  unfolding call announce
  announce_fresh addr s w e v = simp (e, v)

  call_sets_mode :
      (c : Call) (s : SocketConnection) (w : W)
      → s.mode ≡ undefined
      → is_valid_handle s.file ≡ true
      → (call c (s, w)).1.0.mode ≢ undefined
  call_sets_mode (dials addr) s w e v = rw (dial_fresh addr s w e v) (λ p. cc)
  call_sets_mode (announces addr) s w e v = rw (announce_fresh addr s w e v) (λ p. cc)

  go_on-settled :
      (r : Outcome (Unit {0}) × (SocketConnection × W)) (cs : List Call)
      → r.1.0.mode ≢ undefined
      → go_on r (λ q. run cs q) ≡ (settled r.0, r.1)
  unfolding go_on settled
  go_on-settled (returns a, (s, w)) cs h = run-mode_set cs s w h
  go_on-settled (throws e, (s, w)) cs h = run-mode_set cs s w h
  go_on-settled (Outcome.undefined, (s, w)) cs h = refl

  -- Of any sequence of dials and announces on a fresh socket with a valid descriptor the first takes
  -- place, and no later one changes anything, whether its virtual function returns or throws; if that
  -- is undefined behaviour, so is the sequence.
  pub run-first :
      (c : Call) (cs : List Call) (s : SocketConnection) (w : W)
      → s.mode ≡ undefined
      → is_valid_handle s.file ≡ true
      → run (c ∷ cs) (s, w) ≡ (settled (call c (s, w)).0, (call c (s, w)).1)
  unfolding run
  run-first c cs s w e v = go_on-settled (call c (s, w)) cs (call_sets_mode c s w e v)

  call-invalid :
      (c : Call) (s : SocketConnection) (w : W)
      → s.mode ≡ undefined
      → is_valid_handle s.file ≡ false
      → (exception : Exception) × (call c (s, w) ≡ (throws exception, (s, w)))
  unfolding call dial announce
  call-invalid (dials addr) s w e v = (invalid_socket_dial, simp (e, v))
  call-invalid (announces addr) s w e v = (invalid_socket_announce, simp (e, v))

  -- On a fresh socket with an invalid descriptor, no sequence of calls changes the socket or the
  -- system.
  pub run-invalid :
      (cs : List Call) (s : SocketConnection) (w : W)
      → s.mode ≡ undefined
      → is_valid_handle s.file ≡ false
      → run cs (s, w) ≡ (returns tt, (s, w))
  unfolding run go_on
  run-invalid [] s w e v = refl
  run-invalid (c ∷ cs) s w e v = rw (call-invalid c s w e v).1 (run-invalid cs s w e v)
