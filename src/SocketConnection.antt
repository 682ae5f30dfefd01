-- ===== src/SocketConnection.antt =====
-- SocketConnection.h and SocketConnection.cc: a socket is dialled or announced, once. The virtual
-- functions `performDial` and `performAnnounce` are parameters; `W` is the state that they act on.
pub mod Modes
pub mod Kinds
use libkzr.Prelude.{ℕ, Bool, true, false, []}
use libkzr.Prelude.Int.{ℤ}
use libkzr.Outcome.{
  Outcome, returns, throws, Action, mode_already_set, invalid_socket_dial, invalid_socket_announce,
}
use libkzr.MessageStream.{Text}
use libkzr.FileHandleConnection.{FileHandle, is_valid_handle}

pub data SocketMode : Type 0 where
  undefined connect_to listen : SocketMode

-- The domain, the type and the protocol are the numbers given to socket(2).
pub record SocketConnection : Type 0 where
  pub file : FileHandle
  pub domain : ℤ
  pub type : ℤ
  pub protocol : ℤ
  pub mode : SocketMode
  pub address : Text

-- The constructor, around the descriptor that socket(2) has returned.
unfoldable pub new_socket : ℤ → ℤ → ℤ → ℤ → SocketConnection
new_socket descriptor domain type protocol = record {
  file = record { handle = descriptor; destroy = true };
  domain = domain;
  type = type;
  protocol = protocol;
  mode = undefined;
  address = [];
}

module _ {W : Type 0} where
  abbrev pub performed :
      SocketConnection → Outcome (Unit {0}) × W → Outcome (Unit {0}) × (SocketConnection × W)
  performed s (r, w) = (r, (s, w))

  abbrev pub dial_valid :
      Bool
      → (SocketConnection → Action W (Unit {0}))
      → Text
      → Action (SocketConnection × W) (Unit {0})
  dial_valid false perform_dial addr (s, w) = (throws invalid_socket_dial, (s, w))
  dial_valid true perform_dial addr (s, w) =
      let s' = record s { mode = connect_to; address = addr } in performed s' (perform_dial s' w)

  abbrev pub dial_in :
      SocketMode
      → (SocketConnection → Action W (Unit {0}))
      → Text
      → Action (SocketConnection × W) (Unit {0})
  dial_in undefined perform_dial addr (s, w) =
      dial_valid (is_valid_handle s.file) perform_dial addr (s, w)
  dial_in _ perform_dial addr (s, w) = (throws mode_already_set, (s, w))

  unfoldable pub dial :
      (SocketConnection → Action W (Unit {0})) → Text → Action (SocketConnection × W) (Unit {0})
  dial perform_dial addr (s, w) = dial_in s.mode perform_dial addr (s, w)

  abbrev pub announce_valid :
      Bool
      → (SocketConnection → Action W (Unit {0}))
      → Text
      → Action (SocketConnection × W) (Unit {0})
  announce_valid false perform_announce addr (s, w) = (throws invalid_socket_announce, (s, w))
  announce_valid true perform_announce addr (s, w) =
      let s' = record s { mode = listen; address = addr } in performed s' (perform_announce s' w)

  abbrev pub announce_in :
      SocketMode
      → (SocketConnection → Action W (Unit {0}))
      → Text
      → Action (SocketConnection × W) (Unit {0})
  announce_in undefined perform_announce addr (s, w) =
      announce_valid (is_valid_handle s.file) perform_announce addr (s, w)
  announce_in _ perform_announce addr (s, w) = (throws mode_already_set, (s, w))

  unfoldable pub announce :
      (SocketConnection → Action W (Unit {0})) → Text → Action (SocketConnection × W) (Unit {0})
  announce perform_announce addr (s, w) = announce_in s.mode perform_announce addr (s, w)
