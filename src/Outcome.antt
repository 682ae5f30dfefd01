-- ===== src/Outcome.antt =====
-- How a call of the library ends, and actions on a mutable object. An exception of Exception.h is
-- named by what its text says, with the numbers that the text holds.
pub mod Yields
pub mod NeverThrows
use libkzr.Prelude.{ℕ}

pub data Exception : Type 0 where
  -- MessageStream.h, MessageStream.cc
  string_too_long vector_too_long : ℕ → Exception
  bad_bit_during_write : Exception
  -- Message.h, Message.cc
  undefined_request undefined_response storage_too_large : Exception
  -- Interaction.cc
  illegal_type bad_state : Exception
  -- Connection.cc
  message_too_long : Exception
  only_wrote : ℕ → ℕ → Exception
  expected_four_bytes : ℕ → Exception
  size_below_four : Exception
  only_read : ℕ → ℕ → Exception
  not_enough_bytes : Exception
  -- SocketConnection.cc, UnixDomainSocketConnection.cc
  mode_already_set invalid_socket_dial invalid_socket_announce : Exception
  no_connect no_socket_options no_bind no_listen : Exception

-- `undefined` is undefined behaviour: here, the use of a local array that a short read left without
-- a value. Nothing is known of a program after it.
pub data Outcome {ℓ} (A : Type ℓ) : Type ℓ where
  returns : A → Outcome A
  throws : Exception → Outcome A
  undefined : Outcome A

-- What was written before an exception stays written, so the object comes back beside it.
abbrev pub Action {ℓ} : Type ℓ → Type ℓ → Type ℓ
Action S A = S → Outcome A × S

module _ {ℓ} {S A : Type ℓ} where
  abbrev pub pure : A → Action S A
  pure a s = (returns a, s)

  abbrev pub throw : Exception → Action S A
  throw e s = (throws e, s)

  abbrev pub undefined_behaviour : Action S A
  undefined_behaviour s = (undefined, s)

module _ {ℓ} {S A B : Type ℓ} where
  abbrev pub continue : Outcome A → (A → Action S B) → Action S B
  continue (returns a) f s = f a s
  continue (throws e) f s = (throws e, s)
  continue undefined f s = (undefined, s)

  infixl 10 ◌>>=◌ ◌>>◌
  unfoldable pub ◌>>=◌ : Action S A → (A → Action S B) → Action S B
  ◌>>=◌ m f s = let (r, s') = m s in continue r f s'

  abbrev pub ◌>>◌ : Action S A → Action S B → Action S B
  m >> n = m >>= λ _. n
