-- ===== src/Connection/Reading.antt =====
-- `Connection::read` over any connection.
use libkzr.Prelude.{
  ℕ, ◌+◌, ◌-◌, ◌%◌, ◌^◌, ◌≤◌, ◌≡◌, ◌≢◌, refl, Bool-cases, inl, inr, ◌==◌, ==_iff, ne→==, le→ltb,
  ltb, if◌then◌else◌, arith,
}
use libkzr.Outcome.{Outcome, returns, throws, undefined, only_read, not_enough_bytes}
use libkzr.StringStream.{StringStream}
use libkzr.MessageStream.{Text}
use libkzr.Connection.{
  RawConnection, message_size, spaces, finish_read, after_payload, after_size, after_header, read,
}

-- The count cannot be the size and, with the four bytes of the size itself, be the size again.
finish_read_lem :
    (size n : ℕ) (storage : Text) (msg : StringStream)
    → finish_read 4 size n storage msg
      ≡ (throws (if n == size then not_enough_bytes else only_read n size), msg)
unfolding finish_read
finish_read_lem size n storage msg = elim (Bool-cases (n == size)) [
  | inl same ↦ rw (same, ne→== ((n + 4) % 2 ^ 64) size (omega (arith, (==_iff n size).0 same)))
  | inr other ↦ rw other
]

finish_read-Fails :
    (size n : ℕ) (storage : Text) (msg : StringStream)
    → ((finish_read 4 size n storage msg).0 ≢ returns tt)
      × ((finish_read 4 size n storage msg).1 ≡ msg)
finish_read-Fails size n storage msg = rw (finish_read_lem size n storage msg) (λ p. cc, refl)

module _ {C : Type 0} (raw : RawConnection C) where
  -- The message is as before, and the call has not returned.
  abbrev pub Fails : StringStream → Outcome (Unit {0}) × (C × StringStream) → Type 0
  Fails msg (r, (c, msg')) = (r ≢ returns tt) × (msg' ≡ msg)

  after_payload-Fails :
      (size : ℕ) (msg : StringStream) (r : Outcome (ℕ × Text) × C)
      → Fails msg (after_payload 4 size msg r)
  after_payload-Fails size msg (returns (n, storage), c) = finish_read-Fails size n storage msg
  after_payload-Fails size msg (throws e, c) = (λ p. cc, refl)
  after_payload-Fails size msg (undefined, c) = (λ p. cc, refl)

  after_size-Fails :
      (msg : StringStream) (c : C) (size : Outcome ℕ) → Fails msg (after_size raw 4 msg c size)
  after_size-Fails msg c (returns size) = elim (Bool-cases (ltb size 4)) [
    | inl small ↦ rw small (λ p. cc, refl)
    | inr big ↦ rw big (after_payload-Fails size msg (raw.raw_read (spaces (size - 4)) c))
  ]
  after_size-Fails msg c (throws e) = (λ p. cc, refl)
  after_size-Fails msg c undefined = (λ p. cc, refl)

  after_header-Fails :
      (msg : StringStream) (r : Outcome (ℕ × Text) × C) → Fails msg (after_header raw msg r)
  after_header-Fails msg (returns (n, header), c) = elim (Bool-cases (n == 4)) [
    | inl four ↦ rw (four, (==_iff n 4).0 four) (after_size-Fails msg c (message_size header))
    | inr other ↦ rw other (λ p. cc, refl)
  ]
  after_header-Fails msg (throws e, c) = (λ p. cc, refl)
  after_header-Fails msg (undefined, c) = (λ p. cc, refl)

  -- Whatever the connection delivers, `read` does not return, and it puts nothing into the message.
  pub read_fails :
      (c : C) (msg : StringStream)
      → ((read raw (c, msg)).0 ≢ returns tt) × ((read raw (c, msg)).1.1 ≡ msg)
  unfolding read
  read_fails c msg = after_header-Fails msg (raw.raw_read (spaces 4) c)

  -- A connection that hands over the four bytes of the size, and then `n` bytes for the rest, makes
  -- `read` throw: at `n` below or above the size for too few bytes, also where `n` is all that the
  -- message has left, and at `n` equal to the size for the sum.
  pub read_outcome :
      (c c₁ c₂ : C) (msg : StringStream) (header payload : Text) (size n : ℕ)
      → raw.raw_read (spaces 4) c ≡ (returns (4, header), c₁)
      → message_size header ≡ returns size
      → 4 ≤ size
      → raw.raw_read (spaces (size - 4)) c₁ ≡ (returns (n, payload), c₂)
      → read raw (c, msg)
        ≡ (throws (if n == size then not_enough_bytes else only_read n size), (c₂, msg))
  unfolding read
  read_outcome c c₁ c₂ msg header payload size n first e enough second =
      rw first (rw (e, le→ltb size 4 enough) (rw second (rw (finish_read_lem size n payload msg))))
