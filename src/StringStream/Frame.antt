-- ===== src/StringStream/Frame.antt =====
-- Two rules of reading and writing that the message layer composes: an action appends given bytes to
-- a writable stream, and an action takes given bytes off the front of a readable one.
use libkzr.Prelude.{
  ◌+◌, ◌≡◌, refl, ap, ◌∙◌, true, List, [], ◌∷◌, ◌++◌, length, append_assoc, append-nil,
  length-append, take-append, drop-append, le→ltb, ◌-◌, some, arith,
}
use libkzr.Prelude.Bytes.{Byte}
use libkzr.Outcome.{returns, throws, Exception, Action, pure, throw, ◌>>=◌, ◌>>◌}
use libkzr.StringStream.{StringStream, good, write_at, store, store_all, put, write, read, get}
use native.Mathlib.Nat.{add-zero}

-- The put position is at the end, and no flag is set.
pub record IsWritable (s : StringStream) : Type 0 where
  pub is_good : good s ≡ true
  pub at_end : s.put_position ≡ length s.taken + length s.unread

abbrev pub append : StringStream → List Byte → StringStream
append s bs = record s { unread = s.unread ++ bs; put_position = s.put_position + length bs }

abbrev pub advance : StringStream → List Byte → List Byte → StringStream
advance s bs rest = record s { taken = s.taken ++ bs; unread = rest }

pub record Writes (m : Action StringStream (Unit {0})) (bs : List Byte) : Type 0 where
  pub at : (s : StringStream) → IsWritable s → m s ≡ (returns tt, append s bs)

pub record Reads {A : Type 0} (p : Action StringStream A) (bs : List Byte) (a : A) : Type 0 where
  pub at :
      (s : StringStream) (rest : List Byte)
      → good s ≡ true
      → s.unread ≡ bs ++ rest
      → p s ≡ (returns a, advance s bs rest)

pub append-IsWritable :
    (s : StringStream) (bs : List Byte) → IsWritable s → IsWritable (append s bs)
append-IsWritable s bs w = record {
  is_good = w.is_good;
  at_end = omega (arith, w.at_end, length-append s.unread bs);
}

pub append-append :
    (s : StringStream) (bs cs : List Byte) → append (append s bs) cs ≡ append s (bs ++ cs)
append-append s bs cs =
    λ i. record s { unread = append_assoc s.unread bs cs i; put_position = sums i }
  where
    sums : s.put_position + length bs + length cs ≡ s.put_position + length (bs ++ cs)
    sums = omega (arith, length-append bs cs)

module _ {m n : Action StringStream (Unit {0})} {bs cs : List Byte} where
  pub Writes->> : Writes m bs → Writes n cs → Writes (m >> n) (bs ++ cs)
  unfolding ◌>>=◌
  Writes->> wm wn = record {
    at = λ s w. rw (wm.at s w, wn.at _ (append-IsWritable s bs w), append-append s bs cs);
  }

-- `bs` is written, and then the exception leaves the action.
pub record Throws (m : Action StringStream (Unit {0})) (bs : List Byte) (e : Exception)
    : Type 0 where
  pub at : (s : StringStream) → IsWritable s → m s ≡ (throws e, append s bs)

module _ {m n : Action StringStream (Unit {0})} {bs cs : List Byte} {e : Exception} where
  pub Writes->>-Throws : Writes m bs → Throws n cs e → Throws (m >> n) (bs ++ cs) e
  unfolding ◌>>=◌
  Writes->>-Throws wm tn = record {
    at = λ s w. rw (wm.at s w, tn.at _ (append-IsWritable s bs w), append-append s bs cs);
  }

module _ {m : Action StringStream (Unit {0})} {bs : List Byte} {e : Exception} where
  pub Throws->> : (n : Action StringStream (Unit {0})) → Throws m bs e → Throws (m >> n) bs e
  unfolding ◌>>=◌
  Throws->> n tm = record { at = λ s w. rw (tm.at s w) }

pub Writes-nothing : Writes (pure tt) []
Writes-nothing = record { at = λ s w. rw (append-nil, add-zero) }

module _ {A B : Type 0} {p : Action StringStream A} {bs : List Byte} {a : A} where
  pub Reads->>= :
      (f : A → Action StringStream B) {cs : List Byte} {b : B}
      → Reads p bs a
      → Reads (f a) cs b
      → Reads (p >>= f) (bs ++ cs) b
  unfolding ◌>>=◌
  Reads->>= f {cs} rp rf = record {
    at = λ s rest g e.
        rw (rp.at s (cs ++ rest) g (e ∙ append_assoc bs cs rest))
          (rw (rf.at (advance s bs (cs ++ rest)) rest g refl) (rw append_assoc));
  }

  -- The last step of a decoder builds its value.
  pub Reads-pure : (g : A → B) → Reads p bs a → Reads (p >>= λ x. pure (g x)) bs (g a)
  unfolding ◌>>=◌
  Reads-pure g rp = record { at = λ s rest h e. rw (rp.at s rest h e) }

write_at_end : (c : Byte) (xs : List Byte) → write_at (length xs) c xs ≡ xs ++ c ∷ []
write_at_end c [] = refl
write_at_end c (x ∷ xs) = ap (λ t. x ∷ t) (write_at_end c xs)

-- At the end of the buffer a character is appended.
store-append : (c : Byte) (s : StringStream) → IsWritable s → store c s ≡ append s (c ∷ [])
unfolding store
store-append c s w =
    let behind : s.put_position - length s.taken ≡ length s.unread = omega (arith, w.at_end) in
    rw (le→ltb s.put_position (length s.taken) (omega (arith, w.at_end)))
      (rw (behind, write_at_end c s.unread))

pub put-Writes : (c : Byte) → Writes (put c) (c ∷ [])
unfolding put
put-Writes c = record { at = λ s w. rw (w.is_good) (rw (store-append c s w)) }

store_all-append : (cs : List Byte) (s : StringStream) → IsWritable s → store_all cs s ≡ append s cs
unfolding store_all
store_all-append [] s w = rw (append-nil, add-zero)
store_all-append (c ∷ cs) s w = rw (store-append c s w) (
    store_all-append cs (append s (c ∷ [])) (append-IsWritable s (c ∷ []) w)
    ∙ append-append s (c ∷ []) cs)

pub write-Writes : (cs : List Byte) → Writes (write cs) cs
unfolding write
write-Writes cs = record { at = λ s w. rw (w.is_good) (rw (store_all-append cs s w)) }

pub read-Reads : (bs : List Byte) → Reads (read (length bs)) bs bs
unfolding read
read-Reads bs = record {
  at = λ s rest g e.
      rw (g, e)
        (rw (le→ltb (length (bs ++ rest)) (length bs) (omega (arith, length-append bs rest)))
          (rw (take-append bs rest, drop-append bs rest)));
}

pub get-Reads : (c : Byte) → Reads get (c ∷ []) (some c)
unfolding get
get-Reads c = record { at = λ s rest g e. rw (g, e) }

pub throw-Throws : (e : Exception) → Throws (throw e) [] e
throw-Throws e = record { at = λ s w. rw (append-nil, add-zero) }

pub Reads-returns : {A : Type 0} (a : A) → Reads (pure a) [] a
Reads-returns a = record { at = λ s rest g e. rw (append-nil, ← e) }
