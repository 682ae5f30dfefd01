-- ===== src/MessageStream/Storage.antt =====
-- The methods of MessageStream that go to the storage: str, reset, write, read and peek.
use libkzr.Prelude.{
  ℕ, zero, suc, ◌≤◌, ◌<◌, ◌≡◌, ◌↔◌, refl, true, false, none, some, List, [], ◌∷◌, ◌++◌, length, ltb,
  take, drop, length-take_le, ◌||◌, ne→==, Bool-cases, inl, inr, arith,
}
use libkzr.Prelude.Bytes.{Byte}
use libkzr.Outcome.{returns, ◌>>=◌}
use libkzr.StringStream
use libkzr.StringStream.{StringStream, good, contents, peek_from}
use libkzr.StringStream.Frame
use libkzr.StringStream.Frame.{Writes}
use libkzr.MessageStream.{Text, reset, write, read, peek}

good→eofbit : (s : StringStream) → good s ≡ true → s.eofbit ≡ false
good→eofbit s g = ground arith

-- On a stream in a good state `peek` answers the next byte and moves nothing, unless the byte is 0.
pub peek_front :
    (s : StringStream) (c : Byte) (rest : List Byte)
    → good s ≡ true
    → s.unread ≡ c ∷ rest
    → 0 < c
    → peek s ≡ (returns (some c), s)
unfolding peek ◌>>=◌
peek_front s c rest g e pos = rw front (rw (good→eofbit s g, ne→== c 0 (omega arith)))
  where
    front : StringStream.peek s ≡ (returns (some c), s)
    front = unfold StringStream.peek in rw (g, e)

-- Where there is no next byte, at the end or with a flag set, the answer is the byte 0xff.
pub peek_end :
    (s : StringStream)
    → good s ≡ true
    → s.unread ≡ []
    → peek s ≡ (returns (some 0xff), record s { eofbit = true })
unfolding peek ◌>>=◌
peek_end s g e = rw front
  where
    front : StringStream.peek s ≡ (returns none, record s { eofbit = true })
    front = unfold StringStream.peek in rw g (rw (e, peek_from))

pub peek_flagged :
    (s : StringStream)
    → good s ≡ false
    → peek s ≡ (returns (some 0xff), record s { failbit = true })
unfolding peek ◌>>=◌
peek_flagged s b = rw front
  where
    front : StringStream.peek s ≡ (returns none, record s { failbit = true })
    front = unfold StringStream.peek in rw b

-- `none` comes from a byte 0 that is next on a good stream.
pub peek_zero :
    (s : StringStream) (rest : List Byte)
    → good s ≡ true
    → s.unread ≡ 0 ∷ rest
    → peek s ≡ (returns none, s)
unfolding peek ◌>>=◌
peek_zero s rest g e = rw front (rw (good→eofbit s g))
  where
    front : StringStream.peek s ≡ (returns (some 0), s)
    front = unfold StringStream.peek in rw (g, e)

peek_cases :
    (s : StringStream) (bs : List Byte)
    → good s ≡ true
    → s.unread ≡ bs
    → (peek s).0 ≡ returns none
    → (rest : List Byte) × (bs ≡ 0 ∷ rest)
peek_cases s [] g e p = absurd (cc (peek_end s g e))
peek_cases s (zero ∷ bs) g e p = (bs, refl)
peek_cases s (suc c ∷ bs) g e p = absurd (cc (peek_front s (suc c) bs g e (omega arith)))

-- `peek` answers `none` exactly on a good stream whose next byte is 0, and never at the end of the
-- stream.
pub peek-eq-none_iff :
    (s : StringStream)
    → ((peek s).0 ≡ returns none) ↔ ((good s ≡ true) × ((rest : List Byte) × (s.unread ≡ 0 ∷ rest)))
peek-eq-none_iff s = (forth, λ (g, (rest, e)). rw (peek_zero s rest g e))
  where
    forth :
        (peek s).0 ≡ returns none → (good s ≡ true) × ((rest : List Byte) × (s.unread ≡ 0 ∷ rest))
    forth p = elim (Bool-cases (good s)) [
      | inl g ↦ (g, peek_cases s s.unread g refl p)
      | inr b ↦ absurd (cc (peek_flagged s b))
    ]

-- The three ways in which the stringstream reads.
pub read_short :
    (n : ℕ) (s : StringStream)
    → good s ≡ true
    → ltb (length s.unread) n ≡ true
    → StringStream.read n s ≡ (
      returns s.unread,
      record s { taken = s.taken ++ s.unread; unread = []; eofbit = true; failbit = true },
    )
unfolding StringStream.read
read_short n s g short = rw (g, short)

pub read_long :
    (n : ℕ) (s : StringStream)
    → good s ≡ true
    → ltb (length s.unread) n ≡ false
    → StringStream.read n s ≡ (
      returns (take n s.unread),
      record s { taken = s.taken ++ take n s.unread; unread = drop n s.unread },
    )
unfolding StringStream.read
read_long n s g long = rw (g, long)

pub read_flagged :
    (n : ℕ) (s : StringStream)
    → good s ≡ false
    → StringStream.read n s ≡ (returns [], record s { failbit = true })
unfolding StringStream.read
read_flagged n s b = rw b

good→flags : (s : StringStream) → good s ≡ true → (s.failbit || s.badbit) || s.eofbit ≡ false
good→flags s g = ground arith

-- After `read` no flag is set, whatever the stream was, and the count is the number of characters.
pub read_clears :
    (count : ℕ) (s : StringStream)
    → (good (read count s).1 ≡ true)
      × ((chars : Text) × ((read count s).0 ≡ returns (chars, length chars)))
unfolding read StringStream.clear ◌>>=◌
read_clears count s = elim (Bool-cases (good s)) [
  | inl g ↦ elim (Bool-cases (ltb (length s.unread) count)) [
    | inl short ↦ rw (read_short count s g short) (refl, (s.unread, refl))
    | inr long ↦
        let enough : count ≤ length s.unread = ground arith in
        rw (read_long count s g long) (
          rw (good→flags s g) (g, (take count s.unread, rw (length-take_le count s.unread enough))))
  ]
  | inr b ↦ rw (read_flagged count s b) (refl, ([], refl))
]

-- `reset` empties the buffer and moves both positions to its start; flags that are set stay set.
pub reset_lem :
    (s : StringStream)
    → ((reset s).0 ≡ returns tt)
      × (contents (reset s).1 ≡ [])
      × ((reset s).1.put_position ≡ 0)
      × (good (reset s).1 ≡ good s)
unfolding reset StringStream.set_contents
reset_lem s = (refl, refl, refl, refl)

pub not_bad : (s : StringStream) → good s ≡ true → s.badbit ≡ false
not_bad s g = ground arith

-- On a writable stream `write` returns, and the text stands behind what was there.
pub write-Writes : (text : Text) → Writes (write text) text
unfolding write ◌>>=◌
write-Writes text = record {
  at = λ s w. rw ((Frame.write-Writes text).at s w) (rw (not_bad s w.is_good));
}
