-- ===== src/MessageStream/Overwrite.antt =====
-- `write` on a stream whose put position is not at its end, as after `str(input)`.
use libkzr.Prelude.{
  ◌+◌, ◌≤◌, ◌≡◌, refl, sym, ap, ◌∙◌, true, false, Bool-cases, inl, inr, if◌then◌else◌, [], ◌++◌,
  length, drop, arith,
}
use libkzr.Outcome.{returns, throws, bad_bit_during_write, ◌>>=◌}
use libkzr.StringStream
use libkzr.StringStream.{StringStream, good, contents, store_all}
use libkzr.StringStream.Frame.{IsWritable}
use libkzr.StringStream.Splice.{splice, store_all-Keeps, contents-store_all}
use libkzr.MessageStream.{Text, str, set_str, reset, write}
use libkzr.MessageStream.Storage.{not_bad}

write-good :
    (text : Text) (s : StringStream) → good s ≡ true → write text s ≡ (returns tt, store_all text s)
unfolding write StringStream.write ◌>>=◌
write-good text s g =
    rw g (rw (not_bad (store_all text s) ((store_all-Keeps text s).same_flags ∙ g)))

-- On a good stream `write` returns, and the text takes the place of as many bytes at the put position,
-- going on behind the end of the buffer; the put position moves behind it, and the get position and the
-- state of the stream stay.
pub write-splice :
    (text : Text) (s : StringStream)
    → good s ≡ true
    → s.put_position ≤ length (str s)
    → ((write text s).0 ≡ returns tt)
      × (str (write text s).1 ≡ splice s.put_position text (str s))
      × ((write text s).1.put_position ≡ s.put_position + length text)
      × (length (write text s).1.taken ≡ length s.taken)
      × (good (write text s).1 ≡ true)
unfolding str
write-splice text s g inside =
    let kept = store_all-Keeps text s in
    rw (write-good text s g) (
      refl,
      contents-store_all text s inside,
      kept.moved,
      kept.same_get_position,
      kept.same_flags ∙ g,
    )

write-blocked :
    (text : Text) (s : StringStream)
    → good s ≡ false
    → write text s ≡ ((if s.badbit then throws bad_bit_during_write else returns tt), s)
unfolding write StringStream.write ◌>>=◌
write-blocked text s b = rw b (ground arith)

-- On every stream whose put position is in its buffer, `write` throws exactly if badbit is set, and returns
-- otherwise, also where eofbit or failbit is set. The text takes the place of as many bytes at the put
-- position, and goes on behind the end of the buffer, only if no flag is set; otherwise it is dropped.
pub write_outcome :
    (text : Text) (s : StringStream)
    → s.put_position ≤ length (str s)
    → ((write text s).0 ≡ (if s.badbit then throws bad_bit_during_write else returns tt))
      × (str (write text s).1 ≡ (if good s then splice s.put_position text (str s) else str s))
      × ((write text s).1.put_position
          ≡ (if good s then s.put_position + length text else s.put_position))
      × (good (write text s).1 ≡ good s)
write_outcome text s inside = elim (Bool-cases (good s)) [
  | inl g ↦
      let (ends, spliced, moved, _, still) = write-splice text s g inside in
      let fine = ap (λ b. if b then throws bad_bit_during_write else returns tt) (not_bad s g) in
      rw g (ends ∙ sym fine, spliced, moved, still)
  | inr b ↦ rw (write-blocked text s b) (rw b (refl, refl, refl, refl))
]

-- What is written after `str(input)` on a good stream goes over the front of the input, and what of it is left follows.
pub write-set_str :
    (input text : Text) (s : StringStream)
    → good s ≡ true
    → str (write text (set_str input s).1).1 ≡ text ++ drop (length text) input
unfolding set_str StringStream.set_contents str
write-set_str input text s g =
    (write-splice text (record s { taken = []; unread = input; put_position = 0 }) g
      (omega arith)).1

-- A stream that is reset can be encoded onto, if no flag is set.
pub reset-IsWritable : (s : StringStream) → good s ≡ true → IsWritable (reset s).1
unfolding reset StringStream.set_contents
reset-IsWritable s g = record { is_good = g; at_end = refl }
