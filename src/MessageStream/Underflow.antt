-- ===== src/MessageStream/Underflow.antt =====
-- Decoding at a stream that holds too little: a number is undefined behaviour, a text is not noticed.
use libkzr.Prelude.{
  ℕ, ◌≤◌, ◌<◌, ◌^◌, ◌≡◌, refl, true, false, Bool-cases, inl, inr, List, [], ◌∷◌, ◌++◌, ◌⊎◌, length,
  lt→ltb, le→ltb, arith,
}
use libkzr.Prelude.Bytes.{Byte, little_endian}
use libkzr.Outcome.{returns, undefined, ◌>>=◌}
use libkzr.StringStream.{StringStream, good}
use libkzr.StringStream.Frame.{advance}
use native.Mathlib.Decide.{dec_le}
use libkzr.MessageStream.{Text, decode_u32, decode_string, overlay, build_u32_from_bytes}
use libkzr.MessageStream.Decode.{decode_u16-Reads}
use libkzr.MessageStream.Storage.{read_short, read_long, read_flagged}

module _ (s : StringStream) (g : good s ≡ true) where
  enough :
      (bs : List Byte) → s.unread ≡ bs → 4 ≤ length bs → (v : ℕ) × ((decode_u32 s).0 ≡ returns v)
  unfolding decode_u32 ◌>>=◌
  enough [] e h = absurd (omega arith)
  enough (a ∷ []) e h = absurd (omega arith)
  enough (a ∷ b ∷ []) e h = absurd (omega arith)
  enough (a ∷ b ∷ c ∷ []) e h = absurd (omega arith)
  enough (a ∷ b ∷ c ∷ d ∷ bs) e h =
      (build_u32_from_bytes a b c d, rw (read_long 4 s g (rw e (le→ltb _ 4 h))) (rw e))

  too_few : (bs : List Byte) → s.unread ≡ bs → length bs < 4 → (decode_u32 s).0 ≡ undefined
  unfolding decode_u32 ◌>>=◌
  too_few [] e h = rw (read_short 4 s g (rw e)) (rw e)
  too_few (a ∷ []) e h = rw (read_short 4 s g (rw e)) (rw e)
  too_few (a ∷ b ∷ []) e h = rw (read_short 4 s g (rw e)) (rw e)
  too_few (a ∷ b ∷ c ∷ []) e h = rw (read_short 4 s g (rw e)) (rw e)
  too_few (a ∷ b ∷ c ∷ d ∷ bs) e h = absurd (omega arith)

flagged : (s : StringStream) → good s ≡ false → (decode_u32 s).0 ≡ undefined
unfolding decode_u32 ◌>>=◌
flagged s b = rw (read_flagged 4 s b)

-- Decoding 32 bits has a value exactly on a good stream with four bytes left; on every other stream it
-- reads an array that was never filled.
pub decode_u32_outcome :
    (s : StringStream)
    → ((good s ≡ true) × ((4 ≤ length s.unread) × ((v : ℕ) × ((decode_u32 s).0 ≡ returns v))))
      ⊎ (((good s ≡ false) ⊎ (length s.unread < 4)) × ((decode_u32 s).0 ≡ undefined))
decode_u32_outcome s = elim (Bool-cases (good s)) [
  | inl g ↦ elim (dec_le 4 (length s.unread)) [
    | yes h ↦ inl (g, (h, enough s g s.unread refl h))
    | no h ↦ inr (inr (omega arith), too_few s g s.unread refl (omega arith))
  ]
  | inr b ↦ inr (inl b, flagged s b)
]

-- A text that is cut off on a good stream is taken for what there is of it: the stream is left with
-- eofbit and failbit set, and `decode` returns.
pub decode_string_truncated :
    (target chars : Text) (n : ℕ) (s : StringStream)
    → good s ≡ true
    → n < 2 ^ 16
    → length chars < n
    → s.unread ≡ little_endian 2 n ++ chars
    → decode_string target s ≡ (
      returns (overlay chars target),
      record s {
        taken = (s.taken ++ little_endian 2 n) ++ chars;
        unread = [];
        eofbit = true;
        failbit = true;
      },
    )
unfolding decode_string ◌>>=◌
decode_string_truncated target chars n s g h short e =
    rw ((decode_u16-Reads n h).at s chars g e)
      (rw (read_short n (advance s (little_endian 2 n) chars) g (lt→ltb (length chars) n short)))
