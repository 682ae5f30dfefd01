-- ===== src/Interaction/Tagged/Decode.antt =====
-- The operation of a decoded interaction, on every stream.
use libkzr.Prelude.{
  zero, suc, ◌<◌, ◌≡◌, refl, true, false, List, [], ◌∷◌, Bool-cases, inl, inr, arith,
}
use libkzr.Prelude.Bytes.{Byte}
use libkzr.Outcome.{Outcome, returns, throws, undefined, illegal_type, ◌>>=◌}
use libkzr.Outcome.Yields.{Holds, YieldsAt}
use libkzr.Operations.{convert, is_request}
use libkzr.StringStream
use libkzr.StringStream.{StringStream, good}
use libkzr.MessageStream.{ArgumentOrder, decode_u8}
use libkzr.MessageStream.Storage.{peek_front, peek_flagged}
use libkzr.Message.Parts.{decode_operation}
use libkzr.Request.{fresh_request, decode_request}
use libkzr.Response.{fresh_response, decode_response}
use libkzr.Interaction.{Interaction, of_request, of_response, emplace, decode_interaction}
use libkzr.Interaction.Refusals.{decode_interaction_zero, decode_interaction_end}
use libkzr.Interaction.Tagged.{IsTagged}
use libkzr.Interaction.Tagged.Kinds.{request-IsTagged, response-IsTagged}

operation_next :
    (s : StringStream) (op : Byte) (rest : List Byte)
    → good s ≡ true
    → s.unread ≡ op ∷ rest
    → YieldsAt s (λ c. c ≡ op) decode_operation
unfolding decode_operation decode_u8 StringStream.get Holds ◌>>=◌
operation_next s op rest g e = record { holds = rw (g, e) refl }

-- What holds of the message that a decoder returns holds of the variant that it was emplaced in.
pub emplaced-Holds :
    {A : Type 0} (P : Interaction → Type 0) (wrap : A → Interaction) (fresh : A)
    (r : Outcome A × StringStream)
    → Holds (λ a. P (wrap a)) r.0
    → (emplace wrap fresh r).0 ≡ returns tt
    → P (emplace wrap fresh r).1.0
unfolding emplace Holds
emplaced-Holds P wrap fresh (returns a, s) h p = h
emplaced-Holds P wrap fresh (throws e, s) h p = absurd (cc p)
emplaced-Holds P wrap fresh (undefined, s) h p = absurd (cc p)

failed_good : (s : StringStream) → good (record s { failbit = true }) ≡ false
failed_good s = ground arith

-- On a stream with a flag set the byte 0xff is made up, which no known kind has.
pub flagged_throws :
    (order : ArgumentOrder) (held : Interaction) (s : StringStream)
    → good s ≡ false
    → (decode_interaction order (held, s)).0 ≡ throws illegal_type
unfolding decode_interaction decode_response is_request convert ◌>>=◌
flagged_throws order held s g =
    rw (peek_flagged s g) (rw (peek_flagged (record s { failbit = true }) (failed_good s)))

module _ (order : ArgumentOrder) (held : Interaction) (s : StringStream) where
  front-IsTagged :
      (op : Byte) (rest : List Byte)
      → good s ≡ true
      → s.unread ≡ op ∷ rest
      → 0 < op
      → (decode_interaction order (held, s)).0 ≡ returns tt
      → IsTagged (decode_interaction order (held, s)).1.0
  unfolding decode_interaction decode_request decode_response ◌>>=◌
  front-IsTagged op rest g e pos =
      rw (peek_front s op rest g e pos) (elim (Bool-cases (is_request op)) [
        | inl even ↦ rw even (
            emplaced-Holds IsTagged of_request fresh_request (decode_request order s) (
              rw (peek_front s op rest g e pos)
                ((request-IsTagged (operation_next s op rest g e) order even).holds)))
        | inr odd ↦ rw odd (
            emplaced-Holds IsTagged of_response fresh_response (decode_response order s) (
              rw (peek_front s op rest g e pos)
                ((response-IsTagged (operation_next s op rest g e) order odd).holds)))
      ])

  unread-IsTagged :
      (bs : List Byte)
      → good s ≡ true
      → s.unread ≡ bs
      → (decode_interaction order (held, s)).0 ≡ returns tt
      → IsTagged (decode_interaction order (held, s)).1.0
  unread-IsTagged [] g e p = absurd (cc (decode_interaction_end order held s g e))
  unread-IsTagged (zero ∷ rest) g e p = absurd (cc (decode_interaction_zero order held s rest g e))
  unread-IsTagged (suc op ∷ rest) g e p = front-IsTagged (suc op) rest g e (omega arith) p

-- If decoding an interaction returns, from whatever stream and into whatever variant, the operation in
-- the header of the message that the variant then holds has the direction and the kind of the
-- alternative, and that kind is known.
pub decode_interaction-IsTagged :
    (order : ArgumentOrder) (held : Interaction) (s : StringStream)
    → (decode_interaction order (held, s)).0 ≡ returns tt
    → IsTagged (decode_interaction order (held, s)).1.0
decode_interaction-IsTagged order held s p = elim (Bool-cases (good s)) [
  | inl g ↦ unread-IsTagged order held s s.unread g refl p
  | inr b ↦ absurd (cc (flagged_throws order held s b))
]
