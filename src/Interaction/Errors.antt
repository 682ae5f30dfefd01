-- ===== src/Interaction/Errors.antt =====
-- Every exception that leaves the decoder of an interaction, and every stream that it is thrown for.
use libkzr.Prelude.{
  zero, suc, ◌<◌, ◌≡◌, ◌↔◌, refl, ap, true, false, Option, none, some, List, [], ◌∷◌, Bool-cases,
  inl, inr, if◌then◌else◌, arith,
}
use libkzr.Prelude.Bytes.{Byte}
use libkzr.Outcome.{Outcome, Exception, returns, throws, undefined, illegal_type, bad_state, ◌>>=◌}
use libkzr.Outcome.NeverThrows.{IsQuiet}
use libkzr.Operations.{convert, is_request}
use libkzr.Operations.Codes.{is_undefined, is_undefined→eq}
use libkzr.StringStream.{StringStream, good}
use libkzr.MessageStream.{ArgumentOrder}
use libkzr.MessageStream.Storage.{peek_front}
use libkzr.Request.{fresh_request, decode_request}
use libkzr.Response.{fresh_response, decode_response}
use libkzr.Interaction.{Interaction, of_request, of_response, emplace, decode_interaction}
use libkzr.Interaction.Tagged.Decode.{flagged_throws}
use libkzr.Interaction.Refusals.{
  decode_interaction_zero, decode_interaction_end, decode_interaction_unknown,
}
use libkzr.Interaction.Quiet.{request_kind-NeverThrows, response_kind-NeverThrows}

-- The exception that the flags and the next byte of a stream call for.
abbrev pub front_error : List Byte → Option Exception
front_error [] = some illegal_type
front_error (zero ∷ rest) = some bad_state
front_error (suc op ∷ rest) = if is_undefined (convert (suc op)) then some illegal_type else none

abbrev pub stream_error : StringStream → Option Exception
stream_error s = if good s then front_error s.unread else some illegal_type

-- An outcome is the exception that is called for, or none at all.
AsCalled : Option Exception → Outcome (Unit {0}) → Type 0
AsCalled none r = IsQuiet r
AsCalled (some e) r = r ≡ throws e

emplaced-IsQuiet :
    {A : Type 0} (wrap : A → Interaction) (fresh : A) (r : Outcome A × StringStream)
    → IsQuiet r.0
    → IsQuiet (emplace wrap fresh r).0
unfolding emplace IsQuiet
emplaced-IsQuiet wrap fresh (returns a, s) q = tt
emplaced-IsQuiet wrap fresh (throws e, s) q = absurd q
emplaced-IsQuiet wrap fresh (undefined, s) q = tt

module _ (order : ArgumentOrder) (held : Interaction) (s : StringStream) where
  known-IsQuiet :
      (op : Byte) (rest : List Byte)
      → good s ≡ true
      → s.unread ≡ op ∷ rest
      → 0 < op
      → is_undefined (convert op) ≡ false
      → IsQuiet (decode_interaction order (held, s)).0
  unfolding decode_interaction decode_request decode_response ◌>>=◌
  known-IsQuiet op rest g e pos known =
      rw (peek_front s op rest g e pos) (elim (Bool-cases (is_request op)) [
        | inl even ↦ rw even (
            emplaced-IsQuiet of_request fresh_request (decode_request order s) (
              rw (peek_front s op rest g e pos)
                ((request_kind-NeverThrows order (convert op) known).at s)))
        | inr odd ↦ rw odd (
            emplaced-IsQuiet of_response fresh_response (decode_response order s) (
              rw (peek_front s op rest g e pos)
                ((response_kind-NeverThrows order (convert op) known).at s)))
      ])

  front-AsCalled :
      (bs : List Byte)
      → good s ≡ true
      → s.unread ≡ bs
      → AsCalled (front_error bs) (decode_interaction order (held, s)).0
  unfolding AsCalled
  front-AsCalled [] g e = ap (λ p. p.0) (decode_interaction_end order held s g e)
  front-AsCalled (zero ∷ rest) g e = ap (λ p. p.0) (decode_interaction_zero order held s rest g e)
  front-AsCalled (suc op ∷ rest) g e = elim (Bool-cases (is_undefined (convert (suc op)))) [
    | inl u ↦ rw u (
        ap (λ p. p.0)
          (decode_interaction_unknown order held s (suc op) rest g e (omega arith)
            (is_undefined→eq (convert (suc op)) u)))
    | inr k ↦ rw k (known-IsQuiet (suc op) rest g e (omega arith) k)
  ]

  stream-AsCalled : AsCalled (stream_error s) (decode_interaction order (held, s)).0
  unfolding AsCalled
  stream-AsCalled = elim (Bool-cases (good s)) [
    | inl g ↦ rw g (front-AsCalled s.unread g refl)
    | inr b ↦ rw b (flagged_throws order held s b)
  ]

as_called :
    (c : Option Exception) (r : Outcome (Unit {0})) (e : Exception)
    → AsCalled c r
    → (r ≡ throws e) ↔ (c ≡ some e)
unfolding AsCalled IsQuiet
as_called none (returns a) e q = (λ h. cc, λ h. cc)
as_called none (throws x) e q = absurd q
as_called none undefined e q = (λ h. cc, λ h. cc)
as_called (some x) r e q = (λ h. cc, λ h. cc)

-- Decoding an interaction throws an exception exactly if the stream calls for it: that of an illegal type
-- where a flag is set, where nothing is left, and where the next byte is neither 0 nor the operation of a
-- known kind; and that of a bad state where the next byte is 0. What follows behind the operation of a
-- known kind, and whether it is all there, raises no exception.
pub decode_interaction-throws_iff :
    (order : ArgumentOrder) (held : Interaction) (s : StringStream) (e : Exception)
    → ((decode_interaction order (held, s)).0 ≡ throws e) ↔ (stream_error s ≡ some e)
decode_interaction-throws_iff order held s e =
    as_called (stream_error s) (decode_interaction order (held, s)).0 e
      (stream-AsCalled order held s)
