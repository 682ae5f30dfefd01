-- ===== src/Interaction/Refusals.antt =====
-- Streams at which decoding an interaction throws, and what it leaves behind.
use libkzr.Prelude.{◌≡◌, ◌<◌, refl, true, Bool-cases, inl, inr, List, [], ◌∷◌, if◌then◌else◌}
use libkzr.Prelude.Bytes.{Byte}
use libkzr.Outcome.{throws, ◌>>=◌, illegal_type, bad_state}
use libkzr.Operations
use libkzr.Operations.{Operation, convert, is_request}
use libkzr.StringStream.{StringStream, good}
use libkzr.MessageStream.{ArgumentOrder}
use libkzr.MessageStream.Storage.{peek_front, peek_end, peek_flagged, peek_zero}
use libkzr.Request.{fresh_request, decode_request}
use libkzr.Response.{fresh_response, decode_response}
use libkzr.Interaction.{Interaction, of_request, of_response, decode_interaction}

-- A byte that is no code of a known kind, and not 0, is refused. The variant is left with what was
-- emplaced first: an undefined message in the direction that the parity of the byte tells.
pub decode_interaction_unknown :
    (order : ArgumentOrder) (held : Interaction) (s : StringStream) (op : Operation)
    (rest : List Byte)
    → good s ≡ true
    → s.unread ≡ op ∷ rest
    → 0 < op
    → convert op ≡ Operations.undefined
    → decode_interaction order (held, s) ≡ (
      throws illegal_type,
      ((if is_request op then of_request fresh_request else of_response fresh_response), s),
    )
unfolding decode_interaction decode_request decode_response ◌>>=◌
decode_interaction_unknown order held s op rest g e pos unknown =
    rw (peek_front s op rest g e pos) (elim (Bool-cases (is_request op)) [
      | inl even ↦ rw even (rw (peek_front s op rest g e pos) (rw unknown))
      | inr odd ↦ rw odd (rw (peek_front s op rest g e pos) (rw unknown))
    ])

-- At the end of a stream the byte 0xff is made up, so the text of the exception is that of an illegal
-- type, and the variant holds an undefined response.
pub decode_interaction_end :
    (order : ArgumentOrder) (held : Interaction) (s : StringStream)
    → good s ≡ true
    → s.unread ≡ []
    → decode_interaction order (held, s) ≡ (
      throws illegal_type,
      (of_response fresh_response, record s { eofbit = true; failbit = true }),
    )
unfolding decode_interaction decode_response is_request convert ◌>>=◌
decode_interaction_end order held s g e =
    rw (peek_end s g e) (rw (peek_flagged (record s { eofbit = true }) refl))

-- The exception for a stream in a bad state is thrown for a byte 0 that is next on a good stream; the
-- variant keeps its value, and nothing is read.
pub decode_interaction_zero :
    (order : ArgumentOrder) (held : Interaction) (s : StringStream) (rest : List Byte)
    → good s ≡ true
    → s.unread ≡ 0 ∷ rest
    → decode_interaction order (held, s) ≡ (throws bad_state, (held, s))
unfolding decode_interaction
decode_interaction_zero order held s rest g e = rw (peek_zero s rest g e)
