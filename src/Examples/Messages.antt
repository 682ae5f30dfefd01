-- ===== src/Examples/Messages.antt =====
-- Messages and operation codes.
use libkzr.Prelude.{◌+◌, ◌^◌, ◌≡◌, ◌↔◌, refl, List, [], ◌∷◌, map, All, arith, length}
use libkzr.Prelude.Bytes.{Byte}
use libkzr.Outcome.{returns}
use libkzr.Operations
use libkzr.Operations.{
  ConceptualOperation, MessageDirection, convert, translate_concept, expected_response_kind,
  request, response, kind_among,
}
use libkzr.Operations.Codes.{expected_response_kind_lem}
use libkzr.StringStream.{StringStream, empty_stream}
use libkzr.StringStream.Frame.{IsWritable, append, advance}
use libkzr.StringStream.Preserves.{SameBytes}
use libkzr.MessageStream.{left_to_right, right_to_left}
use libkzr.MessageStream.RoundTrip.{passed}
use libkzr.MessageStream.{encode_elements}
use libkzr.MessageStream.Wire.{elements_bytes}
use libkzr.Response.{walk_response}
use libkzr.Message.Parts.{Stat, fresh_stat, encode_stat, decode_stat}
use libkzr.Message.Parts.Wire.{IsStat, stat_bytes, received_stat, stat_member_bytes, qid_bytes}
use libkzr.MessageStream.Wire.{string_bytes}
use libkzr.Message.File.{WalkRequest, WalkResponse}
use libkzr.Message.File.Wire.{IsWalkRequest, walk_request_bytes, received_walk_request}
use libkzr.Message.RoundTrip.{decode_stat-encode_stat}
use libkzr.Request.{walk_request}
use libkzr.Response.{blank_response}
use libkzr.Interaction.{
  Interaction, of_request, of_response, encode_interaction, decode_interaction,
}
use libkzr.Message.Parts.Wire.{header_bytes}
use libkzr.MessageStream.Wire.{vector_bytes}
use libkzr.Interaction.Wire.{
  IsInteraction, request_bytes, interaction_bytes, received_interaction, received_request,
}
use libkzr.Message.Fresh.{fresh_walk_request}
use libkzr.Interaction.Encode.{encode_interaction_bytes}
use libkzr.Interaction.RoundTrip.{decode-encode_interaction}
use libkzr.Interaction.Texts.{texts}
use libkzr.Interaction.Sequence.{take_each, take_each-encode_elements}
use libkzr.Interaction.Arrival.{decode-encode_interaction-eq_iff, texts-decode-encode_interaction}
use libkzr.Interaction.Preserves.{decode_interaction-SameBytes}

-- A stream that nothing was written to.
pub empty-IsWritable : IsWritable empty_stream
empty-IsWritable = record { is_good = refl; at_end = refl }

-- A stream that holds some bytes.
abbrev pub holding : List Byte → StringStream
holding bs = record empty_stream { unread = bs; put_position = length bs }

-- Twalk of fid 1 to fid 2 along "usr".
abbrev pub walk_usr : WalkRequest
walk_usr = record {
  header = record { op = 110; tag = 7 };
  fid = 1;
  newfid = 2;
  wname = (b'u' ∷ b's' ∷ b'r' ∷ []) ∷ [];
}

pub walk_usr-IsWalkRequest : IsWalkRequest walk_usr
walk_usr-IsWalkRequest = omega arith

abbrev pub sent : Interaction
sent = of_request (walk_request walk_usr)

pub sent-IsInteraction : IsInteraction sent
unfolding translate_concept
sent-IsInteraction = (walk_usr-IsWalkRequest, refl)

abbrev pub held : Interaction
held = of_response (blank_response (record { op = 0; tag = 0 }))

-- The bytes of the request, as 9P lays them out behind the length.
sent_bytes :
    interaction_bytes sent
    ≡ 110 ∷ 7 ∷ 0 ∷ 1 ∷ 0 ∷ 0 ∷ 0 ∷ 2 ∷ 0 ∷ 0 ∷ 0 ∷ 1 ∷ 0 ∷ 3 ∷ 0 ∷ b'u' ∷ b's' ∷ b'r' ∷ []
unfolding interaction_bytes request_bytes walk_request_bytes header_bytes vector_bytes string_bytes
sent_bytes = refl

-- The name that was sent arrives without its characters.
received_sent :
    received_interaction left_to_right sent
    ≡ of_request (walk_request (record walk_usr { wname = [] ∷ [] }))
unfolding received_interaction received_request received_walk_request fresh_walk_request
received_sent = refl

decode-encode_interaction_example :
    ((encode_interaction sent empty_stream).0 ≡ returns tt)
    × (decode_interaction right_to_left (held, (encode_interaction sent empty_stream).1) ≡ (
      returns tt,
      (
        received_interaction right_to_left sent,
        advance (append empty_stream (interaction_bytes sent)) (interaction_bytes sent) [],
      ),
    ))
decode-encode_interaction_example =
    decode-encode_interaction right_to_left held sent empty_stream sent-IsInteraction
      empty-IsWritable refl

texts-decode-encode_interaction_example :
    texts (decode_interaction right_to_left (held, (encode_interaction sent empty_stream).1)).1.0
    ≡ map (λ _. []) (texts sent)
texts-decode-encode_interaction_example =
    texts-decode-encode_interaction right_to_left held sent empty_stream sent-IsInteraction
      empty-IsWritable refl

decode-encode_interaction-eq_iff_example :
    ((decode_interaction left_to_right (held, (encode_interaction sent empty_stream).1)).1.0 ≡ sent)
    ↔ All (λ t. t ≡ []) (texts sent)
decode-encode_interaction-eq_iff_example =
    decode-encode_interaction-eq_iff held sent empty_stream sent-IsInteraction empty-IsWritable refl

abbrev walked : WalkResponse
walked = record {
  header = record { op = 111; tag = 7 };
  wqid = record { type = 0x80; version = 1; path = 77 } ∷ [];
}

-- A request and a response, one behind the other.
abbrev pub both : List Interaction
both = sent ∷ of_response (walk_response walked) ∷ []

pub both-IsInteraction : All IsInteraction both
unfolding translate_concept
both-IsInteraction = (sent-IsInteraction, ((omega arith, refl), tt))

take_each-encode_elements_example :
    take_each right_to_left held 2 (encode_elements encode_interaction both empty_stream).1 ≡ (
      returns (map (received_interaction right_to_left) both),
      passed empty_stream (elements_bytes interaction_bytes both),
    )
take_each-encode_elements_example =
    take_each-encode_elements right_to_left held both empty_stream both-IsInteraction
      empty-IsWritable refl

encode_interaction_bytes_example :
    encode_interaction sent empty_stream
    ≡ (returns tt, append empty_stream (interaction_bytes sent))
encode_interaction_bytes_example =
    encode_interaction_bytes sent empty_stream sent-IsInteraction empty-IsWritable

decode_interaction-SameBytes_example :
    SameBytes
      (holding (110 ∷ 7 ∷ []))
      (decode_interaction right_to_left (held, holding (110 ∷ 7 ∷ []))).1.1
decode_interaction-SameBytes_example =
    decode_interaction-SameBytes right_to_left held (holding (110 ∷ 7 ∷ []))

-- A directory with all the texts of its Stat.
abbrev home : Stat
home = record fresh_stat {
  type = 3;
  qid = record { type = 0x80; version = 1; path = 2 ^ 40 + 5 };
  length = 2 ^ 33;
  name = b'h' ∷ [];
  uid = b'r' ∷ b'o' ∷ [];
}

home-IsStat : IsStat home
unfolding stat_member_bytes qid_bytes string_bytes
home-IsStat = omega arith

decode_stat-encode_stat_example :
    decode_stat right_to_left home (encode_stat home empty_stream).1
    ≡ (returns (received_stat right_to_left home home), passed empty_stream (stat_bytes home))
decode_stat-encode_stat_example =
    decode_stat-encode_stat right_to_left home home empty_stream home-IsStat empty-IsWritable refl

expected_response_kind_lem_example : expected_response_kind 110 ≡ 111
unfolding convert translate_concept Operations.is_request
expected_response_kind_lem_example = expected_response_kind_lem 110 (omega arith)
