-- ===== src/Interaction/RoundTrip.antt =====
-- A message in a variant, sent and received.
use libkzr.Prelude.{◌%◌, ◌≡◌, refl, ap, ◌∙◌, true, List, [], ◌∷◌, ◌++◌, append-nil, arith}
use libkzr.Prelude.Bytes.{Byte, little_endian}
use libkzr.Outcome.{returns, ◌>>=◌}
use libkzr.Operations.{ConceptualOperation, MessageDirection, request, response, translate_concept}
use libkzr.Operations.Codes.{
  convert-translate_concept, translate_concept-bounds, is_request-translate_concept,
}
use libkzr.StringStream.{StringStream, good}
use libkzr.StringStream.Frame.{Reads, IsWritable, append, advance}
use libkzr.MessageStream.{ArgumentOrder}
use libkzr.MessageStream.Storage.{peek_front}
use libkzr.Message.Parts.{MessageHeader}
use libkzr.Message.Parts.Wire.{header_bytes}
use libkzr.Message.Session.Wire.{
  error_response_bytes, version_message_bytes, authentication_request_bytes,
  authentication_response_bytes, flush_request_bytes, attach_request_bytes, attach_response_bytes,
}
use libkzr.Message.File.Wire.{
  walk_request_bytes, walk_response_bytes, open_request_bytes, open_or_create_response_bytes,
  create_request_bytes, fid_request_bytes, read_request_bytes, read_response_bytes,
  write_request_bytes, write_response_bytes,
}
use libkzr.Message.Metadata.Wire.{stat_response_bytes, wstat_request_bytes}
use libkzr.Request.{
  Request, blank_request, decode_request, version_request, auth_request, attach_request,
  error_request, flush_request, walk_request, open_request, create_request, read_request,
  write_request, clunk_request, remove_request, stat_request, wstat_request,
}
use libkzr.Response.{
  Response, blank_response, decode_response, version_response, auth_response, attach_response,
  error_response, flush_response, walk_response, open_response, create_response, read_response,
  write_response, clunk_response, remove_response, stat_response, wstat_response,
}
use libkzr.Interaction.{
  Interaction, of_request, of_response, encode_interaction, decode_interaction,
}
use libkzr.Interaction.Wire.{
  IsRequest, IsResponse, IsInteraction, request_bytes, response_bytes, interaction_bytes,
  received_request, received_response, received_interaction,
}
use libkzr.Interaction.Encode.{encode_interaction-Writes}
use libkzr.Interaction.Decode.{
  request_kind, response_kind, decode_request_kind-Reads, decode_response_kind-Reads,
}

-- The first byte of a message is its operation code.
front :
    (h : MessageHeader) (more : List Byte) (op : ConceptualOperation) (dir : MessageDirection)
    → h.op ≡ translate_concept op dir
    → (rest : List Byte) × (header_bytes h ++ more ≡ translate_concept op dir ∷ rest)
unfolding header_bytes
front h more op dir e =
    (little_endian 2 h.tag ++ more, ap (λ c. c ∷ little_endian 2 h.tag ++ more) code)
  where
    code : h.op % 256 ≡ translate_concept op dir
    code = omega (arith, translate_concept-bounds op dir)

front_alone :
    (h : MessageHeader) (op : ConceptualOperation) (dir : MessageDirection)
    → h.op ≡ translate_concept op dir
    → (rest : List Byte) × (header_bytes h ≡ translate_concept op dir ∷ rest)
front_alone h op dir e = rw append-nil at (front h [] op dir e)

request_front :
    (r : Request)
    → IsRequest r
    → (rest : List Byte) × (request_bytes r ≡ translate_concept (request_kind r) request ∷ rest)
unfolding request_kind request_bytes attach_request_bytes authentication_request_bytes
    create_request_bytes fid_request_bytes flush_request_bytes open_request_bytes read_request_bytes
    version_message_bytes walk_request_bytes write_request_bytes wstat_request_bytes
request_front (blank_request h) w = absurd w
request_front (version_request m) w = front m.header _ _ request w.1
request_front (auth_request m) w = front m.header _ _ request w.1
request_front (attach_request m) w = front m.header _ _ request w.1
request_front (error_request m) w = front_alone m _ request w.1
request_front (flush_request m) w = front m.header _ _ request w.1
request_front (walk_request m) w = front m.header _ _ request w.1
request_front (open_request m) w = front m.header _ _ request w.1
request_front (create_request m) w = front m.header _ _ request w.1
request_front (read_request m) w = front m.header _ _ request w.1
request_front (write_request m) w = front m.header _ _ request w.1
request_front (clunk_request m) w = front m.header _ _ request w.1
request_front (remove_request m) w = front m.header _ _ request w.1
request_front (stat_request m) w = front m.header _ _ request w.1
request_front (wstat_request m) w = front m.header _ _ request w.1

pub decode_request-Reads :
    (order : ArgumentOrder) (r : Request)
    → IsRequest r
    → Reads (decode_request order) (request_bytes r) (received_request order r)
unfolding decode_request ◌>>=◌
decode_request-Reads order r w = record {
  at = λ s rest g e.
      let (more, first) = request_front r w in
      rw
        (peek_front s _ (more ++ rest) g (e ∙ ap (λ t. t ++ rest) first)
          (translate_concept-bounds (request_kind r) request).0)
        (rw (convert-translate_concept (request_kind r) request)
          ((decode_request_kind-Reads order r w).at s rest g e));
}

response_front :
    (r : Response)
    → IsResponse r
    → (rest : List Byte) × (response_bytes r ≡ translate_concept (response_kind r) response ∷ rest)
unfolding response_kind response_bytes attach_response_bytes authentication_response_bytes
    error_response_bytes open_or_create_response_bytes read_response_bytes stat_response_bytes
    version_message_bytes walk_response_bytes write_response_bytes
response_front (blank_response h) w = absurd w
response_front (version_response m) w = front m.header _ _ response w.1
response_front (auth_response m) w = front m.header _ _ response w.1
response_front (attach_response m) w = front m.header _ _ response w.1
response_front (error_response m) w = front m.header _ _ response w.1
response_front (flush_response m) w = front_alone m _ response w.1
response_front (walk_response m) w = front m.header _ _ response w.1
response_front (open_response m) w = front m.header _ _ response w.1
response_front (create_response m) w = front m.header _ _ response w.1
response_front (read_response m) w = front m.header _ _ response w.1
response_front (write_response m) w = front m.header _ _ response w.1
response_front (clunk_response m) w = front_alone m _ response w.1
response_front (remove_response m) w = front_alone m _ response w.1
response_front (stat_response m) w = front m.header _ _ response w.1
response_front (wstat_response m) w = front_alone m _ response w.1

pub decode_response-Reads :
    (order : ArgumentOrder) (r : Response)
    → IsResponse r
    → Reads (decode_response order) (response_bytes r) (received_response order r)
unfolding decode_response ◌>>=◌
decode_response-Reads order r w = record {
  at = λ s rest g e.
      let (more, first) = response_front r w in
      rw
        (peek_front s _ (more ++ rest) g (e ∙ ap (λ t. t ++ rest) first)
          (translate_concept-bounds (response_kind r) response).0)
        (rw (convert-translate_concept (response_kind r) response)
          ((decode_response_kind-Reads order r w).at s rest g e));
}

-- An interaction that fits the wire, at the front of a good stream, is taken off whole, and replaces
-- whatever the variant held; the bytes behind it stay. What arrives is the interaction sent, but for
-- its texts and, by the argument order, its 64-bit numbers.
pub decode_interaction-Reads :
    (order : ArgumentOrder) (held x : Interaction)
    → IsInteraction x
    → (s : StringStream) (rest : List Byte) → good s ≡ true
    → s.unread ≡ interaction_bytes x ++ rest
    → decode_interaction order (held, s)
      ≡ (returns tt, (received_interaction order x, advance s (interaction_bytes x) rest))
unfolding decode_interaction interaction_bytes received_interaction
decode_interaction-Reads order held (of_request r) w s rest g e =
    let (more, first) = request_front r w in
    rw
      (peek_front s (translate_concept (request_kind r) request) (more ++ rest) g
        (e ∙ ap (λ t. t ++ rest) first) (translate_concept-bounds (request_kind r) request).0)
      (rw (is_request-translate_concept (request_kind r)).0
        (rw ((decode_request-Reads order r w).at s rest g e)))
decode_interaction-Reads order held (of_response r) w s rest g e =
    let (more, first) = response_front r w in
    rw
      (peek_front s (translate_concept (response_kind r) response) (more ++ rest) g
        (e ∙ ap (λ t. t ++ rest) first) (translate_concept-bounds (response_kind r) response).0)
      (rw (is_request-translate_concept (response_kind r)).1
        (rw ((decode_response-Reads order r w).at s rest g e)))

-- For an interaction that fits the wire, sent into a writable stream whose input is used up:
-- encoding it returns, and decoding what was written returns the interaction as it is received,
-- whatever the variant held before. Both positions are then behind the bytes of the interaction.
pub decode-encode_interaction :
    (order : ArgumentOrder) (held x : Interaction) (s : StringStream)
    → IsInteraction x
    → IsWritable s
    → s.unread ≡ []
    → ((encode_interaction x s).0 ≡ returns tt)
      × (decode_interaction order (held, (encode_interaction x s).1) ≡ (
        returns tt,
        (
          received_interaction order x,
          advance (append s (interaction_bytes x)) (interaction_bytes x) [],
        ),
      ))
decode-encode_interaction order held x s w ws used = rw ((encode_interaction-Writes x w).at s ws) (
  refl,
  decode_interaction-Reads order held x w (append s (interaction_bytes x)) [] ws.is_good whole,
)
  where
    whole : s.unread ++ interaction_bytes x ≡ interaction_bytes x ++ []
    whole = rw (used, append-nil)
