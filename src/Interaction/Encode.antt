-- ===== src/Interaction/Encode.antt =====
-- The encoders of Interaction.cc write the bytes of the message in the variant.
use libkzr.Prelude.{◌≡◌, refl}
use libkzr.StringStream.{StringStream}
use libkzr.Outcome.{returns, throws, undefined_request, undefined_response}
use libkzr.StringStream.Frame.{Writes, IsWritable, append}
use libkzr.Message.Parts.{MessageHeader}
use libkzr.Message.Parts.Codec.{encode_header-Writes}
use libkzr.Message.Session.Codec.{
  encode_error_response-Writes, encode_version_message-Writes, encode_authentication_request-Writes,
  encode_authentication_response-Writes, encode_flush_request-Writes, encode_attach_request-Writes,
  encode_attach_response-Writes,
}
use libkzr.Message.File.Codec.{
  encode_walk_request-Writes, encode_walk_response-Writes, encode_open_request-Writes,
  encode_open_or_create_response-Writes, encode_create_request-Writes, encode_fid_request-Writes,
  encode_read_request-Writes, encode_read_response-Writes, encode_write_request-Writes,
  encode_write_response-Writes,
}
use libkzr.Message.Metadata.Codec.{encode_stat_response-Writes, encode_wstat_request-Writes}
use libkzr.Request.{
  Request, blank_request, encode_request, version_request, auth_request, attach_request,
  error_request, flush_request, walk_request, open_request, create_request, read_request,
  write_request, clunk_request, remove_request, stat_request, wstat_request,
}
use libkzr.Response.{
  Response, blank_response, encode_response, version_response, auth_response, attach_response,
  error_response, flush_response, walk_response, open_response, create_response, read_response,
  write_response, clunk_response, remove_response, stat_response, wstat_response,
}
use libkzr.Interaction.{Interaction, of_request, of_response, encode_interaction}
use libkzr.Interaction.Wire.{
  IsRequest, IsResponse, IsInteraction, request_bytes, response_bytes, interaction_bytes,
}

pub encode_request-Writes :
    (r : Request) → IsRequest r → Writes (encode_request r) (request_bytes r)
unfolding encode_request request_bytes
encode_request-Writes (blank_request h) w = absurd w
encode_request-Writes (version_request m) w = encode_version_message-Writes m w.0
encode_request-Writes (auth_request m) w = encode_authentication_request-Writes m w.0
encode_request-Writes (attach_request m) w = encode_attach_request-Writes m w.0
encode_request-Writes (error_request m) w = encode_header-Writes m
encode_request-Writes (flush_request m) w = encode_flush_request-Writes m w.0
encode_request-Writes (walk_request m) w = encode_walk_request-Writes m w.0
encode_request-Writes (open_request m) w = encode_open_request-Writes m w.0
encode_request-Writes (create_request m) w = encode_create_request-Writes m w.0
encode_request-Writes (read_request m) w = encode_read_request-Writes m w.0
encode_request-Writes (write_request m) w = encode_write_request-Writes m w.0
encode_request-Writes (clunk_request m) w = encode_fid_request-Writes m w.0
encode_request-Writes (remove_request m) w = encode_fid_request-Writes m w.0
encode_request-Writes (stat_request m) w = encode_fid_request-Writes m w.0
encode_request-Writes (wstat_request m) w = encode_wstat_request-Writes m w.0

pub encode_response-Writes :
    (r : Response) → IsResponse r → Writes (encode_response r) (response_bytes r)
unfolding encode_response response_bytes
encode_response-Writes (blank_response h) w = absurd w
encode_response-Writes (version_response m) w = encode_version_message-Writes m w.0
encode_response-Writes (auth_response m) w = encode_authentication_response-Writes m w.0
encode_response-Writes (attach_response m) w = encode_attach_response-Writes m w.0
encode_response-Writes (error_response m) w = encode_error_response-Writes m w.0
encode_response-Writes (flush_response m) w = encode_header-Writes m
encode_response-Writes (walk_response m) w = encode_walk_response-Writes m w.0
encode_response-Writes (open_response m) w = encode_open_or_create_response-Writes m w.0
encode_response-Writes (create_response m) w = encode_open_or_create_response-Writes m w.0
encode_response-Writes (read_response m) w = encode_read_response-Writes m w.0
encode_response-Writes (write_response m) w = encode_write_response-Writes m w.0
encode_response-Writes (clunk_response m) w = encode_header-Writes m
encode_response-Writes (remove_response m) w = encode_header-Writes m
encode_response-Writes (stat_response m) w = encode_stat_response-Writes m w.0
encode_response-Writes (wstat_response m) w = encode_header-Writes m

pub encode_interaction-Writes :
    (x : Interaction) → IsInteraction x → Writes (encode_interaction x) (interaction_bytes x)
unfolding encode_interaction interaction_bytes
encode_interaction-Writes (of_response r) w = encode_response-Writes r w
encode_interaction-Writes (of_request r) w = encode_request-Writes r w

-- On a writable stream, encoding an interaction that fits the wire returns, and appends exactly the
-- bytes of the interaction; what the stream held stays in front of them.
pub encode_interaction_bytes :
    (x : Interaction) (s : StringStream)
    → IsInteraction x
    → IsWritable s
    → encode_interaction x s ≡ (returns tt, append s (interaction_bytes x))
encode_interaction_bytes x s w ws = (encode_interaction-Writes x w).at s ws

-- A variant that was never given a message throws, and writes nothing.
pub encode_interaction_blank :
    (h : MessageHeader) (s : StringStream)
    → (encode_interaction (of_request (blank_request h)) s ≡ (throws undefined_request, s))
      × (encode_interaction (of_response (blank_response h)) s ≡ (throws undefined_response, s))
unfolding encode_interaction encode_request encode_response
encode_interaction_blank h s = (refl, refl)
