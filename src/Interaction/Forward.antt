-- ===== src/Interaction/Forward.antt =====
-- A message that was decoded can be sent on.
use libkzr.Prelude.{
  ◌≡◌, ◌≢◌, ◌<◌, ◌^◌, sym, ap, Bool, true, false, Option, none, some, if◌then◌else◌,
}
use libkzr.Outcome.{Outcome, returns, throws, undefined}
use libkzr.Operations
use libkzr.Operations.{
  ConceptualOperation, Operation, MessageDirection, convert, is_request, translate_concept, request,
  response, version, auth, attach, error, flush, walk, open_, create, read, write, clunk, remove,
  stat, wstat,
}
use libkzr.Operations.Codes.{is_undefined, direction, translate_concept-convert}
use libkzr.StringStream.{StringStream}
use libkzr.StringStream.Frame.{IsWritable, append}
use libkzr.StringStream.Bounded.{AreBytes}
use libkzr.MessageStream
use libkzr.MessageStream.{ArgumentOrder}
use libkzr.MessageStream.Bounded.{peek_message-Bounded}
use libkzr.Request.{
  Request, blank_request, fresh_request, decode_request, version_request, auth_request,
  attach_request, error_request, flush_request, walk_request, open_request, create_request,
  read_request, write_request, clunk_request, remove_request, stat_request, wstat_request,
}
use libkzr.Response.{
  Response, blank_response, fresh_response, decode_response, version_response, auth_response,
  attach_response, error_response, flush_response, walk_response, open_response, create_response,
  read_response, write_response, clunk_response, remove_response, stat_response, wstat_response,
}
use libkzr.Interaction.{
  Interaction, of_request, of_response, emplace, decode_interaction_after, encode_interaction,
  decode_interaction,
}
use libkzr.Interaction.Wire.{IsRequest, IsResponse, IsInteraction, interaction_bytes}
use libkzr.Interaction.Encode.{encode_interaction_bytes}
use libkzr.Interaction.Decode.{request_kind, response_kind}
use libkzr.Interaction.Tagged.{IsTagged, request_header, response_header}
use libkzr.Interaction.Tagged.Decode.{emplaced-Holds, decode_interaction-IsTagged}
use libkzr.Interaction.Bounded.{
  RequestFits, ResponseFits, decode_request-Bounded, decode_response-Bounded,
}

known : (kind : ConceptualOperation) → is_undefined kind ≡ false → kind ≢ Operations.undefined
known kind k e = cc (ap is_undefined e)

-- A byte with the parity of a direction that converts to a known kind is the code of that kind.
own_code :
    (op : Operation) (kind : ConceptualOperation)
    → op < 2 ^ 8
    → convert op ≡ kind
    → is_undefined kind ≡ false
    → translate_concept kind (direction op) ≡ op
own_code op kind h e k = rw e at (translate_concept-convert op h (known (convert op) (rw e k)))

request_code :
    (op : Operation) (kind : ConceptualOperation)
    → op < 2 ^ 8
    → (is_request op ≡ true) × (convert op ≡ kind) × (is_undefined kind ≡ false)
    → op ≡ translate_concept kind request
unfolding direction
request_code op kind h (parity, e, k) = sym (rw parity at (own_code op kind h e k))

request-IsRequest : (r : Request) → RequestFits r → IsTagged (of_request r) → IsRequest r
unfolding IsTagged RequestFits request_header request_kind
request-IsRequest (blank_request h) f t = absurd f
request-IsRequest (version_request m) f t =
    (f, request_code m.header.op version f.header_fits.op_fits t)
request-IsRequest (auth_request m) f t = (f, request_code m.header.op auth f.header_fits.op_fits t)
request-IsRequest (attach_request m) f t =
    (f, request_code m.header.op attach f.header_fits.op_fits t)
request-IsRequest (error_request m) f t = (f, request_code m.op error f.op_fits t)
request-IsRequest (flush_request m) f t =
    (f, request_code m.header.op flush f.header_fits.op_fits t)
request-IsRequest (walk_request m) f t = (f, request_code m.header.op walk f.header_fits.op_fits t)
request-IsRequest (open_request m) f t = (f, request_code m.header.op open_ f.header_fits.op_fits t)
request-IsRequest (create_request m) f t =
    (f, request_code m.header.op create f.header_fits.op_fits t)
request-IsRequest (read_request m) f t = (f, request_code m.header.op read f.header_fits.op_fits t)
request-IsRequest (write_request m) f t =
    (f, request_code m.header.op write f.header_fits.op_fits t)
request-IsRequest (clunk_request m) f t =
    (f, request_code m.header.op clunk f.header_fits.op_fits t)
request-IsRequest (remove_request m) f t =
    (f, request_code m.header.op remove f.header_fits.op_fits t)
request-IsRequest (stat_request m) f t = (f, request_code m.header.op stat f.header_fits.op_fits t)
request-IsRequest (wstat_request m) f t =
    (f, request_code m.header.op wstat f.header_fits.op_fits t)

response_code :
    (op : Operation) (kind : ConceptualOperation)
    → op < 2 ^ 8
    → (is_request op ≡ false) × (convert op ≡ kind) × (is_undefined kind ≡ false)
    → op ≡ translate_concept kind response
unfolding direction
response_code op kind h (parity, e, k) = sym (rw parity at (own_code op kind h e k))

response-IsResponse : (r : Response) → ResponseFits r → IsTagged (of_response r) → IsResponse r
unfolding IsTagged ResponseFits response_header response_kind
response-IsResponse (blank_response h) f t = absurd f
response-IsResponse (version_response m) f t =
    (f, response_code m.header.op version f.header_fits.op_fits t)
response-IsResponse (auth_response m) f t =
    (f, response_code m.header.op auth f.header_fits.op_fits t)
response-IsResponse (attach_response m) f t =
    (f, response_code m.header.op attach f.header_fits.op_fits t)
response-IsResponse (error_response m) f t =
    (f, response_code m.header.op error f.header_fits.op_fits t)
response-IsResponse (flush_response m) f t = (f, response_code m.op flush f.op_fits t)
response-IsResponse (walk_response m) f t =
    (f, response_code m.header.op walk f.header_fits.op_fits t)
response-IsResponse (open_response m) f t =
    (f, response_code m.header.op open_ f.header_fits.op_fits t)
response-IsResponse (create_response m) f t =
    (f, response_code m.header.op create f.header_fits.op_fits t)
response-IsResponse (read_response m) f t =
    (f, response_code m.header.op read f.header_fits.op_fits t)
response-IsResponse (write_response m) f t =
    (f, response_code m.header.op write f.header_fits.op_fits t)
response-IsResponse (clunk_response m) f t = (f, response_code m.op clunk f.op_fits t)
response-IsResponse (remove_response m) f t = (f, response_code m.op remove f.op_fits t)
response-IsResponse (stat_response m) f t =
    (f, response_code m.header.op stat f.header_fits.op_fits t)
response-IsResponse (wstat_response m) f t = (f, response_code m.op wstat f.op_fits t)

-- The members of what a variant holds fit the wire.
abbrev InteractionFits : Interaction → Type 0
InteractionFits (of_request r) = RequestFits r
InteractionFits (of_response r) = ResponseFits r

module _ (order : ArgumentOrder) (held : Interaction) where
  variant-InteractionFits :
      (b : Bool) (s : StringStream)
      → AreBytes s.unread
      → (if b
          then emplace of_request fresh_request (decode_request order s)
          else emplace of_response fresh_response (decode_response order s)).0
        ≡ returns tt
      → InteractionFits
          (if b
            then emplace of_request fresh_request (decode_request order s)
            else emplace of_response fresh_response (decode_response order s)).1.0
  variant-InteractionFits true s b p =
      emplaced-Holds InteractionFits of_request fresh_request (decode_request order s)
        ((decode_request-Bounded order).at s b).1 p
  variant-InteractionFits false s b p =
      emplaced-Holds InteractionFits of_response fresh_response (decode_response order s)
        ((decode_response-Bounded order).at s b).1 p

  after-InteractionFits :
      (r : Outcome (Option Operation) × StringStream)
      → AreBytes r.1.unread
      → (decode_interaction_after order held r).0 ≡ returns tt
      → InteractionFits (decode_interaction_after order held r).1.0
  unfolding decode_interaction_after
  after-InteractionFits (returns none, s) b p = absurd (cc p)
  after-InteractionFits (returns (some op), s) b p = variant-InteractionFits (is_request op) s b p
  after-InteractionFits (throws e, s) b p = absurd (cc p)
  after-InteractionFits (undefined, s) b p = absurd (cc p)

fits-IsInteraction : (x : Interaction) → InteractionFits x → IsTagged x → IsInteraction x
fits-IsInteraction (of_request r) f t = request-IsRequest r f t
fits-IsInteraction (of_response r) f t = response-IsResponse r f t

decode_interaction-IsInteraction :
    (order : ArgumentOrder) (held : Interaction) (s : StringStream)
    → AreBytes s.unread
    → (decode_interaction order (held, s)).0 ≡ returns tt
    → IsInteraction (decode_interaction order (held, s)).1.0
unfolding decode_interaction
decode_interaction-IsInteraction order held s b p =
    fits-IsInteraction (decode_interaction order (held, s)).1.0
      (after-InteractionFits order held (MessageStream.peek s) (peek_message-Bounded.at s b).0 p)
      (decode_interaction-IsTagged order held s p)

-- If decoding an interaction returns, from a stream whose unread part are bytes and into whatever
-- variant, what it holds then fits the wire; encoding it onto a writable stream returns, and appends
-- exactly its bytes.
pub encode-decode_interaction :
    (order : ArgumentOrder) (held : Interaction) (s t : StringStream)
    → AreBytes s.unread
    → (decode_interaction order (held, s)).0 ≡ returns tt
    → IsWritable t
    → IsInteraction (decode_interaction order (held, s)).1.0
      × (encode_interaction (decode_interaction order (held, s)).1.0 t
          ≡ (returns tt, append t (interaction_bytes (decode_interaction order (held, s)).1.0)))
encode-decode_interaction order held s t b p w =
    let fits = decode_interaction-IsInteraction order held s b p in
    (fits, encode_interaction_bytes (decode_interaction order (held, s)).1.0 t fits w)
