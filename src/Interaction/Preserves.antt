-- ===== src/Interaction/Preserves.antt =====
-- Decoding a message of any kind changes no byte of the stream, whatever the stream holds and however
-- the decoding ends.
use libkzr.Prelude.{Bool, true, false, Option, none, some, if◌then◌else◌, ◌≡◌, refl}
use libkzr.Outcome.{Outcome, returns, throws, undefined, illegal_type, bad_state}
use libkzr.Operations
use libkzr.Operations.{
  ConceptualOperation, Operation, convert, is_request, request, response, version, auth, attach,
  error, flush, walk, open_, create, read, write, clunk, remove, stat, wstat,
}
use libkzr.StringStream.{StringStream}
use libkzr.StringStream.Preserves.{
  Preserves, SameBytes, SameBytes-trans, Preserves-pure, Preserves-throw, Preserves->>=,
}
use libkzr.MessageStream
use libkzr.MessageStream.{ArgumentOrder}
use libkzr.MessageStream.Preserves.{peek_message-Preserves}
use libkzr.Message.Parts.{fresh_header}
use libkzr.Message.Parts.Preserves.{decode_header-Preserves}
use libkzr.Message.Fresh.{
  fresh_attach_request, fresh_attach_response, fresh_authentication_request,
  fresh_authentication_response, fresh_create_request, fresh_error_response, fresh_fid_request,
  fresh_flush_request, fresh_open_or_create_response, fresh_open_request, fresh_read_request,
  fresh_read_response, fresh_stat_response, fresh_version_message, fresh_wstat_request,
  fresh_walk_request, fresh_walk_response, fresh_write_request, fresh_write_response,
}
use libkzr.Message.Session.Preserves.{
  decode_error_response-Preserves, decode_version_message-Preserves,
  decode_authentication_request-Preserves, decode_authentication_response-Preserves,
  decode_flush_request-Preserves, decode_attach_request-Preserves, decode_attach_response-Preserves,
}
use libkzr.Message.File.Preserves.{
  decode_walk_request-Preserves, decode_walk_response-Preserves, decode_open_request-Preserves,
  decode_open_or_create_response-Preserves, decode_create_request-Preserves,
  decode_fid_request-Preserves, decode_read_request-Preserves, decode_read_response-Preserves,
  decode_write_request-Preserves, decode_write_response-Preserves,
}
use libkzr.Message.Metadata.Preserves.{
  decode_stat_response-Preserves, decode_wstat_request-Preserves,
}
use libkzr.Request.{fresh_request, decode_request_kind, decode_request_after, decode_request}
use libkzr.Response.{fresh_response, decode_response_kind, decode_response_after, decode_response}
use libkzr.Interaction.{
  Interaction, of_request, of_response, emplace, decode_interaction_after, decode_interaction,
}

request_kind-Preserves :
    (order : ArgumentOrder) (op : ConceptualOperation) → Preserves (decode_request_kind order op)
unfolding decode_request_kind
request_kind-Preserves order Operations.undefined = Preserves-throw illegal_type
request_kind-Preserves order version =
    Preserves->>= (λ m. Preserves-pure _)
      (decode_version_message-Preserves (fresh_version_message version request))
request_kind-Preserves order auth =
    Preserves->>= (λ m. Preserves-pure _)
      (decode_authentication_request-Preserves fresh_authentication_request)
request_kind-Preserves order attach =
    Preserves->>= (λ m. Preserves-pure _) (decode_attach_request-Preserves fresh_attach_request)
request_kind-Preserves order error =
    Preserves->>= (λ m. Preserves-pure _) (decode_header-Preserves (fresh_header error request))
request_kind-Preserves order flush =
    Preserves->>= (λ m. Preserves-pure _) (decode_flush_request-Preserves fresh_flush_request)
request_kind-Preserves order walk =
    Preserves->>= (λ m. Preserves-pure _) (decode_walk_request-Preserves fresh_walk_request)
request_kind-Preserves order open_ =
    Preserves->>= (λ m. Preserves-pure _) (decode_open_request-Preserves fresh_open_request)
request_kind-Preserves order create =
    Preserves->>= (λ m. Preserves-pure _) (decode_create_request-Preserves fresh_create_request)
request_kind-Preserves order read =
    Preserves->>= (λ m. Preserves-pure _) (decode_read_request-Preserves order fresh_read_request)
request_kind-Preserves order write =
    Preserves->>= (λ m. Preserves-pure _) (decode_write_request-Preserves order fresh_write_request)
request_kind-Preserves order clunk =
    Preserves->>= (λ m. Preserves-pure _)
      (decode_fid_request-Preserves (fresh_fid_request clunk request))
request_kind-Preserves order remove =
    Preserves->>= (λ m. Preserves-pure _)
      (decode_fid_request-Preserves (fresh_fid_request remove request))
request_kind-Preserves order stat =
    Preserves->>= (λ m. Preserves-pure _)
      (decode_fid_request-Preserves (fresh_fid_request stat request))
request_kind-Preserves order wstat =
    Preserves->>= (λ m. Preserves-pure _) (decode_wstat_request-Preserves order fresh_wstat_request)

request_after-Preserves :
    (order : ArgumentOrder) (op : Option Operation) → Preserves (decode_request_after order op)
unfolding decode_request_after
request_after-Preserves order none = Preserves-throw bad_state
request_after-Preserves order (some op) = request_kind-Preserves order (convert op)

pub decode_request-Preserves : (order : ArgumentOrder) → Preserves (decode_request order)
unfolding decode_request
decode_request-Preserves order =
    Preserves->>= (request_after-Preserves order) peek_message-Preserves

response_kind-Preserves :
    (order : ArgumentOrder) (op : ConceptualOperation) → Preserves (decode_response_kind order op)
unfolding decode_response_kind
response_kind-Preserves order Operations.undefined = Preserves-throw illegal_type
response_kind-Preserves order version =
    Preserves->>= (λ m. Preserves-pure _)
      (decode_version_message-Preserves (fresh_version_message version response))
response_kind-Preserves order auth =
    Preserves->>= (λ m. Preserves-pure _)
      (decode_authentication_response-Preserves order fresh_authentication_response)
response_kind-Preserves order attach =
    Preserves->>= (λ m. Preserves-pure _)
      (decode_attach_response-Preserves order fresh_attach_response)
response_kind-Preserves order error =
    Preserves->>= (λ m. Preserves-pure _) (decode_error_response-Preserves fresh_error_response)
response_kind-Preserves order flush =
    Preserves->>= (λ m. Preserves-pure _) (decode_header-Preserves (fresh_header flush response))
response_kind-Preserves order walk =
    Preserves->>= (λ m. Preserves-pure _) (decode_walk_response-Preserves order fresh_walk_response)
response_kind-Preserves order open_ =
    Preserves->>= (λ m. Preserves-pure _)
      (decode_open_or_create_response-Preserves order
        (fresh_open_or_create_response open_ response))
response_kind-Preserves order create =
    Preserves->>= (λ m. Preserves-pure _)
      (decode_open_or_create_response-Preserves order
        (fresh_open_or_create_response create response))
response_kind-Preserves order read =
    Preserves->>= (λ m. Preserves-pure _) (decode_read_response-Preserves fresh_read_response)
response_kind-Preserves order write =
    Preserves->>= (λ m. Preserves-pure _) (decode_write_response-Preserves fresh_write_response)
response_kind-Preserves order clunk =
    Preserves->>= (λ m. Preserves-pure _) (decode_header-Preserves (fresh_header clunk response))
response_kind-Preserves order remove =
    Preserves->>= (λ m. Preserves-pure _) (decode_header-Preserves (fresh_header remove response))
response_kind-Preserves order stat =
    Preserves->>= (λ m. Preserves-pure _) (decode_stat_response-Preserves fresh_stat_response)
response_kind-Preserves order wstat =
    Preserves->>= (λ m. Preserves-pure _) (decode_header-Preserves (fresh_header wstat response))

response_after-Preserves :
    (order : ArgumentOrder) (op : Option Operation) → Preserves (decode_response_after order op)
unfolding decode_response_after
response_after-Preserves order none = Preserves-throw bad_state
response_after-Preserves order (some op) = response_kind-Preserves order (convert op)

pub decode_response-Preserves : (order : ArgumentOrder) → Preserves (decode_response order)
unfolding decode_response
decode_response-Preserves order =
    Preserves->>= (response_after-Preserves order) peek_message-Preserves

emplace_stream :
    {A : Type 0} (wrap : A → Interaction) (fresh : A) (r : Outcome A × StringStream)
    → (emplace wrap fresh r).1.1 ≡ r.1
unfolding emplace
emplace_stream wrap fresh (returns a, s) = refl
emplace_stream wrap fresh (throws e, s) = refl
emplace_stream wrap fresh (undefined, s) = refl

module _ (order : ArgumentOrder) (held : Interaction) (start : StringStream) where
  variant_SameBytes :
      (b : Bool) (s : StringStream)
      → SameBytes start s
      → SameBytes start
          (if b
            then emplace of_request fresh_request (decode_request order s)
            else emplace of_response fresh_response (decode_response order s)).1.1
  variant_SameBytes true s h =
      rw (emplace_stream of_request fresh_request (decode_request order s))
        (SameBytes-trans h ((decode_request-Preserves order).at s))
  variant_SameBytes false s h =
      rw (emplace_stream of_response fresh_response (decode_response order s))
        (SameBytes-trans h ((decode_response-Preserves order).at s))

  after_SameBytes :
      (r : Outcome (Option Operation) × StringStream)
      → SameBytes start r.1
      → SameBytes start (decode_interaction_after order held r).1.1
  unfolding decode_interaction_after
  after_SameBytes (returns none, s) h = h
  after_SameBytes (returns (some op), s) h = variant_SameBytes (is_request op) s h
  after_SameBytes (throws e, s) h = h
  after_SameBytes (undefined, s) h = h

-- On every stream, decoding an interaction leaves the bytes of the buffer and the put position as they
-- were, whether it returns, throws or is undefined.
pub decode_interaction-SameBytes :
    (order : ArgumentOrder) (held : Interaction) (s : StringStream)
    → SameBytes s (decode_interaction order (held, s)).1.1
unfolding decode_interaction
decode_interaction-SameBytes order held s =
    after_SameBytes order held s (MessageStream.peek s) (peek_message-Preserves.at s)
