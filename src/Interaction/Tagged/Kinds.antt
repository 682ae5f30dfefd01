-- ===== src/Interaction/Tagged/Kinds.antt =====
-- The cases of the two switches of Interaction.cc leave a message of their own kind, with the operation
-- that stood next on the stream in its header.
use libkzr.Prelude.{◌≡◌, refl, true, false}
use libkzr.Outcome.{illegal_type}
use libkzr.Outcome.Yields.{YieldsAt, Yields-pure, Yields-throw, YieldsAt->>=, YieldsAt-map}
use libkzr.Operations
use libkzr.Operations.{
  ConceptualOperation, Operation, convert, is_request, is_response, request, response, version,
  auth, attach, error, flush, walk, open_, create, read, write, clunk, remove, stat, wstat,
}
use libkzr.Operations.Codes.{is_undefined}
use libkzr.StringStream.{StringStream}
use libkzr.MessageStream.{ArgumentOrder}
use libkzr.Message.Parts.{fresh_header, decode_operation}
use libkzr.Message.Fresh.{
  fresh_attach_request, fresh_attach_response, fresh_authentication_request,
  fresh_authentication_response, fresh_create_request, fresh_error_response, fresh_fid_request,
  fresh_flush_request, fresh_open_or_create_response, fresh_open_request, fresh_read_request,
  fresh_read_response, fresh_stat_response, fresh_version_message, fresh_wstat_request,
  fresh_walk_request, fresh_walk_response, fresh_write_request, fresh_write_response,
}
use libkzr.Message.Operation.{
  decode_attach_request-op, decode_attach_response-op, decode_authentication_request-op,
  decode_authentication_response-op, decode_create_request-op, decode_error_response-op,
  decode_fid_request-op, decode_flush_request-op, decode_header-op,
  decode_open_or_create_response-op, decode_open_request-op, decode_read_request-op,
  decode_read_response-op, decode_stat_response-op, decode_version_message-op,
  decode_walk_request-op, decode_walk_response-op, decode_write_request-op,
  decode_write_response-op, decode_wstat_request-op,
}
use libkzr.Request.{decode_request_kind}
use libkzr.Response.{decode_response_kind}
use libkzr.Interaction.{of_request, of_response}
use libkzr.Interaction.Decode.{request_kind, response_kind}
use libkzr.Interaction.Tagged.{request_header, response_header, IsTagged}

module _ {s : StringStream} {op : Operation}
    (next : YieldsAt s (λ c. c ≡ op) decode_operation) where
  request_kind-op :
      (order : ArgumentOrder) (kind : ConceptualOperation)
      → YieldsAt s
          (λ r.
            ((request_header r).op ≡ op) × (request_kind r ≡ kind) × (is_undefined kind ≡ false))
          (decode_request_kind order kind)
  unfolding decode_request_kind request_header request_kind
  request_kind-op order Operations.undefined = (Yields-throw illegal_type).at s
  request_kind-op order version =
      YieldsAt->>= (decode_version_message-op next (fresh_version_message version request))
        (λ m e. Yields-pure _ (e, refl, refl))
  request_kind-op order auth =
      YieldsAt->>= (decode_authentication_request-op next fresh_authentication_request)
        (λ m e. Yields-pure _ (e, refl, refl))
  request_kind-op order attach =
      YieldsAt->>= (decode_attach_request-op next fresh_attach_request)
        (λ m e. Yields-pure _ (e, refl, refl))
  request_kind-op order error =
      YieldsAt->>= (decode_header-op next (fresh_header error request))
        (λ m e. Yields-pure _ (e, refl, refl))
  request_kind-op order flush =
      YieldsAt->>= (decode_flush_request-op next fresh_flush_request)
        (λ m e. Yields-pure _ (e, refl, refl))
  request_kind-op order walk =
      YieldsAt->>= (decode_walk_request-op next fresh_walk_request)
        (λ m e. Yields-pure _ (e, refl, refl))
  request_kind-op order open_ =
      YieldsAt->>= (decode_open_request-op next fresh_open_request)
        (λ m e. Yields-pure _ (e, refl, refl))
  request_kind-op order create =
      YieldsAt->>= (decode_create_request-op next fresh_create_request)
        (λ m e. Yields-pure _ (e, refl, refl))
  request_kind-op order read =
      YieldsAt->>= (decode_read_request-op next order fresh_read_request)
        (λ m e. Yields-pure _ (e, refl, refl))
  request_kind-op order write =
      YieldsAt->>= (decode_write_request-op next order fresh_write_request)
        (λ m e. Yields-pure _ (e, refl, refl))
  request_kind-op order clunk =
      YieldsAt->>= (decode_fid_request-op next (fresh_fid_request clunk request))
        (λ m e. Yields-pure _ (e, refl, refl))
  request_kind-op order remove =
      YieldsAt->>= (decode_fid_request-op next (fresh_fid_request remove request))
        (λ m e. Yields-pure _ (e, refl, refl))
  request_kind-op order stat =
      YieldsAt->>= (decode_fid_request-op next (fresh_fid_request stat request))
        (λ m e. Yields-pure _ (e, refl, refl))
  request_kind-op order wstat =
      YieldsAt->>= (decode_wstat_request-op next order fresh_wstat_request)
        (λ m e. Yields-pure _ (e, refl, refl))

  response_kind-op :
      (order : ArgumentOrder) (kind : ConceptualOperation)
      → YieldsAt s
          (λ r.
            ((response_header r).op ≡ op) × (response_kind r ≡ kind) × (is_undefined kind ≡ false))
          (decode_response_kind order kind)
  unfolding decode_response_kind response_header response_kind
  response_kind-op order Operations.undefined = (Yields-throw illegal_type).at s
  response_kind-op order version =
      YieldsAt->>= (decode_version_message-op next (fresh_version_message version response))
        (λ m e. Yields-pure _ (e, refl, refl))
  response_kind-op order auth =
      YieldsAt->>= (decode_authentication_response-op next order fresh_authentication_response)
        (λ m e. Yields-pure _ (e, refl, refl))
  response_kind-op order attach =
      YieldsAt->>= (decode_attach_response-op next order fresh_attach_response)
        (λ m e. Yields-pure _ (e, refl, refl))
  response_kind-op order error =
      YieldsAt->>= (decode_error_response-op next fresh_error_response)
        (λ m e. Yields-pure _ (e, refl, refl))
  response_kind-op order flush =
      YieldsAt->>= (decode_header-op next (fresh_header flush response))
        (λ m e. Yields-pure _ (e, refl, refl))
  response_kind-op order walk =
      YieldsAt->>= (decode_walk_response-op next order fresh_walk_response)
        (λ m e. Yields-pure _ (e, refl, refl))
  response_kind-op order open_ =
      YieldsAt->>=
        (decode_open_or_create_response-op next order
          (fresh_open_or_create_response open_ response))
        (λ m e. Yields-pure _ (e, refl, refl))
  response_kind-op order create =
      YieldsAt->>=
        (decode_open_or_create_response-op next order
          (fresh_open_or_create_response create response))
        (λ m e. Yields-pure _ (e, refl, refl))
  response_kind-op order read =
      YieldsAt->>= (decode_read_response-op next fresh_read_response)
        (λ m e. Yields-pure _ (e, refl, refl))
  response_kind-op order write =
      YieldsAt->>= (decode_write_response-op next fresh_write_response)
        (λ m e. Yields-pure _ (e, refl, refl))
  response_kind-op order clunk =
      YieldsAt->>= (decode_header-op next (fresh_header clunk response))
        (λ m e. Yields-pure _ (e, refl, refl))
  response_kind-op order remove =
      YieldsAt->>= (decode_header-op next (fresh_header remove response))
        (λ m e. Yields-pure _ (e, refl, refl))
  response_kind-op order stat =
      YieldsAt->>= (decode_stat_response-op next fresh_stat_response)
        (λ m e. Yields-pure _ (e, refl, refl))
  response_kind-op order wstat =
      YieldsAt->>= (decode_header-op next (fresh_header wstat response))
        (λ m e. Yields-pure _ (e, refl, refl))

  pub request-IsTagged :
      (order : ArgumentOrder)
      → is_request op ≡ true
      → YieldsAt s (λ r. IsTagged (of_request r)) (decode_request_kind order (convert op))
  unfolding IsTagged
  request-IsTagged order parity =
      YieldsAt-map (λ r (e, k, known). (rw e parity, rw (e, k) refl, rw k known))
        (request_kind-op order (convert op))

  pub response-IsTagged :
      (order : ArgumentOrder)
      → is_request op ≡ false
      → YieldsAt s (λ r. IsTagged (of_response r)) (decode_response_kind order (convert op))
  unfolding IsTagged
  response-IsTagged order parity =
      YieldsAt-map (λ r (e, k, known). (rw e parity, rw (e, k) refl, rw k known))
        (response_kind-op order (convert op))
