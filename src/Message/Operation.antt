-- ===== src/Message/Operation.antt =====
-- The operation that stands next on the stream becomes the operation of the message that is decoded,
-- whatever the class of the message.
use libkzr.Prelude.{◌≡◌}
use libkzr.Outcome.Yields.{YieldsAt, Yields-pure, Yields->>=, YieldsAt->>=}
use libkzr.Operations.{Operation}
use libkzr.StringStream.{StringStream}
use libkzr.MessageStream.{ArgumentOrder}
use libkzr.Message.Parts.{MessageHeader, decode_operation, decode_header}
use libkzr.Message.Session.{
  ErrorResponse, decode_error_response, VersionMessage, decode_version_message,
  AuthenticationRequest, decode_authentication_request, AuthenticationResponse,
  decode_authentication_response, FlushRequest, decode_flush_request, AttachRequest,
  decode_attach_request, AttachResponse, decode_attach_response,
}
use libkzr.Message.File.{
  WalkRequest, decode_walk_request, WalkResponse, decode_walk_response, OpenRequest,
  decode_open_request, OpenOrCreateResponse, decode_open_or_create_response, CreateRequest,
  decode_create_request, FidRequest, decode_fid_request, ReadRequest, decode_read_request,
  ReadResponse, decode_read_response, WriteRequest, decode_write_request, WriteResponse,
  decode_write_response,
}
use libkzr.Message.Metadata.{StatResponse, decode_stat_response, WStatRequest, decode_wstat_request}

module _ {s : StringStream} {op : Operation}
    (next : YieldsAt s (λ c. c ≡ op) decode_operation) where
  pub decode_header-op : (h : MessageHeader) → YieldsAt s (λ h'. h'.op ≡ op) (decode_header h)
  unfolding decode_header
  decode_header-op h = YieldsAt->>= next (λ c e. Yields->>= _ (λ tag. Yields-pure _ e))

  pub decode_error_response-op :
      (m : ErrorResponse) → YieldsAt s (λ m'. m'.header.op ≡ op) (decode_error_response m)
  unfolding decode_error_response
  decode_error_response-op m =
      YieldsAt->>= (decode_header-op m.header) (λ h e. Yields->>= _ (λ _. Yields-pure _ e))

  pub decode_version_message-op :
      (m : VersionMessage) → YieldsAt s (λ m'. m'.header.op ≡ op) (decode_version_message m)
  unfolding decode_version_message
  decode_version_message-op m =
      YieldsAt->>= (decode_header-op m.header)
        (λ h e. Yields->>= _ (λ _. Yields->>= _ (λ _. Yields-pure _ e)))

  pub decode_authentication_request-op :
      (m : AuthenticationRequest)
      → YieldsAt s (λ m'. m'.header.op ≡ op) (decode_authentication_request m)
  unfolding decode_authentication_request
  decode_authentication_request-op m =
      YieldsAt->>= (decode_header-op m.header)
        (λ h e. Yields->>= _ (λ _. Yields->>= _ (λ _. Yields->>= _ (λ _. Yields-pure _ e))))

  pub decode_authentication_response-op :
      (order : ArgumentOrder) (m : AuthenticationResponse)
      → YieldsAt s (λ m'. m'.header.op ≡ op) (decode_authentication_response order m)
  unfolding decode_authentication_response
  decode_authentication_response-op order m =
      YieldsAt->>= (decode_header-op m.header) (λ h e. Yields->>= _ (λ _. Yields-pure _ e))

  pub decode_flush_request-op :
      (m : FlushRequest) → YieldsAt s (λ m'. m'.header.op ≡ op) (decode_flush_request m)
  unfolding decode_flush_request
  decode_flush_request-op m =
      YieldsAt->>= (decode_header-op m.header) (λ h e. Yields->>= _ (λ _. Yields-pure _ e))

  pub decode_attach_request-op :
      (m : AttachRequest) → YieldsAt s (λ m'. m'.header.op ≡ op) (decode_attach_request m)
  unfolding decode_attach_request
  decode_attach_request-op m = YieldsAt->>= (decode_header-op m.header) (λ h e.
      Yields->>= _
        (λ _. Yields->>= _ (λ _. Yields->>= _ (λ _. Yields->>= _ (λ _. Yields-pure _ e)))))

  pub decode_attach_response-op :
      (order : ArgumentOrder) (m : AttachResponse)
      → YieldsAt s (λ m'. m'.header.op ≡ op) (decode_attach_response order m)
  unfolding decode_attach_response
  decode_attach_response-op order m =
      YieldsAt->>= (decode_header-op m.header) (λ h e. Yields->>= _ (λ _. Yields-pure _ e))

  pub decode_walk_request-op :
      (m : WalkRequest) → YieldsAt s (λ m'. m'.header.op ≡ op) (decode_walk_request m)
  unfolding decode_walk_request
  decode_walk_request-op m =
      YieldsAt->>= (decode_header-op m.header)
        (λ h e. Yields->>= _ (λ _. Yields->>= _ (λ _. Yields->>= _ (λ _. Yields-pure _ e))))

  pub decode_walk_response-op :
      (order : ArgumentOrder) (m : WalkResponse)
      → YieldsAt s (λ m'. m'.header.op ≡ op) (decode_walk_response order m)
  unfolding decode_walk_response
  decode_walk_response-op order m =
      YieldsAt->>= (decode_header-op m.header) (λ h e. Yields->>= _ (λ _. Yields-pure _ e))

  pub decode_open_request-op :
      (m : OpenRequest) → YieldsAt s (λ m'. m'.header.op ≡ op) (decode_open_request m)
  unfolding decode_open_request
  decode_open_request-op m =
      YieldsAt->>= (decode_header-op m.header)
        (λ h e. Yields->>= _ (λ _. Yields->>= _ (λ _. Yields-pure _ e)))

  pub decode_open_or_create_response-op :
      (order : ArgumentOrder) (m : OpenOrCreateResponse)
      → YieldsAt s (λ m'. m'.header.op ≡ op) (decode_open_or_create_response order m)
  unfolding decode_open_or_create_response
  decode_open_or_create_response-op order m =
      YieldsAt->>= (decode_header-op m.header)
        (λ h e. Yields->>= _ (λ _. Yields->>= _ (λ _. Yields-pure _ e)))

  pub decode_create_request-op :
      (m : CreateRequest) → YieldsAt s (λ m'. m'.header.op ≡ op) (decode_create_request m)
  unfolding decode_create_request
  decode_create_request-op m = YieldsAt->>= (decode_header-op m.header) (λ h e.
      Yields->>= _
        (λ _. Yields->>= _ (λ _. Yields->>= _ (λ _. Yields->>= _ (λ _. Yields-pure _ e)))))

  pub decode_fid_request-op :
      (m : FidRequest) → YieldsAt s (λ m'. m'.header.op ≡ op) (decode_fid_request m)
  unfolding decode_fid_request
  decode_fid_request-op m =
      YieldsAt->>= (decode_header-op m.header) (λ h e. Yields->>= _ (λ _. Yields-pure _ e))

  pub decode_read_request-op :
      (order : ArgumentOrder) (m : ReadRequest)
      → YieldsAt s (λ m'. m'.header.op ≡ op) (decode_read_request order m)
  unfolding decode_read_request
  decode_read_request-op order m =
      YieldsAt->>= (decode_header-op m.header)
        (λ h e. Yields->>= _ (λ _. Yields->>= _ (λ _. Yields->>= _ (λ _. Yields-pure _ e))))

  pub decode_read_response-op :
      (m : ReadResponse) → YieldsAt s (λ m'. m'.header.op ≡ op) (decode_read_response m)
  unfolding decode_read_response
  decode_read_response-op m =
      YieldsAt->>= (decode_header-op m.header) (λ h e. Yields->>= _ (λ _. Yields-pure _ e))

  pub decode_write_request-op :
      (order : ArgumentOrder) (m : WriteRequest)
      → YieldsAt s (λ m'. m'.header.op ≡ op) (decode_write_request order m)
  unfolding decode_write_request
  decode_write_request-op order m =
      YieldsAt->>= (decode_header-op m.header)
        (λ h e. Yields->>= _ (λ _. Yields->>= _ (λ _. Yields->>= _ (λ _. Yields-pure _ e))))

  pub decode_write_response-op :
      (m : WriteResponse) → YieldsAt s (λ m'. m'.header.op ≡ op) (decode_write_response m)
  unfolding decode_write_response
  decode_write_response-op m =
      YieldsAt->>= (decode_header-op m.header) (λ h e. Yields->>= _ (λ _. Yields-pure _ e))

  pub decode_stat_response-op :
      (m : StatResponse) → YieldsAt s (λ m'. m'.header.op ≡ op) (decode_stat_response m)
  unfolding decode_stat_response
  decode_stat_response-op m =
      YieldsAt->>= (decode_header-op m.header) (λ h e. Yields->>= _ (λ _. Yields-pure _ e))

  pub decode_wstat_request-op :
      (order : ArgumentOrder) (m : WStatRequest)
      → YieldsAt s (λ m'. m'.header.op ≡ op) (decode_wstat_request order m)
  unfolding decode_wstat_request
  decode_wstat_request-op order m =
      YieldsAt->>= (decode_header-op m.header)
        (λ h e. Yields->>= _ (λ _. Yields->>= _ (λ _. Yields-pure _ e)))
