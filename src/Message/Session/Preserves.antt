-- ===== src/Message/Session/Preserves.antt =====
-- The decoders of the messages of the session: Error, Version, Auth, Flush, Attach change no byte of the stream.
use libkzr.StringStream.Preserves.{Preserves, Preserves-pure, Preserves->>=}
use libkzr.MessageStream.{ArgumentOrder}
use libkzr.MessageStream.Preserves.{
  decode_u16-Preserves, decode_u32-Preserves, decode_string-Preserves,
}
use libkzr.Message.Parts.Preserves.{decode_qid-Preserves, decode_header-Preserves}
use libkzr.Message.Session.{
  ErrorResponse, decode_error_response, VersionMessage, decode_version_message,
  AuthenticationRequest, decode_authentication_request, AuthenticationResponse,
  decode_authentication_response, FlushRequest, decode_flush_request, AttachRequest,
  decode_attach_request, AttachResponse, decode_attach_response,
}

pub decode_error_response-Preserves : (m : ErrorResponse) → Preserves (decode_error_response m)
unfolding decode_error_response
decode_error_response-Preserves m =
    Preserves->>=
      (λ header. Preserves->>= (λ ename. Preserves-pure _) (decode_string-Preserves m.ename))
      (decode_header-Preserves m.header)

pub decode_version_message-Preserves : (m : VersionMessage) → Preserves (decode_version_message m)
unfolding decode_version_message
decode_version_message-Preserves m =
    Preserves->>=
      (λ header.
        Preserves->>=
          (λ msize. Preserves->>= (λ version. Preserves-pure _) (decode_string-Preserves m.version))
          decode_u16-Preserves)
      (decode_header-Preserves m.header)

pub decode_authentication_request-Preserves :
    (m : AuthenticationRequest) → Preserves (decode_authentication_request m)
unfolding decode_authentication_request
decode_authentication_request-Preserves m =
    Preserves->>=
      (λ header.
        Preserves->>=
          (λ afid.
            Preserves->>=
              (λ uname. Preserves->>= (λ aname. Preserves-pure _) (decode_string-Preserves m.aname))
              (decode_string-Preserves m.uname))
          decode_u32-Preserves)
      (decode_header-Preserves m.header)

pub decode_authentication_response-Preserves :
    (order : ArgumentOrder) (m : AuthenticationResponse)
    → Preserves (decode_authentication_response order m)
unfolding decode_authentication_response
decode_authentication_response-Preserves order m =
    Preserves->>=
      (λ header. Preserves->>= (λ qid. Preserves-pure _) (decode_qid-Preserves order m.qid))
      (decode_header-Preserves m.header)

pub decode_flush_request-Preserves : (m : FlushRequest) → Preserves (decode_flush_request m)
unfolding decode_flush_request
decode_flush_request-Preserves m =
    Preserves->>= (λ header. Preserves->>= (λ oldtag. Preserves-pure _) decode_u16-Preserves)
      (decode_header-Preserves m.header)

pub decode_attach_request-Preserves : (m : AttachRequest) → Preserves (decode_attach_request m)
unfolding decode_attach_request
decode_attach_request-Preserves m =
    Preserves->>=
      (λ header.
        Preserves->>=
          (λ fid.
            Preserves->>=
              (λ afid.
                Preserves->>=
                  (λ uname.
                    Preserves->>= (λ aname. Preserves-pure _) (decode_string-Preserves m.aname))
                  (decode_string-Preserves m.uname))
              decode_u32-Preserves)
          decode_u32-Preserves)
      (decode_header-Preserves m.header)

pub decode_attach_response-Preserves :
    (order : ArgumentOrder) (m : AttachResponse) → Preserves (decode_attach_response order m)
unfolding decode_attach_response
decode_attach_response-Preserves order m =
    Preserves->>=
      (λ header. Preserves->>= (λ qid. Preserves-pure _) (decode_qid-Preserves order m.qid))
      (decode_header-Preserves m.header)
