-- ===== src/Message/Session/Quiet.antt =====
-- No decoder of the messages of Session.antt throws.
use libkzr.Outcome.NeverThrows.{NeverThrows, NeverThrows-pure, NeverThrows->>=}
use libkzr.MessageStream.{ArgumentOrder}
use libkzr.MessageStream.Quiet.{
  decode_u16-NeverThrows, decode_u32-NeverThrows, decode_string-NeverThrows,
}
use libkzr.Message.Session.{
  ErrorResponse, decode_error_response, VersionMessage, decode_version_message,
  AuthenticationRequest, decode_authentication_request, AuthenticationResponse,
  decode_authentication_response, FlushRequest, decode_flush_request, AttachRequest,
  decode_attach_request, AttachResponse, decode_attach_response,
}
use libkzr.Message.Parts.Quiet.{decode_header-NeverThrows, decode_qid-NeverThrows}

pub decode_error_response-NeverThrows : (m : ErrorResponse) → NeverThrows (decode_error_response m)
unfolding decode_error_response
decode_error_response-NeverThrows m =
    NeverThrows->>=
      (λ _. NeverThrows->>= (λ _. NeverThrows-pure _) (decode_string-NeverThrows m.ename))
      (decode_header-NeverThrows m.header)

pub decode_version_message-NeverThrows :
    (m : VersionMessage) → NeverThrows (decode_version_message m)
unfolding decode_version_message
decode_version_message-NeverThrows m =
    NeverThrows->>=
      (λ _.
        NeverThrows->>=
          (λ _. NeverThrows->>= (λ _. NeverThrows-pure _) (decode_string-NeverThrows m.version))
          decode_u16-NeverThrows)
      (decode_header-NeverThrows m.header)

pub decode_authentication_request-NeverThrows :
    (m : AuthenticationRequest) → NeverThrows (decode_authentication_request m)
unfolding decode_authentication_request
decode_authentication_request-NeverThrows m =
    NeverThrows->>=
      (λ _.
        NeverThrows->>=
          (λ _.
            NeverThrows->>=
              (λ _. NeverThrows->>= (λ _. NeverThrows-pure _) (decode_string-NeverThrows m.aname))
              (decode_string-NeverThrows m.uname))
          decode_u32-NeverThrows)
      (decode_header-NeverThrows m.header)

pub decode_authentication_response-NeverThrows :
    (order : ArgumentOrder) (m : AuthenticationResponse)
    → NeverThrows (decode_authentication_response order m)
unfolding decode_authentication_response
decode_authentication_response-NeverThrows order m =
    NeverThrows->>=
      (λ _. NeverThrows->>= (λ _. NeverThrows-pure _) (decode_qid-NeverThrows order m.qid))
      (decode_header-NeverThrows m.header)

pub decode_flush_request-NeverThrows : (m : FlushRequest) → NeverThrows (decode_flush_request m)
unfolding decode_flush_request
decode_flush_request-NeverThrows m =
    NeverThrows->>= (λ _. NeverThrows->>= (λ _. NeverThrows-pure _) decode_u16-NeverThrows)
      (decode_header-NeverThrows m.header)

pub decode_attach_request-NeverThrows : (m : AttachRequest) → NeverThrows (decode_attach_request m)
unfolding decode_attach_request
decode_attach_request-NeverThrows m =
    NeverThrows->>=
      (λ _.
        NeverThrows->>=
          (λ _.
            NeverThrows->>=
              (λ _.
                NeverThrows->>=
                  (λ _.
                    NeverThrows->>= (λ _. NeverThrows-pure _) (decode_string-NeverThrows m.aname))
                  (decode_string-NeverThrows m.uname))
              decode_u32-NeverThrows)
          decode_u32-NeverThrows)
      (decode_header-NeverThrows m.header)

pub decode_attach_response-NeverThrows :
    (order : ArgumentOrder) (m : AttachResponse) → NeverThrows (decode_attach_response order m)
unfolding decode_attach_response
decode_attach_response-NeverThrows order m =
    NeverThrows->>=
      (λ _. NeverThrows->>= (λ _. NeverThrows-pure _) (decode_qid-NeverThrows order m.qid))
      (decode_header-NeverThrows m.header)
