-- ===== src/Message/Session/Codec.antt =====
-- Each encoder writes the bytes of its message, and each decoder reads them back: the messages of the session: Error, Version, Auth, Flush, Attach.
use libkzr.StringStream.Frame.{Writes, Reads, Writes->>, Reads->>=, Reads-pure}
use libkzr.MessageStream.{ArgumentOrder}
use libkzr.MessageStream.Encode.{encode_u16-Writes, encode_u32-Writes, encode_string-Writes}
use libkzr.MessageStream.Decode.{decode_u16-Reads, decode_u32-Reads, decode_string-Reads}
use libkzr.Message.Parts.Codec.{
  encode_header-Writes, decode_header-Reads, encode_qid-Writes, decode_qid-Reads,
}
use libkzr.Message.Session.{
  ErrorResponse, encode_error_response, decode_error_response, VersionMessage,
  encode_version_message, decode_version_message, AuthenticationRequest,
  encode_authentication_request, decode_authentication_request, AuthenticationResponse,
  encode_authentication_response, decode_authentication_response, FlushRequest,
  encode_flush_request, decode_flush_request, AttachRequest, encode_attach_request,
  decode_attach_request, AttachResponse, encode_attach_response, decode_attach_response,
}
use libkzr.Message.Session.Wire.{
  IsErrorResponse, error_response_bytes, received_error_response, IsVersionMessage,
  version_message_bytes, received_version_message, IsAuthenticationRequest,
  authentication_request_bytes, received_authentication_request, IsAuthenticationResponse,
  authentication_response_bytes, received_authentication_response, IsFlushRequest,
  flush_request_bytes, IsAttachRequest, attach_request_bytes, received_attach_request,
  IsAttachResponse, attach_response_bytes, received_attach_response,
}

pub encode_error_response-Writes :
    (m : ErrorResponse)
    → IsErrorResponse m
    → Writes (encode_error_response m) (error_response_bytes m)
unfolding encode_error_response error_response_bytes
encode_error_response-Writes m w =
    Writes->> (encode_header-Writes m.header) (encode_string-Writes m.ename w.ename_fits.1)

pub decode_error_response-Reads :
    (target m : ErrorResponse)
    → IsErrorResponse m
    → Reads
        (decode_error_response target)
        (error_response_bytes m)
        (received_error_response target m)
unfolding decode_error_response error_response_bytes received_error_response
decode_error_response-Reads target m w =
    Reads->>= _ (decode_header-Reads target.header m.header w.header_fits)
      (Reads-pure _ (decode_string-Reads target.ename m.ename w.ename_fits))

pub encode_version_message-Writes :
    (m : VersionMessage)
    → IsVersionMessage m
    → Writes (encode_version_message m) (version_message_bytes m)
unfolding encode_version_message version_message_bytes
encode_version_message-Writes m w =
    Writes->> (encode_header-Writes m.header)
      (Writes->> (encode_u16-Writes m.msize) (encode_string-Writes m.version w.version_fits.1))

pub decode_version_message-Reads :
    (target m : VersionMessage)
    → IsVersionMessage m
    → Reads
        (decode_version_message target)
        (version_message_bytes m)
        (received_version_message target m)
unfolding decode_version_message version_message_bytes received_version_message
decode_version_message-Reads target m w =
    Reads->>= _ (decode_header-Reads target.header m.header w.header_fits) (
      Reads->>= _ (decode_u16-Reads m.msize w.msize_fits)
        (Reads-pure _ (decode_string-Reads target.version m.version w.version_fits)))

pub encode_authentication_request-Writes :
    (m : AuthenticationRequest)
    → IsAuthenticationRequest m
    → Writes (encode_authentication_request m) (authentication_request_bytes m)
unfolding encode_authentication_request authentication_request_bytes
encode_authentication_request-Writes m w = Writes->> (encode_header-Writes m.header) (
    Writes->> (encode_u32-Writes m.afid) (
      Writes->> (encode_string-Writes m.uname w.uname_fits.1)
        (encode_string-Writes m.aname w.aname_fits.1)))

pub decode_authentication_request-Reads :
    (target m : AuthenticationRequest)
    → IsAuthenticationRequest m
    → Reads
        (decode_authentication_request target)
        (authentication_request_bytes m)
        (received_authentication_request target m)
unfolding decode_authentication_request authentication_request_bytes received_authentication_request
decode_authentication_request-Reads target m w =
    Reads->>= _ (decode_header-Reads target.header m.header w.header_fits) (
      Reads->>= _ (decode_u32-Reads m.afid w.afid_fits) (
        Reads->>= _ (decode_string-Reads target.uname m.uname w.uname_fits)
          (Reads-pure _ (decode_string-Reads target.aname m.aname w.aname_fits))))

pub encode_authentication_response-Writes :
    (m : AuthenticationResponse)
    → IsAuthenticationResponse m
    → Writes (encode_authentication_response m) (authentication_response_bytes m)
unfolding encode_authentication_response authentication_response_bytes
encode_authentication_response-Writes m w =
    Writes->> (encode_header-Writes m.header) (encode_qid-Writes m.qid)

pub decode_authentication_response-Reads :
    (order : ArgumentOrder) (target m : AuthenticationResponse)
    → IsAuthenticationResponse m
    → Reads
        (decode_authentication_response order target)
        (authentication_response_bytes m)
        (received_authentication_response order m)
unfolding decode_authentication_response authentication_response_bytes
    received_authentication_response
decode_authentication_response-Reads order target m w =
    Reads->>= _ (decode_header-Reads target.header m.header w.header_fits)
      (Reads-pure _ (decode_qid-Reads order target.qid m.qid w.qid_fits))

pub encode_flush_request-Writes :
    (m : FlushRequest) → IsFlushRequest m → Writes (encode_flush_request m) (flush_request_bytes m)
unfolding encode_flush_request flush_request_bytes
encode_flush_request-Writes m w =
    Writes->> (encode_header-Writes m.header) (encode_u16-Writes m.oldtag)

pub decode_flush_request-Reads :
    (target m : FlushRequest)
    → IsFlushRequest m
    → Reads (decode_flush_request target) (flush_request_bytes m) m
unfolding decode_flush_request flush_request_bytes
decode_flush_request-Reads target m w =
    Reads->>= _ (decode_header-Reads target.header m.header w.header_fits)
      (Reads-pure _ (decode_u16-Reads m.oldtag w.oldtag_fits))

pub encode_attach_request-Writes :
    (m : AttachRequest)
    → IsAttachRequest m
    → Writes (encode_attach_request m) (attach_request_bytes m)
unfolding encode_attach_request attach_request_bytes
encode_attach_request-Writes m w = Writes->> (encode_header-Writes m.header) (
    Writes->> (encode_u32-Writes m.fid) (
      Writes->> (encode_u32-Writes m.afid) (
        Writes->> (encode_string-Writes m.uname w.uname_fits.1)
          (encode_string-Writes m.aname w.aname_fits.1))))

pub decode_attach_request-Reads :
    (target m : AttachRequest)
    → IsAttachRequest m
    → Reads
        (decode_attach_request target)
        (attach_request_bytes m)
        (received_attach_request target m)
unfolding decode_attach_request attach_request_bytes received_attach_request
decode_attach_request-Reads target m w =
    Reads->>= _ (decode_header-Reads target.header m.header w.header_fits) (
      Reads->>= _ (decode_u32-Reads m.fid w.fid_fits) (
        Reads->>= _ (decode_u32-Reads m.afid w.afid_fits) (
          Reads->>= _ (decode_string-Reads target.uname m.uname w.uname_fits)
            (Reads-pure _ (decode_string-Reads target.aname m.aname w.aname_fits)))))

pub encode_attach_response-Writes :
    (m : AttachResponse)
    → IsAttachResponse m
    → Writes (encode_attach_response m) (attach_response_bytes m)
unfolding encode_attach_response attach_response_bytes
encode_attach_response-Writes m w =
    Writes->> (encode_header-Writes m.header) (encode_qid-Writes m.qid)

pub decode_attach_response-Reads :
    (order : ArgumentOrder) (target m : AttachResponse)
    → IsAttachResponse m
    → Reads
        (decode_attach_response order target)
        (attach_response_bytes m)
        (received_attach_response order m)
unfolding decode_attach_response attach_response_bytes received_attach_response
decode_attach_response-Reads order target m w =
    Reads->>= _ (decode_header-Reads target.header m.header w.header_fits)
      (Reads-pure _ (decode_qid-Reads order target.qid m.qid w.qid_fits))
