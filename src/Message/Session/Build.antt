-- ===== src/Message/Session/Build.antt =====
-- The messages of Session.antt that fit the wire can be built by constructors and setters.
use libkzr.Prelude.{◌%◌, ◌^◌, ◌≡◌, arith}
use libkzr.Operations.{
  MessageDirection, translate_concept, request, response, version, auth, attach, error, flush,
}
use libkzr.MessageStream.{notag}
use libkzr.Message.Parts.{fresh_header}
use libkzr.Message.Parts.Build.{build_qid, build_qid_lem, build_header, build_header_lem}
use libkzr.Message.Fresh.{
  fresh_error_response, fresh_version_message, fresh_authentication_request,
  fresh_authentication_response, fresh_flush_request, fresh_attach_request, fresh_attach_response,
}
use libkzr.Message.Session.{
  ErrorResponse, VersionMessage, AuthenticationRequest, AuthenticationResponse, FlushRequest,
  AttachRequest, AttachResponse,
}
use libkzr.Message.Session.Wire.{
  IsErrorResponse, IsVersionMessage, IsAuthenticationRequest, IsAuthenticationResponse,
  IsFlushRequest, IsAttachRequest, IsAttachResponse,
}
use libkzr.Message.Accessors.{set_msize, set_version}
use libkzr.Message.Session.Setters.{
  error_response_set_error_name, authentication_request_set_authentication_handle,
  authentication_request_set_user_name, authentication_request_set_attach_name,
  authentication_response_set_qid, flush_request_set_old_tag, attach_request_set_fid,
  attach_request_set_authentication_handle, attach_request_set_user_name,
  attach_request_set_attach_name, attach_response_set_qid,
}

unfoldable pub build_error_response : ErrorResponse → ErrorResponse
build_error_response m =
    error_response_set_error_name m.ename
      (record (fresh_error_response) { header = build_header error response m.header })

pub build_error_response_lem :
    (m : ErrorResponse)
    → IsErrorResponse m
    → translate_concept error response ≡ m.header.op
    → build_error_response m ≡ m
unfolding build_error_response fresh_error_response error_response_set_error_name
build_error_response_lem m w e =
    let p_header = build_header_lem error response m.header w.header_fits e in
    λ i. record { header = p_header i; ename = m.ename }

unfoldable pub build_version_message : MessageDirection → VersionMessage → VersionMessage
build_version_message dir m =
    set_version m.version (set_msize m.msize (fresh_version_message version dir))

pub build_version_message_lem :
    (dir : MessageDirection) (m : VersionMessage)
    → IsVersionMessage m
    → translate_concept version dir ≡ m.header.op
    → notag ≡ m.header.tag
    → build_version_message dir m ≡ m
unfolding build_version_message fresh_version_message set_msize set_version fresh_header
build_version_message_lem dir m w e t =
    let p_msize : m.msize % 2 ^ 16 ≡ m.msize = omega (arith, w.msize_fits) in
    λ i. record { header = record { op = e i; tag = t i }; msize = p_msize i; version = m.version }

unfoldable pub build_authentication_request : AuthenticationRequest → AuthenticationRequest
build_authentication_request m = authentication_request_set_attach_name m.aname (
    authentication_request_set_user_name m.uname (
      authentication_request_set_authentication_handle m.afid
        (record (fresh_authentication_request) { header = build_header auth request m.header })))

pub build_authentication_request_lem :
    (m : AuthenticationRequest)
    → IsAuthenticationRequest m
    → translate_concept auth request ≡ m.header.op
    → build_authentication_request m ≡ m
unfolding build_authentication_request fresh_authentication_request
    authentication_request_set_authentication_handle authentication_request_set_user_name
    authentication_request_set_attach_name
build_authentication_request_lem m w e =
    let p_afid : m.afid % 2 ^ 32 ≡ m.afid = omega (arith, w.afid_fits) in
    let p_header = build_header_lem auth request m.header w.header_fits e in
    λ i. record { header = p_header i; afid = p_afid i; uname = m.uname; aname = m.aname }

unfoldable pub build_authentication_response : AuthenticationResponse → AuthenticationResponse
build_authentication_response m =
    authentication_response_set_qid (build_qid m.qid)
      (record (fresh_authentication_response) { header = build_header auth response m.header })

pub build_authentication_response_lem :
    (m : AuthenticationResponse)
    → IsAuthenticationResponse m
    → translate_concept auth response ≡ m.header.op
    → build_authentication_response m ≡ m
unfolding build_authentication_response fresh_authentication_response
    authentication_response_set_qid
build_authentication_response_lem m w e =
    let p_qid = build_qid_lem m.qid w.qid_fits in
    let p_header = build_header_lem auth response m.header w.header_fits e in
    λ i. record { header = p_header i; qid = p_qid i }

unfoldable pub build_flush_request : FlushRequest → FlushRequest
build_flush_request m =
    flush_request_set_old_tag m.oldtag
      (record (fresh_flush_request) { header = build_header flush request m.header })

pub build_flush_request_lem :
    (m : FlushRequest)
    → IsFlushRequest m
    → translate_concept flush request ≡ m.header.op
    → build_flush_request m ≡ m
unfolding build_flush_request fresh_flush_request flush_request_set_old_tag
build_flush_request_lem m w e =
    let p_oldtag : m.oldtag % 2 ^ 16 ≡ m.oldtag = omega (arith, w.oldtag_fits) in
    let p_header = build_header_lem flush request m.header w.header_fits e in
    λ i. record { header = p_header i; oldtag = p_oldtag i }

unfoldable pub build_attach_request : AttachRequest → AttachRequest
build_attach_request m = attach_request_set_attach_name m.aname (
    attach_request_set_user_name m.uname (
      attach_request_set_authentication_handle m.afid (
        attach_request_set_fid m.fid
          (record (fresh_attach_request) { header = build_header attach request m.header }))))

pub build_attach_request_lem :
    (m : AttachRequest)
    → IsAttachRequest m
    → translate_concept attach request ≡ m.header.op
    → build_attach_request m ≡ m
unfolding build_attach_request fresh_attach_request attach_request_set_fid
    attach_request_set_authentication_handle attach_request_set_user_name
    attach_request_set_attach_name
build_attach_request_lem m w e =
    let p_fid : m.fid % 2 ^ 32 ≡ m.fid = omega (arith, w.fid_fits) in
    let p_afid : m.afid % 2 ^ 32 ≡ m.afid = omega (arith, w.afid_fits) in
    let p_header = build_header_lem attach request m.header w.header_fits e in
    λ i. record {
      header = p_header i;
      fid = p_fid i;
      afid = p_afid i;
      uname = m.uname;
      aname = m.aname;
    }

unfoldable pub build_attach_response : AttachResponse → AttachResponse
build_attach_response m =
    attach_response_set_qid (build_qid m.qid)
      (record (fresh_attach_response) { header = build_header attach response m.header })

pub build_attach_response_lem :
    (m : AttachResponse)
    → IsAttachResponse m
    → translate_concept attach response ≡ m.header.op
    → build_attach_response m ≡ m
unfolding build_attach_response fresh_attach_response attach_response_set_qid
build_attach_response_lem m w e =
    let p_qid = build_qid_lem m.qid w.qid_fits in
    let p_header = build_header_lem attach response m.header w.header_fits e in
    λ i. record { header = p_header i; qid = p_qid i }
