-- ===== src/Message/Session/Prefix.antt =====
-- No encoding of a message of Session.antt is the beginning of another of the same class.
use libkzr.Prelude.{refl}
use libkzr.MessageStream.Prefix.{
  PrefixFree, part, both, whole, number-PrefixFree, string-PrefixFree,
}
use libkzr.Message.Parts.Prefix.{IsHeader-PrefixFree, IsQid-PrefixFree}
use libkzr.Message.Session.Wire.{
  IsErrorResponse, error_response_bytes, IsVersionMessage, version_message_bytes,
  IsAuthenticationRequest, authentication_request_bytes, IsAuthenticationResponse,
  authentication_response_bytes, IsFlushRequest, flush_request_bytes, IsAttachRequest,
  attach_request_bytes, IsAttachResponse, attach_response_bytes,
}
use libkzr.Message.Session.{
  ErrorResponse, VersionMessage, AuthenticationRequest, AuthenticationResponse, FlushRequest,
  AttachRequest, AttachResponse,
}

pub IsErrorResponse-PrefixFree : PrefixFree IsErrorResponse error_response_bytes
unfolding error_response_bytes
IsErrorResponse-PrefixFree =
    whole
      (both (part IsHeader-PrefixFree (λ (m : ErrorResponse). m.header) (λ m w. w.header_fits))
        (part string-PrefixFree (λ (m : ErrorResponse). m.ename) (λ m w. w.ename_fits)))
      (λ (x_header, x_ename). record { header = x_header; ename = x_ename }) (λ m. refl)

pub IsVersionMessage-PrefixFree : PrefixFree IsVersionMessage version_message_bytes
unfolding version_message_bytes
IsVersionMessage-PrefixFree =
    whole
      (both (part IsHeader-PrefixFree (λ (m : VersionMessage). m.header) (λ m w. w.header_fits)) (
        both (part (number-PrefixFree 2) (λ (m : VersionMessage). m.msize) (λ m w. w.msize_fits))
          (part string-PrefixFree (λ (m : VersionMessage). m.version) (λ m w. w.version_fits))))
      (λ (x_header, (x_msize, x_version)). record {
        header = x_header;
        msize = x_msize;
        version = x_version;
      })
      (λ m. refl)

pub IsAuthenticationRequest-PrefixFree :
    PrefixFree IsAuthenticationRequest authentication_request_bytes
unfolding authentication_request_bytes
IsAuthenticationRequest-PrefixFree =
    whole
      (both
        (part IsHeader-PrefixFree (λ (m : AuthenticationRequest). m.header) (λ m w. w.header_fits))
        (both
          (part (number-PrefixFree 4) (λ (m : AuthenticationRequest). m.afid) (λ m w. w.afid_fits))
          (both
            (part string-PrefixFree (λ (m : AuthenticationRequest). m.uname) (λ m w. w.uname_fits))
            (part string-PrefixFree (λ (m : AuthenticationRequest). m.aname)
              (λ m w. w.aname_fits)))))
      (λ (x_header, (x_afid, (x_uname, x_aname))). record {
        header = x_header;
        afid = x_afid;
        uname = x_uname;
        aname = x_aname;
      })
      (λ m. refl)

pub IsAuthenticationResponse-PrefixFree :
    PrefixFree IsAuthenticationResponse authentication_response_bytes
unfolding authentication_response_bytes
IsAuthenticationResponse-PrefixFree =
    whole
      (both
        (part IsHeader-PrefixFree (λ (m : AuthenticationResponse). m.header) (λ m w. w.header_fits))
        (part IsQid-PrefixFree (λ (m : AuthenticationResponse). m.qid) (λ m w. w.qid_fits)))
      (λ (x_header, x_qid). record { header = x_header; qid = x_qid }) (λ m. refl)

pub IsFlushRequest-PrefixFree : PrefixFree IsFlushRequest flush_request_bytes
unfolding flush_request_bytes
IsFlushRequest-PrefixFree =
    whole
      (both (part IsHeader-PrefixFree (λ (m : FlushRequest). m.header) (λ m w. w.header_fits))
        (part (number-PrefixFree 2) (λ (m : FlushRequest). m.oldtag) (λ m w. w.oldtag_fits)))
      (λ (x_header, x_oldtag). record { header = x_header; oldtag = x_oldtag }) (λ m. refl)

pub IsAttachRequest-PrefixFree : PrefixFree IsAttachRequest attach_request_bytes
unfolding attach_request_bytes
IsAttachRequest-PrefixFree =
    whole
      (both (part IsHeader-PrefixFree (λ (m : AttachRequest). m.header) (λ m w. w.header_fits)) (
        both (part (number-PrefixFree 4) (λ (m : AttachRequest). m.fid) (λ m w. w.fid_fits)) (
          both (part (number-PrefixFree 4) (λ (m : AttachRequest). m.afid) (λ m w. w.afid_fits)) (
            both (part string-PrefixFree (λ (m : AttachRequest). m.uname) (λ m w. w.uname_fits))
              (part string-PrefixFree (λ (m : AttachRequest). m.aname) (λ m w. w.aname_fits))))))
      (λ (x_header, (x_fid, (x_afid, (x_uname, x_aname)))). record {
        header = x_header;
        fid = x_fid;
        afid = x_afid;
        uname = x_uname;
        aname = x_aname;
      })
      (λ m. refl)

pub IsAttachResponse-PrefixFree : PrefixFree IsAttachResponse attach_response_bytes
unfolding attach_response_bytes
IsAttachResponse-PrefixFree =
    whole
      (both (part IsHeader-PrefixFree (λ (m : AttachResponse). m.header) (λ m w. w.header_fits))
        (part IsQid-PrefixFree (λ (m : AttachResponse). m.qid) (λ m w. w.qid_fits)))
      (λ (x_header, x_qid). record { header = x_header; qid = x_qid }) (λ m. refl)
