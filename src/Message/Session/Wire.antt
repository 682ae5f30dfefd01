-- ===== src/Message/Session/Wire.antt =====
-- The bytes of the messages of the session: Error, Version, Auth, Flush, Attach;
-- the ranges of their members, and what decoding them into an object gives.
use libkzr.Prelude.{◌^◌, ◌<◌, List, ◌++◌}
use libkzr.Prelude.Bytes.{Byte, little_endian}
use libkzr.MessageStream.{ArgumentOrder, overlay}
use libkzr.MessageStream.Wire.{IsText, string_bytes}
use libkzr.Message.Parts.Wire.{IsHeader, header_bytes, IsQid, qid_bytes, received_qid}
use libkzr.Message.Session.{
  ErrorResponse, VersionMessage, AuthenticationRequest, AuthenticationResponse, FlushRequest,
  AttachRequest, AttachResponse,
}

unfoldable pub error_response_bytes : ErrorResponse → List Byte
error_response_bytes m = header_bytes m.header ++ (string_bytes m.ename)

pub record IsErrorResponse (m : ErrorResponse) : Type 0 where
  pub header_fits : IsHeader m.header
  pub ename_fits : IsText m.ename

unfoldable pub received_error_response : ErrorResponse → ErrorResponse → ErrorResponse
received_error_response target m = record m { ename = overlay m.ename target.ename }

unfoldable pub version_message_bytes : VersionMessage → List Byte
version_message_bytes m =
    header_bytes m.header ++ (little_endian 2 m.msize ++ (string_bytes m.version))

pub record IsVersionMessage (m : VersionMessage) : Type 0 where
  pub header_fits : IsHeader m.header
  pub msize_fits : m.msize < 2 ^ 16
  pub version_fits : IsText m.version

unfoldable pub received_version_message : VersionMessage → VersionMessage → VersionMessage
received_version_message target m = record m { version = overlay m.version target.version }

unfoldable pub authentication_request_bytes : AuthenticationRequest → List Byte
authentication_request_bytes m =
    header_bytes m.header
    ++ (little_endian 4 m.afid ++ (string_bytes m.uname ++ (string_bytes m.aname)))

pub record IsAuthenticationRequest (m : AuthenticationRequest) : Type 0 where
  pub header_fits : IsHeader m.header
  pub afid_fits : m.afid < 2 ^ 32
  pub uname_fits : IsText m.uname
  pub aname_fits : IsText m.aname

unfoldable pub received_authentication_request :
    AuthenticationRequest → AuthenticationRequest → AuthenticationRequest
received_authentication_request target m = record m {
  uname = overlay m.uname target.uname;
  aname = overlay m.aname target.aname;
}

unfoldable pub authentication_response_bytes : AuthenticationResponse → List Byte
authentication_response_bytes m = header_bytes m.header ++ (qid_bytes m.qid)

pub record IsAuthenticationResponse (m : AuthenticationResponse) : Type 0 where
  pub header_fits : IsHeader m.header
  pub qid_fits : IsQid m.qid

unfoldable pub received_authentication_response :
    ArgumentOrder → AuthenticationResponse → AuthenticationResponse
received_authentication_response order m = record m { qid = received_qid order m.qid }

unfoldable pub flush_request_bytes : FlushRequest → List Byte
flush_request_bytes m = header_bytes m.header ++ (little_endian 2 m.oldtag)

pub record IsFlushRequest (m : FlushRequest) : Type 0 where
  pub header_fits : IsHeader m.header
  pub oldtag_fits : m.oldtag < 2 ^ 16

unfoldable pub attach_request_bytes : AttachRequest → List Byte
attach_request_bytes m =
    header_bytes m.header
    ++ (little_endian 4 m.fid
        ++ (little_endian 4 m.afid ++ (string_bytes m.uname ++ (string_bytes m.aname))))

pub record IsAttachRequest (m : AttachRequest) : Type 0 where
  pub header_fits : IsHeader m.header
  pub fid_fits : m.fid < 2 ^ 32
  pub afid_fits : m.afid < 2 ^ 32
  pub uname_fits : IsText m.uname
  pub aname_fits : IsText m.aname

unfoldable pub received_attach_request : AttachRequest → AttachRequest → AttachRequest
received_attach_request target m = record m {
  uname = overlay m.uname target.uname;
  aname = overlay m.aname target.aname;
}

unfoldable pub attach_response_bytes : AttachResponse → List Byte
attach_response_bytes m = header_bytes m.header ++ (qid_bytes m.qid)

pub record IsAttachResponse (m : AttachResponse) : Type 0 where
  pub header_fits : IsHeader m.header
  pub qid_fits : IsQid m.qid

unfoldable pub received_attach_response : ArgumentOrder → AttachResponse → AttachResponse
received_attach_response order m = record m { qid = received_qid order m.qid }
