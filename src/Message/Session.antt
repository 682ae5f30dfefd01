-- ===== src/Message/Session.antt =====
-- Message.h, Message.cc: the messages of the session: Error, Version, Auth, Flush, Attach.
pub mod Wire
pub mod Codec
pub mod Quiet
pub mod Preserves
pub mod Prefix
pub mod Setters
pub mod Build
pub mod Bounded
use libkzr.Prelude.{ℕ, List, []}
use libkzr.Prelude.Bytes.{Byte}
use libkzr.Outcome.{pure, ◌>>=◌, ◌>>◌}
use libkzr.MessageStream.{
  Text, OnStream, ArgumentOrder, encode_u8, encode_u16, encode_u32, encode_u64, encode_string,
  decode_u8, decode_u16, decode_u32, decode_u64, decode_string, encode_vector, decode_vector,
  overlay,
}
use libkzr.Message.Parts.{
  encode_has_qid, decode_has_qid, encode_has_fid, decode_has_fid, encode_has_name, decode_has_name,
  encode_has_offset, decode_has_offset, encode_has_count, decode_has_count, MessageHeader, Qid,
  Stat, fresh_qid, encode_header, decode_header, encode_qid, decode_qid, encode_storage,
  decode_storage, encode_stat, decode_stat,
}

pub record ErrorResponse : Type 0 where
  pub header : MessageHeader
  pub ename : Text

unfoldable pub encode_error_response : ErrorResponse → OnStream (Unit {0})
encode_error_response m = do encode_header m.header; encode_string m.ename

unfoldable pub decode_error_response : ErrorResponse → OnStream ErrorResponse
decode_error_response m = do
  header ← decode_header m.header
  ename ← decode_string m.ename
  pure (record { header = header; ename = ename })

pub record VersionMessage : Type 0 where
  pub header : MessageHeader
  pub msize : ℕ
  pub version : Text

unfoldable pub encode_version_message : VersionMessage → OnStream (Unit {0})
encode_version_message m = do encode_header m.header; encode_u16 m.msize; encode_string m.version

unfoldable pub decode_version_message : VersionMessage → OnStream VersionMessage
decode_version_message m = do
  header ← decode_header m.header
  msize ← decode_u16
  version ← decode_string m.version
  pure (record { header = header; msize = msize; version = version })

pub record AuthenticationRequest : Type 0 where
  pub header : MessageHeader
  pub afid : ℕ
  pub uname : Text
  pub aname : Text

unfoldable pub encode_authentication_request : AuthenticationRequest → OnStream (Unit {0})
encode_authentication_request m = do
  encode_header m.header
  encode_u32 m.afid
  encode_string m.uname
  encode_string m.aname

unfoldable pub decode_authentication_request :
    AuthenticationRequest → OnStream AuthenticationRequest
decode_authentication_request m = do
  header ← decode_header m.header
  afid ← decode_u32
  uname ← decode_string m.uname
  aname ← decode_string m.aname
  pure (record { header = header; afid = afid; uname = uname; aname = aname })

pub record AuthenticationResponse : Type 0 where
  pub header : MessageHeader
  pub qid : Qid

unfoldable pub encode_authentication_response : AuthenticationResponse → OnStream (Unit {0})
encode_authentication_response m = do encode_header m.header; encode_has_qid m.qid

unfoldable pub decode_authentication_response :
    ArgumentOrder → AuthenticationResponse → OnStream AuthenticationResponse
decode_authentication_response order m = do
  header ← decode_header m.header
  qid ← decode_has_qid order m.qid
  pure (record { header = header; qid = qid })

pub record FlushRequest : Type 0 where
  pub header : MessageHeader
  pub oldtag : ℕ

unfoldable pub encode_flush_request : FlushRequest → OnStream (Unit {0})
encode_flush_request m = do encode_header m.header; encode_u16 m.oldtag

unfoldable pub decode_flush_request : FlushRequest → OnStream FlushRequest
decode_flush_request m = do
  header ← decode_header m.header
  oldtag ← decode_u16
  pure (record { header = header; oldtag = oldtag })

pub record AttachRequest : Type 0 where
  pub header : MessageHeader
  pub fid : ℕ
  pub afid : ℕ
  pub uname : Text
  pub aname : Text

unfoldable pub encode_attach_request : AttachRequest → OnStream (Unit {0})
encode_attach_request m = do
  encode_header m.header
  encode_has_fid m.fid
  encode_u32 m.afid
  encode_string m.uname
  encode_string m.aname

unfoldable pub decode_attach_request : AttachRequest → OnStream AttachRequest
decode_attach_request m = do
  header ← decode_header m.header
  fid ← decode_has_fid
  afid ← decode_u32
  uname ← decode_string m.uname
  aname ← decode_string m.aname
  pure (record { header = header; fid = fid; afid = afid; uname = uname; aname = aname })

pub record AttachResponse : Type 0 where
  pub header : MessageHeader
  pub qid : Qid

unfoldable pub encode_attach_response : AttachResponse → OnStream (Unit {0})
encode_attach_response m = do encode_header m.header; encode_has_qid m.qid

unfoldable pub decode_attach_response : ArgumentOrder → AttachResponse → OnStream AttachResponse
decode_attach_response order m = do
  header ← decode_header m.header
  qid ← decode_has_qid order m.qid
  pure (record { header = header; qid = qid })
