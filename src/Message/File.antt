-- ===== src/Message/File.antt =====
-- Message.h, Message.cc: the messages about files: Walk, Open, Create, Read, Write, and FidRequest.
pub mod Wire
pub mod Codec
pub mod Quiet
pub mod Preserves
pub mod Prefix
pub mod Setters
pub mod Build
pub mod Bounded
use libkzr.Prelude.{ℕ, List, []}
use libkzr.Prelude.Bytes.{Byte}
use libkzr.Outcome.{pure, ◌>>=◌, ◌>>◌}
use libkzr.MessageStream.{
  Text, OnStream, ArgumentOrder, encode_u8, encode_u16, encode_u32, encode_u64, encode_string,
  decode_u8, decode_u16, decode_u32, decode_u64, decode_string, encode_vector, decode_vector,
  overlay,
}
use libkzr.Message.Parts.{
  encode_has_qid, decode_has_qid, encode_has_fid, decode_has_fid, encode_has_name, decode_has_name,
  encode_has_offset, decode_has_offset, encode_has_count, decode_has_count, MessageHeader, Qid,
  Stat, fresh_qid, encode_header, decode_header, encode_qid, decode_qid, encode_storage,
  decode_storage, encode_stat, decode_stat,
}

pub record WalkRequest : Type 0 where
  pub header : MessageHeader
  pub fid : ℕ
  pub newfid : ℕ
  pub wname : List Text

unfoldable pub encode_walk_request : WalkRequest → OnStream (Unit {0})
encode_walk_request m = do
  encode_header m.header
  encode_has_fid m.fid
  encode_u32 m.newfid
  encode_vector encode_string m.wname

unfoldable pub decode_walk_request : WalkRequest → OnStream WalkRequest
decode_walk_request m = do
  header ← decode_header m.header
  fid ← decode_has_fid
  newfid ← decode_u32
  wname ← decode_vector decode_string [] m.wname
  pure (record { header = header; fid = fid; newfid = newfid; wname = wname })

pub record WalkResponse : Type 0 where
  pub header : MessageHeader
  pub wqid : List Qid

unfoldable pub encode_walk_response : WalkResponse → OnStream (Unit {0})
encode_walk_response m = do encode_header m.header; encode_vector encode_qid m.wqid

unfoldable pub decode_walk_response : ArgumentOrder → WalkResponse → OnStream WalkResponse
decode_walk_response order m = do
  header ← decode_header m.header
  wqid ← decode_vector (decode_qid order) fresh_qid m.wqid
  pure (record { header = header; wqid = wqid })

pub record OpenRequest : Type 0 where
  pub header : MessageHeader
  pub fid : ℕ
  pub mode : ℕ

unfoldable pub encode_open_request : OpenRequest → OnStream (Unit {0})
encode_open_request m = do encode_header m.header; encode_has_fid m.fid; encode_u8 m.mode

unfoldable pub decode_open_request : OpenRequest → OnStream OpenRequest
decode_open_request m = do
  header ← decode_header m.header
  fid ← decode_has_fid
  mode ← decode_u8
  pure (record { header = header; fid = fid; mode = mode })

pub record OpenOrCreateResponse : Type 0 where
  pub header : MessageHeader
  pub qid : Qid
  pub iounit : ℕ

unfoldable pub encode_open_or_create_response : OpenOrCreateResponse → OnStream (Unit {0})
encode_open_or_create_response m = do
  encode_header m.header
  encode_has_qid m.qid
  encode_u32 m.iounit

unfoldable pub decode_open_or_create_response :
    ArgumentOrder → OpenOrCreateResponse → OnStream OpenOrCreateResponse
decode_open_or_create_response order m = do
  header ← decode_header m.header
  qid ← decode_has_qid order m.qid
  iounit ← decode_u32
  pure (record { header = header; qid = qid; iounit = iounit })

pub record CreateRequest : Type 0 where
  pub header : MessageHeader
  pub fid : ℕ
  pub name : Text
  pub perm : ℕ
  pub mode : ℕ

unfoldable pub encode_create_request : CreateRequest → OnStream (Unit {0})
encode_create_request m = do
  encode_header m.header
  encode_has_fid m.fid
  encode_has_name m.name
  encode_u32 m.perm
  encode_u8 m.mode

unfoldable pub decode_create_request : CreateRequest → OnStream CreateRequest
decode_create_request m = do
  header ← decode_header m.header
  fid ← decode_has_fid
  name ← decode_has_name m.name
  perm ← decode_u32
  mode ← decode_u8
  pure (record { header = header; fid = fid; name = name; perm = perm; mode = mode })

pub record FidRequest : Type 0 where
  pub header : MessageHeader
  pub fid : ℕ

unfoldable pub encode_fid_request : FidRequest → OnStream (Unit {0})
encode_fid_request m = do encode_header m.header; encode_has_fid m.fid

unfoldable pub decode_fid_request : FidRequest → OnStream FidRequest
decode_fid_request m = do
  header ← decode_header m.header
  fid ← decode_has_fid
  pure (record { header = header; fid = fid })

pub record ReadRequest : Type 0 where
  pub header : MessageHeader
  pub fid : ℕ
  pub offset : ℕ
  pub count : ℕ

unfoldable pub encode_read_request : ReadRequest → OnStream (Unit {0})
encode_read_request m = do
  encode_header m.header
  encode_has_fid m.fid
  encode_has_offset m.offset
  encode_has_count m.count

unfoldable pub decode_read_request : ArgumentOrder → ReadRequest → OnStream ReadRequest
decode_read_request order m = do
  header ← decode_header m.header
  fid ← decode_has_fid
  offset ← decode_has_offset order
  count ← decode_has_count
  pure (record { header = header; fid = fid; offset = offset; count = count })

pub record ReadResponse : Type 0 where
  pub header : MessageHeader
  pub stored : List Byte

unfoldable pub encode_read_response : ReadResponse → OnStream (Unit {0})
encode_read_response m = do encode_header m.header; encode_storage m.stored

unfoldable pub decode_read_response : ReadResponse → OnStream ReadResponse
decode_read_response m = do
  header ← decode_header m.header
  stored ← decode_storage m.stored
  pure (record { header = header; stored = stored })

pub record WriteRequest : Type 0 where
  pub header : MessageHeader
  pub fid : ℕ
  pub offset : ℕ
  pub stored : List Byte

unfoldable pub encode_write_request : WriteRequest → OnStream (Unit {0})
encode_write_request m = do
  encode_header m.header
  encode_has_fid m.fid
  encode_has_offset m.offset
  encode_storage m.stored

unfoldable pub decode_write_request : ArgumentOrder → WriteRequest → OnStream WriteRequest
decode_write_request order m = do
  header ← decode_header m.header
  fid ← decode_has_fid
  offset ← decode_has_offset order
  stored ← decode_storage m.stored
  pure (record { header = header; fid = fid; offset = offset; stored = stored })

pub record WriteResponse : Type 0 where
  pub header : MessageHeader
  pub count : ℕ

unfoldable pub encode_write_response : WriteResponse → OnStream (Unit {0})
encode_write_response m = do encode_header m.header; encode_has_count m.count

unfoldable pub decode_write_response : WriteResponse → OnStream WriteResponse
decode_write_response m = do
  header ← decode_header m.header
  count ← decode_has_count
  pure (record { header = header; count = count })
