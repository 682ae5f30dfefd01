-- ===== src/Message/Parts.antt =====
-- The parts that messages share: Qid, Stat, MessageHeader, and the classes Has… that messages inherit.
pub mod Wire
pub mod Codec
pub mod StatCodec
pub mod Vectors
pub mod Quiet
pub mod Preserves
pub mod Prefix
pub mod Setters
pub mod Build
pub mod Bounded
use libkzr.Prelude.{ℕ, ◌%◌, ◌^◌, List, [], ◌==◌, length, if◌then◌else◌}
use libkzr.Prelude.Bytes.{Byte}
use libkzr.Outcome.{pure, throw, continue, ◌>>=◌, ◌>>◌, storage_too_large}
use libkzr.Operations.{ConceptualOperation, Operation, MessageDirection, translate_concept}
use libkzr.StringStream.{empty_stream}
use libkzr.MessageStream.{
  Text, OnStream, ArgumentOrder, notag, str, encode_u8, encode_u16, encode_u32, encode_u64,
  encode_string, decode_u8, decode_u16, decode_u32, decode_u64, decode_string, encode_elements,
  decode_elements,
}

pub record Qid : Type 0 where
  pub type : ℕ
  pub version : ℕ
  pub path : ℕ

-- `emplace` and `emplace_back` value-initialise: numbers are 0, texts and vectors empty.
abbrev pub fresh_qid : Qid
fresh_qid = record { type = 0; version = 0; path = 0 }

unfoldable pub encode_qid : Qid → OnStream (Unit {0})
encode_qid q = do encode_u8 q.type; encode_u32 q.version; encode_u64 q.path

unfoldable pub decode_qid : ArgumentOrder → Qid → OnStream Qid
decode_qid order q = do
  type ← decode_u8
  version ← decode_u32
  path ← decode_u64 order
  pure (record { type = type; version = version; path = path })

-- HasQid, HasFid, HasName, HasOffset, HasCount
abbrev pub encode_has_qid : Qid → OnStream (Unit {0})
encode_has_qid qid = encode_qid qid

abbrev pub decode_has_qid : ArgumentOrder → Qid → OnStream Qid
decode_has_qid order qid = decode_qid order qid

abbrev pub encode_has_fid : ℕ → OnStream (Unit {0})
encode_has_fid fid = encode_u32 fid

abbrev pub decode_has_fid : OnStream ℕ
decode_has_fid = decode_u32

abbrev pub encode_has_name : Text → OnStream (Unit {0})
encode_has_name name = encode_string name

abbrev pub decode_has_name : Text → OnStream Text
decode_has_name name = decode_string name

abbrev pub encode_has_offset : ℕ → OnStream (Unit {0})
encode_has_offset offset = encode_u64 offset

abbrev pub decode_has_offset : ArgumentOrder → OnStream ℕ
decode_has_offset order = decode_u64 order

abbrev pub encode_has_count : ℕ → OnStream (Unit {0})
encode_has_count count = encode_u32 count

abbrev pub decode_has_count : OnStream ℕ
decode_has_count = decode_u32

-- operator<< and operator>> of Operations.cc
unfoldable pub encode_operation : Operation → OnStream (Unit {0})
encode_operation op = encode_u8 op

unfoldable pub decode_operation : OnStream Operation
decode_operation = decode_u8

pub record MessageHeader : Type 0 where
  pub op : Operation
  pub tag : ℕ

-- The header that the constructor `Message<op, dir>()` makes.
unfoldable pub fresh_header : ConceptualOperation → MessageDirection → MessageHeader
unfolding translate_concept
fresh_header op dir = record { op = translate_concept op dir; tag = notag }

unfoldable pub set_tag : ℕ → MessageHeader → MessageHeader
set_tag value h = record h { tag = value % 2 ^ 16 }

unfoldable pub encode_header : MessageHeader → OnStream (Unit {0})
unfolding encode_operation
encode_header h = do encode_operation h.op; encode_u16 h.tag

unfoldable pub decode_header : MessageHeader → OnStream MessageHeader
unfolding decode_operation
decode_header h = do op ← decode_operation; tag ← decode_u16; pure (record { op = op; tag = tag })

-- HasDataStorage
unfoldable pub encode_storage : List Byte → OnStream (Unit {0})
unfolding encode_elements
encode_storage stored =
    let len = length stored % 2 ^ 32 in
    if len == length stored
    then (do encode_u32 len; encode_elements encode_u8 stored)
    else throw storage_too_large

unfoldable pub decode_storage : List Byte → OnStream (List Byte)
unfolding decode_elements
decode_storage stored = do size ← decode_u32; decode_elements (λ _. decode_u8) 0 size stored

pub record Stat : Type 0 where
  pub type : ℕ
  pub dev : ℕ
  pub qid : Qid
  pub mode : ℕ
  pub atime : ℕ
  pub mtime : ℕ
  pub length : ℕ
  pub name : Text
  pub uid : Text
  pub gid : Text
  pub muid : Text

abbrev pub fresh_stat : Stat
fresh_stat = record {
  type = 0;
  dev = 0;
  qid = fresh_qid;
  mode = 0;
  atime = 0;
  mtime = 0;
  length = 0;
  name = [];
  uid = [];
  gid = [];
  muid = [];
}

-- What `Stat::encode` puts into its inner message.
unfoldable pub encode_stat_members : Stat → OnStream (Unit {0})
unfolding encode_qid
encode_stat_members st = do
  encode_u16 st.type
  encode_u32 st.dev
  encode_has_qid st.qid
  encode_u32 st.mode
  encode_u32 st.atime
  encode_u32 st.mtime
  encode_u64 st.length
  encode_has_name st.name
  encode_string st.uid
  encode_string st.gid
  encode_string st.muid

unfoldable pub encode_stat : Stat → OnStream (Unit {0})
unfolding encode_stat_members str
encode_stat st s =
    let (r, inner_message) = encode_stat_members st empty_stream in
    continue r (λ _. encode_string (str inner_message)) s

unfoldable pub decode_stat : ArgumentOrder → Stat → OnStream Stat
unfolding decode_qid
decode_stat order st = do
  len ← decode_u16
  type ← decode_u16
  dev ← decode_u32
  qid ← decode_has_qid order st.qid
  mode ← decode_u32
  atime ← decode_u32
  mtime ← decode_u32
  length ← decode_u64 order
  name ← decode_has_name st.name
  uid ← decode_string st.uid
  gid ← decode_string st.gid
  muid ← decode_string st.muid
  pure (record {
    type = type;
    dev = dev;
    qid = qid;
    mode = mode;
    atime = atime;
    mtime = mtime;
    length = length;
    name = name;
    uid = uid;
    gid = gid;
    muid = muid;
  })
