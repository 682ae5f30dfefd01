-- ===== src/Message/Metadata.antt =====
-- Message.h, Message.cc: the messages about metadata: Stat and WStat.
pub mod Wire
pub mod Codec
pub mod Quiet
pub mod Preserves
pub mod Prefix
pub mod Setters
pub mod Build
pub mod Bounded
use libkzr.Prelude.{ℕ, List, []}
use libkzr.Prelude.Bytes.{Byte}
use libkzr.Outcome.{pure, ◌>>=◌, ◌>>◌}
use libkzr.MessageStream.{
  Text, OnStream, ArgumentOrder, encode_u8, encode_u16, encode_u32, encode_u64, encode_string,
  decode_u8, decode_u16, decode_u32, decode_u64, decode_string, encode_vector, decode_vector,
  overlay,
}
use libkzr.Message.Parts.{
  encode_has_qid, decode_has_qid, encode_has_fid, decode_has_fid, encode_has_name, decode_has_name,
  encode_has_offset, decode_has_offset, encode_has_count, decode_has_count, MessageHeader, Qid,
  Stat, fresh_qid, encode_header, decode_header, encode_qid, decode_qid, encode_storage,
  decode_storage, encode_stat, decode_stat,
}

pub record StatResponse : Type 0 where
  pub header : MessageHeader
  pub stat_text : Text

unfoldable pub encode_stat_response : StatResponse → OnStream (Unit {0})
encode_stat_response m = do encode_header m.header; encode_string m.stat_text

unfoldable pub decode_stat_response : StatResponse → OnStream StatResponse
decode_stat_response m = do
  header ← decode_header m.header
  stat_text ← decode_string m.stat_text
  pure (record { header = header; stat_text = stat_text })

pub record WStatRequest : Type 0 where
  pub header : MessageHeader
  pub fid : ℕ
  pub stat : Stat

unfoldable pub encode_wstat_request : WStatRequest → OnStream (Unit {0})
encode_wstat_request m = do encode_header m.header; encode_has_fid m.fid; encode_stat m.stat

unfoldable pub decode_wstat_request : ArgumentOrder → WStatRequest → OnStream WStatRequest
decode_wstat_request order m = do
  header ← decode_header m.header
  fid ← decode_has_fid
  stat ← decode_stat order m.stat
  pure (record { header = header; fid = fid; stat = stat })
