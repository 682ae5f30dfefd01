-- ===== src/Message/Layout/Parts.antt =====
-- Each encoder of a part of a message emits its layout.
use libkzr.Prelude.{
  lt_or_le, ◌^◌, ◌%◌, ◌≡◌, refl, inl, inr, Option, none, some, List, length, lt→ltb, le→ltb, eq→==,
  arith,
}
use libkzr.Prelude.Bytes.{Byte}
use libkzr.Outcome.{Exception, storage_too_large, continue}
use libkzr.StringStream.{empty_stream}
use libkzr.StringStream.Frame.{IsWritable, append, throw-Throws}
use libkzr.MessageStream.{Text, encode_u8, encode_string, encode_vector, str}
use libkzr.MessageStream.Encode.{encode_u32-Writes}
use libkzr.MessageStream.Layout.{
  size, ended, refusal, part_bytes, written, first_refusal, Emits, Emits->>, Emits-Writes,
  Emits-Refused, encode_u8-Emits, encode_u16-Emits, encode_u32-Emits, encode_u64-Emits,
  encode_string-Emits, encode_elements-Emits, encode_vector-Emits,
}
use libkzr.Message.Parts.{
  MessageHeader, Qid, Stat, encode_operation, encode_header, encode_qid, encode_storage,
  encode_stat, encode_stat_members,
}
use libkzr.Message.Parts.Codec.{encode_storage-Throws}
use libkzr.Message.Layout.{
  header_parts, qid_parts, text_parts, byte_parts, vector_parts, storage_parts, stat_member_parts,
  stat_parts, unless_members_refused,
}

pub encode_header-Emits : (h : MessageHeader) → Emits (encode_header h) (header_parts h)
unfolding encode_header encode_operation
encode_header-Emits h = Emits->> (encode_u8-Emits h.op) (encode_u16-Emits h.tag)

pub encode_qid-Emits : (q : Qid) → Emits (encode_qid q) (qid_parts q)
unfolding encode_qid
encode_qid-Emits q =
    Emits->> (encode_u8-Emits q.type)
      (Emits->> (encode_u32-Emits q.version) (encode_u64-Emits q.path))

pub encode_names-Emits :
    (ts : List Text) → Emits (encode_vector encode_string ts) (vector_parts text_parts ts)
encode_names-Emits = encode_vector-Emits encode_string text_parts encode_string-Emits

pub encode_qids-Emits :
    (qs : List Qid) → Emits (encode_vector encode_qid qs) (vector_parts qid_parts qs)
encode_qids-Emits = encode_vector-Emits encode_qid qid_parts encode_qid-Emits

pub encode_storage-Emits : (bs : List Byte) → Emits (encode_storage bs) (storage_parts bs)
unfolding encode_storage refusal part_bytes
encode_storage-Emits bs = elim (lt_or_le (length bs) (2 ^ 32)) [
  | inl fits ↦
      let same : length bs % 2 ^ 32 ≡ length bs = omega arith in
      rw same (
        rw (eq→== (length bs) (length bs) refl) (
          Emits->>
            (Emits-Writes (size (length bs)) (rw (lt→ltb (length bs) (2 ^ 32) fits))
              (encode_u32-Writes (length bs)))
            (encode_elements-Emits encode_u8 byte_parts encode_u8-Emits bs)))
  | inr large ↦
      Emits-Refused (size (length bs)) _ storage_too_large (rw (le→ltb (length bs) (2 ^ 32) large))
        (encode_storage-Throws bs large)
]

encode_stat_members-Emits : (m : Stat) → Emits (encode_stat_members m) (stat_member_parts m)
unfolding encode_stat_members stat_member_parts
encode_stat_members-Emits m = Emits->> (encode_u16-Emits m.type) (
    Emits->> (encode_u32-Emits m.dev) (
      Emits->> (encode_qid-Emits m.qid) (
        Emits->> (encode_u32-Emits m.mode) (
          Emits->> (encode_u32-Emits m.atime) (
            Emits->> (encode_u32-Emits m.mtime) (
              Emits->> (encode_u64-Emits m.length) (
                Emits->> (encode_string-Emits m.name) (
                  Emits->> (encode_string-Emits m.uid)
                    (Emits->> (encode_string-Emits m.gid) (encode_string-Emits m.muid))))))))))

abbrev start : IsWritable empty_stream
start = record { is_good = refl; at_end = refl }

stat_text-Emits :
    (r : Option Exception) (bs : List Byte)
    → Emits
        (λ s. continue (ended r) (λ _. encode_string (str (append empty_stream bs))) s)
        (unless_members_refused r bs)
unfolding str first_refusal written refusal
stat_text-Emits none bs = encode_string-Emits bs
stat_text-Emits (some e) bs = record { at = λ s w. (throw-Throws e).at s w }

pub encode_stat-Emits : (m : Stat) → Emits (encode_stat m) (stat_parts m)
unfolding encode_stat stat_parts
encode_stat-Emits m = record {
  at = λ s w. rw ((encode_stat_members-Emits m).at empty_stream start) (
      (stat_text-Emits (first_refusal (stat_member_parts m)) (written (stat_member_parts m))).at s
        w);
}
