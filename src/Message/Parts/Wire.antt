-- ===== src/Message/Parts/Wire.antt =====
-- The bytes of the shared parts, the ranges of their members, and what decoding them into an object
-- gives.
use libkzr.Prelude.{◌^◌, ◌<◌, List, ◌++◌, length, All}
use libkzr.Prelude.Bytes.{Byte, little_endian}
use libkzr.MessageStream.{ArgumentOrder, overlay}
use libkzr.MessageStream.Wire.{IsText, string_bytes, chars_bytes, u64_as_read}
use libkzr.Message.Parts.{Qid, MessageHeader, Stat}

unfoldable pub qid_bytes : Qid → List Byte
qid_bytes q = little_endian 1 q.type ++ (little_endian 4 q.version ++ little_endian 8 q.path)

pub record IsQid (q : Qid) : Type 0 where
  pub type_fits : q.type < 2 ^ 8
  pub version_fits : q.version < 2 ^ 32
  pub path_fits : q.path < 2 ^ 64

unfoldable pub received_qid : ArgumentOrder → Qid → Qid
received_qid order q = record q { path = u64_as_read order q.path }

unfoldable pub header_bytes : MessageHeader → List Byte
header_bytes h = little_endian 1 h.op ++ little_endian 2 h.tag

pub record IsHeader (h : MessageHeader) : Type 0 where
  pub op_fits : h.op < 2 ^ 8
  pub tag_fits : h.tag < 2 ^ 16

unfoldable pub storage_bytes : List Byte → List Byte
storage_bytes stored = little_endian 4 (length stored) ++ chars_bytes stored

pub record IsStorage (stored : List Byte) : Type 0 where
  pub bytes_fit : All (λ b. b < 2 ^ 8) stored
  pub size_fits : length stored < 2 ^ 32

-- The member bytes of a Stat; the length of all of them goes in front.
unfoldable pub stat_member_bytes : Stat → List Byte
stat_member_bytes st =
    little_endian 2 st.type
    ++ (little_endian 4 st.dev
        ++ (qid_bytes st.qid
            ++ (little_endian 4 st.mode
                ++ (little_endian 4 st.atime
                    ++ (little_endian 4 st.mtime
                        ++ (little_endian 8 st.length
                            ++ (string_bytes st.name
                                ++ (string_bytes st.uid
                                    ++ (string_bytes st.gid ++ string_bytes st.muid)))))))))

unfoldable pub stat_bytes : Stat → List Byte
stat_bytes st = little_endian 2 (length (stat_member_bytes st)) ++ stat_member_bytes st

pub record IsStat (st : Stat) : Type 0 where
  pub type_fits : st.type < 2 ^ 16
  pub dev_fits : st.dev < 2 ^ 32
  pub qid_fits : IsQid st.qid
  pub mode_fits : st.mode < 2 ^ 32
  pub atime_fits : st.atime < 2 ^ 32
  pub mtime_fits : st.mtime < 2 ^ 32
  pub length_fits : st.length < 2 ^ 64
  pub name_fits : IsText st.name
  pub uid_fits : IsText st.uid
  pub gid_fits : IsText st.gid
  pub muid_fits : IsText st.muid
  pub whole_fits : length (stat_member_bytes st) < 2 ^ 16

unfoldable pub received_stat : ArgumentOrder → Stat → Stat → Stat
received_stat order target st = record st {
  qid = received_qid order st.qid;
  length = u64_as_read order st.length;
  name = overlay st.name target.name;
  uid = overlay st.uid target.uid;
  gid = overlay st.gid target.gid;
  muid = overlay st.muid target.muid;
}

-- A vector that its 16-bit count can describe.
pub record IsVector {A : Type 0} (P : A → Type 0) (xs : List A) : Type 0 where
  pub elements_fit : All P xs
  pub count_fits : length xs < 2 ^ 16
