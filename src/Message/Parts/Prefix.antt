-- ===== src/Message/Parts/Prefix.antt =====
-- No encoding of a part of a message is the beginning of another.
use libkzr.Prelude.{refl, List, length}
use libkzr.Prelude.Bytes.{Byte}
use libkzr.MessageStream.Wire.{IsText, string_bytes, vector_bytes, chars_bytes}
use libkzr.MessageStream.Prefix.{
  PrefixFree, first_part, part, both, whole, number-PrefixFree, string-PrefixFree,
  vector-PrefixFree, chars_lem,
}
use libkzr.Message.Parts.{MessageHeader, Qid, Stat}
use libkzr.Message.Parts.Wire.{
  IsHeader, header_bytes, IsQid, qid_bytes, IsStorage, storage_bytes, IsStat, stat_member_bytes,
  stat_bytes, IsVector,
}

pub IsHeader-PrefixFree : PrefixFree IsHeader header_bytes
unfolding header_bytes
IsHeader-PrefixFree =
    whole
      (both (part (number-PrefixFree 1) (λ (m : MessageHeader). m.op) (λ m w. w.op_fits))
        (part (number-PrefixFree 2) (λ (m : MessageHeader). m.tag) (λ m w. w.tag_fits)))
      (λ (x_op, x_tag). record { op = x_op; tag = x_tag }) (λ m. refl)

pub IsQid-PrefixFree : PrefixFree IsQid qid_bytes
unfolding qid_bytes
IsQid-PrefixFree =
    whole
      (both (part (number-PrefixFree 1) (λ (m : Qid). m.type) (λ m w. w.type_fits)) (
        both (part (number-PrefixFree 4) (λ (m : Qid). m.version) (λ m w. w.version_fits))
          (part (number-PrefixFree 8) (λ (m : Qid). m.path) (λ m w. w.path_fits))))
      (λ (x_type, (x_version, x_path)). record {
        type = x_type;
        version = x_version;
        path = x_path;
      })
      (λ m. refl)

pub IsStorage-PrefixFree : PrefixFree IsStorage storage_bytes
unfolding storage_bytes
IsStorage-PrefixFree = record {
  at = λ a b r t wa wb e.
      let (same_length, e') =
        first_part (number-PrefixFree 4) (length a) (length b) (chars_bytes a) (chars_bytes b) r t
          wa.size_fits wb.size_fits e in
      chars_lem a b r t same_length wa.bytes_fit wb.bytes_fit e';
}

IsVector-PrefixFree :
    {A : Type 0} {P : A → Type 0} {bytes : A → List Byte}
    → PrefixFree P bytes
    → PrefixFree (IsVector P) (vector_bytes bytes)
IsVector-PrefixFree free = record {
  at = λ a b r t wa wb e.
      (vector-PrefixFree free).at a b r t (wa.elements_fit, wa.count_fits)
        (wb.elements_fit, wb.count_fits) e;
}

pub names-PrefixFree : PrefixFree (IsVector IsText) (vector_bytes string_bytes)
names-PrefixFree = IsVector-PrefixFree string-PrefixFree

pub qids-PrefixFree : PrefixFree (IsVector IsQid) (vector_bytes qid_bytes)
qids-PrefixFree = IsVector-PrefixFree IsQid-PrefixFree

IsStat-members-PrefixFree : PrefixFree IsStat stat_member_bytes
unfolding stat_member_bytes
IsStat-members-PrefixFree =
    whole
      (both (part (number-PrefixFree 2) (λ (m : Stat). m.type) (λ m w. w.type_fits)) (
        both (part (number-PrefixFree 4) (λ (m : Stat). m.dev) (λ m w. w.dev_fits)) (
          both (part IsQid-PrefixFree (λ (m : Stat). m.qid) (λ m w. w.qid_fits)) (
            both (part (number-PrefixFree 4) (λ (m : Stat). m.mode) (λ m w. w.mode_fits)) (
              both (part (number-PrefixFree 4) (λ (m : Stat). m.atime) (λ m w. w.atime_fits)) (
                both (part (number-PrefixFree 4) (λ (m : Stat). m.mtime) (λ m w. w.mtime_fits)) (
                  both (part (number-PrefixFree 8) (λ (m : Stat). m.length) (λ m w. w.length_fits))
                    (both (part string-PrefixFree (λ (m : Stat). m.name) (λ m w. w.name_fits)) (
                      both (part string-PrefixFree (λ (m : Stat). m.uid) (λ m w. w.uid_fits)) (
                        both (part string-PrefixFree (λ (m : Stat). m.gid) (λ m w. w.gid_fits)) (
                          part string-PrefixFree (λ (m : Stat). m.muid)
                            (λ m w. w.muid_fits))))))))))))
      (λ (
        x_type,
        (
          x_dev,
          (x_qid, (x_mode, (x_atime, (x_mtime, (x_length, (x_name, (x_uid, (x_gid, x_muid)))))))),
        ),
      ).
        record {
          type = x_type;
          dev = x_dev;
          qid = x_qid;
          mode = x_mode;
          atime = x_atime;
          mtime = x_mtime;
          length = x_length;
          name = x_name;
          uid = x_uid;
          gid = x_gid;
          muid = x_muid;
        })
      (λ m. refl)

pub IsStat-PrefixFree : PrefixFree IsStat stat_bytes
unfolding stat_bytes
IsStat-PrefixFree = record {
  at = λ a b r t wa wb e.
      let (same_length, e') =
        first_part (number-PrefixFree 2) (length (stat_member_bytes a))
          (length (stat_member_bytes b)) (stat_member_bytes a) (stat_member_bytes b) r t
          wa.whole_fits wb.whole_fits e in
      IsStat-members-PrefixFree.at a b r t wa wb e';
}
