-- ===== src/Message/Parts/StatCodec.antt =====
-- A Stat is written behind the length of its members, and reads back into a Stat.
use libkzr.Prelude.{ℕ, zero, suc, ◌/◌, ◌^◌, ◌<◌, refl, List, [], ◌∷◌, ◌++◌, length, All, arith}
use libkzr.Prelude.Bytes.{Byte, little_endian}
use libkzr.StringStream.{empty_stream}
use libkzr.StringStream.Frame.{Writes, Reads, Writes->>, Reads->>=, Reads-pure, IsWritable}
use libkzr.MessageStream.{Text, ArgumentOrder, encode_string}
use libkzr.MessageStream.Wire.{string_bytes, chars_bytes, chars_bytes-text}
use libkzr.MessageStream.Encode.{
  encode_u16-Writes, encode_u32-Writes, encode_u64-Writes, encode_string-Writes, Writes-eq,
}
use libkzr.MessageStream.Decode.{
  decode_u16-Reads, decode_u32-Reads, decode_u64-Reads, decode_string-Reads,
}
use libkzr.Message.Parts.{Qid, Stat, encode_stat_members, encode_stat, decode_stat}
use libkzr.Message.Parts.Wire.{IsStat, qid_bytes, stat_member_bytes, stat_bytes, received_stat}
use libkzr.Message.Parts.Codec.{encode_qid-Writes, decode_qid-Reads}

module _ (st : Stat) (w : IsStat st) where
  encode_stat_members-Writes : Writes (encode_stat_members st) (stat_member_bytes st)
  unfolding encode_stat_members stat_member_bytes
  encode_stat_members-Writes = Writes->> (encode_u16-Writes st.type) (
      Writes->> (encode_u32-Writes st.dev) (
        Writes->> (encode_qid-Writes st.qid) (
          Writes->> (encode_u32-Writes st.mode) (
            Writes->> (encode_u32-Writes st.atime) (
              Writes->> (encode_u32-Writes st.mtime) (
                Writes->> (encode_u64-Writes st.length) (
                  Writes->> (encode_string-Writes st.name w.name_fits.1) (
                    Writes->> (encode_string-Writes st.uid w.uid_fits.1) (
                      Writes->> (encode_string-Writes st.gid w.gid_fits.1)
                        (encode_string-Writes st.muid w.muid_fits.1))))))))))

record AreBytes (bs : List Byte) : Type 0 where
  fit : All (λ b. b < 2 ^ 8) bs

append_fit :
    (xs ys : List Byte)
    → All (λ b. b < 2 ^ 8) xs
    → All (λ b. b < 2 ^ 8) ys
    → All (λ b. b < 2 ^ 8) (xs ++ ys)
append_fit [] ys hx hy = hy
append_fit (x ∷ xs) ys (hx, hxs) hy = (hx, append_fit xs ys hxs hy)

AreBytes-append : {xs ys : List Byte} → AreBytes xs → AreBytes ys → AreBytes (xs ++ ys)
AreBytes-append {xs} {ys} hx hy = record { fit = append_fit xs ys hx.fit hy.fit }

little_endian_fit : (n v : ℕ) → All (λ b. b < 2 ^ 8) (little_endian n v)
little_endian_fit zero v = tt
little_endian_fit (suc n) v = (omega arith, little_endian_fit n (v / 256))

little_endian-AreBytes : (n v : ℕ) → AreBytes (little_endian n v)
little_endian-AreBytes n v = record { fit = little_endian_fit n v }

chars_fit : (s : Text) → All (λ b. b < 2 ^ 8) (chars_bytes s)
chars_fit [] = tt
chars_fit (c ∷ s) = (omega arith, chars_fit s)

string_bytes-AreBytes : (s : Text) → AreBytes (string_bytes s)
unfolding string_bytes
string_bytes-AreBytes s =
    AreBytes-append (little_endian-AreBytes 2 (length s)) (record { fit = chars_fit s })

qid_bytes-AreBytes : (q : Qid) → AreBytes (qid_bytes q)
unfolding qid_bytes
qid_bytes-AreBytes q =
    AreBytes-append (little_endian-AreBytes 1 q.type)
      (AreBytes-append (little_endian-AreBytes 4 q.version) (little_endian-AreBytes 8 q.path))

stat_member_bytes-AreBytes : (st : Stat) → AreBytes (stat_member_bytes st)
unfolding stat_member_bytes
stat_member_bytes-AreBytes st = AreBytes-append (little_endian-AreBytes 2 st.type) (
    AreBytes-append (little_endian-AreBytes 4 st.dev) (
      AreBytes-append (qid_bytes-AreBytes st.qid) (
        AreBytes-append (little_endian-AreBytes 4 st.mode) (
          AreBytes-append (little_endian-AreBytes 4 st.atime) (
            AreBytes-append (little_endian-AreBytes 4 st.mtime) (
              AreBytes-append (little_endian-AreBytes 8 st.length) (
                AreBytes-append (string_bytes-AreBytes st.name) (
                  AreBytes-append (string_bytes-AreBytes st.uid) (
                    AreBytes-append (string_bytes-AreBytes st.gid)
                      (string_bytes-AreBytes st.muid))))))))))

abbrev start : IsWritable empty_stream
start = record { is_good = refl; at_end = refl }

pub encode_stat-Writes : (st : Stat) → IsStat st → Writes (encode_stat st) (stat_bytes st)
unfolding encode_stat stat_bytes
encode_stat-Writes st w = record {
  at = λ s ws. rw ((encode_stat_members-Writes st w).at empty_stream start) (framed.at s ws);
}
  where
    framed : Writes (encode_string (stat_member_bytes st)) (stat_bytes st)
    framed =
        Writes-eq (encode_string-Writes (stat_member_bytes st) w.whole_fits)
          (unfold string_bytes in rw (chars_bytes-text _ (stat_member_bytes-AreBytes st).fit))

pub decode_stat-Reads :
    (order : ArgumentOrder) (target st : Stat)
    → IsStat st
    → Reads (decode_stat order target) (stat_bytes st) (received_stat order target st)
unfolding decode_stat stat_bytes stat_member_bytes received_stat
decode_stat-Reads order target st w = Reads->>= _ (decode_u16-Reads _ w.whole_fits) (
    Reads->>= _ (decode_u16-Reads st.type w.type_fits) (
      Reads->>= _ (decode_u32-Reads st.dev w.dev_fits) (
        Reads->>= _ (decode_qid-Reads order target.qid st.qid w.qid_fits) (
          Reads->>= _ (decode_u32-Reads st.mode w.mode_fits) (
            Reads->>= _ (decode_u32-Reads st.atime w.atime_fits) (
              Reads->>= _ (decode_u32-Reads st.mtime w.mtime_fits) (
                Reads->>= _ (decode_u64-Reads order st.length w.length_fits) (
                  Reads->>= _ (decode_string-Reads target.name st.name w.name_fits) (
                    Reads->>= _ (decode_string-Reads target.uid st.uid w.uid_fits) (
                      Reads->>= _ (decode_string-Reads target.gid st.gid w.gid_fits) (
                        Reads-pure _
                          (decode_string-Reads target.muid st.muid w.muid_fits))))))))))))
