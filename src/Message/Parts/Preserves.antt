-- ===== src/Message/Parts/Preserves.antt =====
-- The decoders of the shared parts change no byte of the stream.
use libkzr.Prelude.Bytes.{Byte}
use libkzr.Prelude.{List}
use libkzr.StringStream.Preserves.{Preserves, Preserves-pure, Preserves->>=}
use libkzr.MessageStream.{ArgumentOrder, decode_u8}
use libkzr.MessageStream.Preserves.{
  decode_u8-Preserves, decode_u16-Preserves, decode_u32-Preserves, decode_u64-Preserves,
  decode_string-Preserves, decode_elements-Preserves,
}
use libkzr.Message.Parts.{
  Qid, MessageHeader, Stat, decode_qid, decode_header, decode_storage, decode_stat,
}

pub decode_qid-Preserves : (order : ArgumentOrder) (q : Qid) → Preserves (decode_qid order q)
unfolding decode_qid
decode_qid-Preserves order q =
    Preserves->>=
      (λ t.
        Preserves->>= (λ v. Preserves->>= (λ p. Preserves-pure _) (decode_u64-Preserves order))
          decode_u32-Preserves)
      decode_u8-Preserves

pub decode_header-Preserves : (h : MessageHeader) → Preserves (decode_header h)
unfolding decode_header
decode_header-Preserves h =
    Preserves->>= (λ op. Preserves->>= (λ tag. Preserves-pure _) decode_u16-Preserves)
      decode_u8-Preserves

pub decode_storage-Preserves : (stored : List Byte) → Preserves (decode_storage stored)
unfolding decode_storage
decode_storage-Preserves stored =
    Preserves->>=
      (λ size. decode_elements-Preserves (λ _. decode_u8) 0 decode_u8-Preserves size stored)
      decode_u32-Preserves

pub decode_stat-Preserves : (order : ArgumentOrder) (st : Stat) → Preserves (decode_stat order st)
unfolding decode_stat
decode_stat-Preserves order st =
    Preserves->>=
      (λ len.
        Preserves->>=
          (λ type.
            Preserves->>=
              (λ dev.
                Preserves->>=
                  (λ qid.
                    Preserves->>=
                      (λ mode.
                        Preserves->>=
                          (λ atime.
                            Preserves->>=
                              (λ mtime.
                                Preserves->>=
                                  (λ length.
                                    Preserves->>=
                                      (λ name.
                                        Preserves->>=
                                          (λ uid.
                                            Preserves->>=
                                              (λ gid.
                                                Preserves->>= (λ muid. Preserves-pure _)
                                                  (decode_string-Preserves st.muid))
                                              (decode_string-Preserves st.gid))
                                          (decode_string-Preserves st.uid))
                                      (decode_string-Preserves st.name))
                                  (decode_u64-Preserves order))
                              decode_u32-Preserves)
                          decode_u32-Preserves)
                      decode_u32-Preserves)
                  (decode_qid-Preserves order st.qid))
              decode_u32-Preserves)
          decode_u16-Preserves)
      decode_u16-Preserves
