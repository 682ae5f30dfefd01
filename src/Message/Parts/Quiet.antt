-- ===== src/Message/Parts/Quiet.antt =====
-- No decoder of a part of a message throws.
use libkzr.Prelude.{List}
use libkzr.Prelude.Bytes.{Byte}
use libkzr.Outcome.NeverThrows.{NeverThrows, NeverThrows-pure, NeverThrows->>=}
use libkzr.MessageStream.{ArgumentOrder, decode_u8}
use libkzr.MessageStream.Quiet.{
  decode_u8-NeverThrows, decode_u16-NeverThrows, decode_u32-NeverThrows, decode_u64-NeverThrows,
  decode_string-NeverThrows, decode_elements-NeverThrows,
}
use libkzr.Message.Parts.{
  MessageHeader, Qid, Stat, decode_operation, decode_header, decode_qid, decode_storage,
  decode_stat,
}

pub decode_header-NeverThrows : (h : MessageHeader) → NeverThrows (decode_header h)
unfolding decode_header decode_operation
decode_header-NeverThrows h =
    NeverThrows->>= (λ _. NeverThrows->>= (λ _. NeverThrows-pure _) decode_u16-NeverThrows)
      decode_u8-NeverThrows

pub decode_qid-NeverThrows : (order : ArgumentOrder) (m : Qid) → NeverThrows (decode_qid order m)
unfolding decode_qid
decode_qid-NeverThrows order m =
    NeverThrows->>=
      (λ _.
        NeverThrows->>=
          (λ _. NeverThrows->>= (λ _. NeverThrows-pure _) (decode_u64-NeverThrows order))
          decode_u32-NeverThrows)
      decode_u8-NeverThrows

pub decode_storage-NeverThrows : (stored : List Byte) → NeverThrows (decode_storage stored)
unfolding decode_storage
decode_storage-NeverThrows stored =
    NeverThrows->>=
      (λ size. decode_elements-NeverThrows (λ _. decode_u8) 0 decode_u8-NeverThrows size stored)
      decode_u32-NeverThrows

pub decode_stat-NeverThrows : (order : ArgumentOrder) (m : Stat) → NeverThrows (decode_stat order m)
unfolding decode_stat
decode_stat-NeverThrows order m =
    NeverThrows->>=
      (λ _.
        NeverThrows->>=
          (λ _.
            NeverThrows->>=
              (λ _.
                NeverThrows->>=
                  (λ _.
                    NeverThrows->>=
                      (λ _.
                        NeverThrows->>=
                          (λ _.
                            NeverThrows->>=
                              (λ _.
                                NeverThrows->>=
                                  (λ _.
                                    NeverThrows->>=
                                      (λ _.
                                        NeverThrows->>=
                                          (λ _.
                                            NeverThrows->>=
                                              (λ _.
                                                NeverThrows->>= (λ _. NeverThrows-pure _)
                                                  (decode_string-NeverThrows m.muid))
                                              (decode_string-NeverThrows m.gid))
                                          (decode_string-NeverThrows m.uid))
                                      (decode_string-NeverThrows m.name))
                                  (decode_u64-NeverThrows order))
                              decode_u32-NeverThrows)
                          decode_u32-NeverThrows)
                      decode_u32-NeverThrows)
                  (decode_qid-NeverThrows order m.qid))
              decode_u32-NeverThrows)
          decode_u16-NeverThrows)
      decode_u16-NeverThrows
