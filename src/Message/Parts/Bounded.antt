-- ===== src/Message/Parts/Bounded.antt =====
-- The parts of a message that are decoded from bytes fit the wire.
use libkzr.Prelude.{◌<◌, ◌^◌, ◌≡◌, List, [], All, length, arith}
use libkzr.StringStream.Bounded.{Bounded, Bounded-pure, Bounded->>=, Bounded-map}
use libkzr.MessageStream.{OnStream, ArgumentOrder, decode_u8}
use libkzr.MessageStream.Wire.{string_bytes}
use libkzr.MessageStream.Bounded.{
  decode_u8-Bounded, decode_u16-Bounded, decode_u32-Bounded, decode_u64-Bounded,
  decode_string-Bounded, decode_elements-Bounded, empty-IsText,
}
use libkzr.Message.Parts.{
  MessageHeader, Qid, Stat, fresh_qid, fresh_stat, decode_operation, decode_header, decode_qid,
  decode_storage, decode_stat,
}
use libkzr.Message.Parts.Wire.{
  IsHeader, IsQid, IsStorage, IsStat, IsVector, stat_member_bytes, qid_bytes,
}

pub decode_header-Bounded : (h : MessageHeader) → Bounded IsHeader (decode_header h)
unfolding decode_header decode_operation
decode_header-Bounded h = Bounded->>= decode_u8-Bounded (λ op o.
    Bounded->>= decode_u16-Bounded (λ tag t. Bounded-pure _ (record { op_fits = o; tag_fits = t })))

pub decode_qid-Bounded : (order : ArgumentOrder) (q : Qid) → Bounded IsQid (decode_qid order q)
unfolding decode_qid
decode_qid-Bounded order q = Bounded->>= decode_u8-Bounded (λ type t.
    Bounded->>= decode_u32-Bounded (λ version v.
      Bounded->>= (decode_u64-Bounded order)
        (λ path p. Bounded-pure _ (record { type_fits = t; version_fits = v; path_fits = p }))))

pub decode_storage-Bounded : Bounded IsStorage (decode_storage [])
unfolding decode_storage
decode_storage-Bounded = Bounded->>= decode_u32-Bounded (λ size h.
    Bounded-map (λ xs (b, n). record { bytes_fit = b; size_fits = n })
      (decode_elements-Bounded (λ _. decode_u8) 0 decode_u8-Bounded (2 ^ 32) size [] tt
        (omega arith)))

pub IsVector-Bounded :
    {A : Type 0} {P : A → Type 0} {m : OnStream (List A)}
    → Bounded (λ xs. All P xs × (length xs < 2 ^ 16)) m
    → Bounded (IsVector P) m
IsVector-Bounded b = Bounded-map (λ xs (e, n). record { elements_fit = e; count_fits = n }) b

-- The members of a Stat without texts have 49 bytes.
textless_fits :
    (st : Stat)
    → st.name ≡ []
    → st.uid ≡ []
    → st.gid ≡ []
    → st.muid ≡ []
    → length (stat_member_bytes st) < 2 ^ 16
unfolding stat_member_bytes string_bytes qid_bytes
textless_fits st a b c d = rw (a, b, c, d) (omega arith)

pub decode_stat-Bounded : (order : ArgumentOrder) → Bounded IsStat (decode_stat order fresh_stat)
unfolding decode_stat
decode_stat-Bounded order = Bounded->>= decode_u16-Bounded (λ _ _.
    Bounded->>= decode_u16-Bounded (λ x_type type_ok.
      Bounded->>= decode_u32-Bounded (λ x_dev dev_ok.
        Bounded->>= (decode_qid-Bounded order fresh_qid) (λ x_qid qid_ok.
          Bounded->>= decode_u32-Bounded (λ x_mode mode_ok.
            Bounded->>= decode_u32-Bounded (λ x_atime atime_ok.
              Bounded->>= decode_u32-Bounded (λ x_mtime mtime_ok.
                Bounded->>= (decode_u64-Bounded order) (λ x_length length_ok.
                  Bounded->>= decode_string-Bounded (λ x_name name_ok.
                    Bounded->>= decode_string-Bounded (λ x_uid uid_ok.
                      Bounded->>= decode_string-Bounded (λ x_gid gid_ok.
                        Bounded->>= decode_string-Bounded (λ x_muid muid_ok.
                          Bounded-pure _ (record {
                            type_fits = type_ok;
                            dev_fits = dev_ok;
                            qid_fits = qid_ok;
                            mode_fits = mode_ok;
                            atime_fits = atime_ok;
                            mtime_fits = mtime_ok;
                            length_fits = length_ok;
                            name_fits = empty-IsText _ name_ok;
                            uid_fits = empty-IsText _ uid_ok;
                            gid_fits = empty-IsText _ gid_ok;
                            muid_fits = empty-IsText _ muid_ok;
                            whole_fits = textless_fits _ name_ok uid_ok gid_ok muid_ok;
                          })))))))))))))
