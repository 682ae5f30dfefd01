-- ===== src/Message/Parts/Codec.antt =====
-- The shared parts write their bytes, and read back what was written.
use libkzr.Prelude.{
  ◌%◌, ◌^◌, ◌≤◌, ◌<◌, ◌≡◌, refl, List, [], ◌∷◌, ◌++◌, map, length, All, arith, eq→==, ne→==,
}
use libkzr.Prelude.Bytes.{Byte, little_endian}
use libkzr.Outcome.{storage_too_large}
use libkzr.StringStream.Frame.{
  Writes, Throws, Reads, Writes->>, Reads->>=, Reads-pure, throw-Throws,
}
use libkzr.MessageStream.{ArgumentOrder, encode_u8, decode_u8}
use libkzr.MessageStream.Wire.{chars_bytes, elements_bytes}
use libkzr.MessageStream.Encode.{
  encode_u8-Writes, encode_u16-Writes, encode_u32-Writes, encode_u64-Writes, encode_elements-Writes,
  Writes-eq,
}
use libkzr.MessageStream.Decode.{
  decode_u8-Reads, decode_u16-Reads, decode_u32-Reads, decode_u64-Reads, decode_elements-Reads,
  Reads-eq,
}
use libkzr.Message.Parts.{
  Qid, MessageHeader, encode_qid, decode_qid, encode_header, decode_header, encode_storage,
  decode_storage,
}
use libkzr.Message.Parts.Wire.{
  IsQid, qid_bytes, received_qid, IsHeader, header_bytes, IsStorage, storage_bytes,
}

pub encode_qid-Writes : (q : Qid) → Writes (encode_qid q) (qid_bytes q)
unfolding encode_qid qid_bytes
encode_qid-Writes q =
    Writes->> (encode_u8-Writes q.type)
      (Writes->> (encode_u32-Writes q.version) (encode_u64-Writes q.path))

pub decode_qid-Reads :
    (order : ArgumentOrder) (target q : Qid)
    → IsQid q
    → Reads (decode_qid order target) (qid_bytes q) (received_qid order q)
unfolding decode_qid qid_bytes received_qid
decode_qid-Reads order target q w = Reads->>= _ (decode_u8-Reads q.type w.type_fits) (
    Reads->>= _ (decode_u32-Reads q.version w.version_fits)
      (Reads-pure _ (decode_u64-Reads order q.path w.path_fits)))

pub encode_header-Writes : (h : MessageHeader) → Writes (encode_header h) (header_bytes h)
unfolding encode_header header_bytes
encode_header-Writes h = Writes->> (encode_u8-Writes h.op) (encode_u16-Writes h.tag)

pub decode_header-Reads :
    (target h : MessageHeader) → IsHeader h → Reads (decode_header target) (header_bytes h) h
unfolding decode_header header_bytes
decode_header-Reads target h w =
    Reads->>= _ (decode_u8-Reads h.op w.op_fits) (Reads-pure _ (decode_u16-Reads h.tag w.tag_fits))

byte_elements : (stored : List Byte) → elements_bytes (little_endian 1) stored ≡ chars_bytes stored
byte_elements [] = refl
byte_elements (b ∷ stored) = rw (byte_elements stored)

byte-Writes : (stored : List Byte) → All (λ b. Writes (encode_u8 b) (little_endian 1 b)) stored
byte-Writes [] = tt
byte-Writes (b ∷ stored) = (encode_u8-Writes b, byte-Writes stored)

byte-Reads :
    (stored : List Byte)
    → All (λ b. b < 2 ^ 8) stored
    → All (λ b. Reads decode_u8 (little_endian 1 b) b) stored
byte-Reads [] h = tt
byte-Reads (b ∷ stored) (hb, h) = (decode_u8-Reads b hb, byte-Reads stored h)

map_same : (stored : List Byte) → map (λ b. b) stored ≡ stored
map_same [] = refl
map_same (b ∷ stored) = rw (map_same stored)

pub encode_storage-Writes :
    (stored : List Byte) → IsStorage stored → Writes (encode_storage stored) (storage_bytes stored)
unfolding encode_storage storage_bytes
encode_storage-Writes stored w =
    let fits : length stored % 2 ^ 32 ≡ length stored = omega (arith, w.size_fits) in
    rw fits (
      rw (eq→== (length stored) (length stored) refl) (
        Writes->> (encode_u32-Writes (length stored)) (
          Writes-eq (encode_elements-Writes _ _ stored (byte-Writes stored))
            (byte_elements stored))))

pub encode_storage-Throws :
    (stored : List Byte)
    → 2 ^ 32 ≤ length stored
    → Throws (encode_storage stored) [] storage_too_large
unfolding encode_storage
encode_storage-Throws stored h =
    rw (ne→== (length stored % 2 ^ 32) (length stored) (omega arith)) (throw-Throws _)

-- The bytes are added behind those that the target holds.
pub decode_storage-Reads :
    (target stored : List Byte)
    → IsStorage stored
    → Reads (decode_storage target) (storage_bytes stored) (target ++ stored)
unfolding decode_storage storage_bytes
decode_storage-Reads target stored w = Reads->>= _ (decode_u32-Reads (length stored) w.size_fits) (
    Reads-eq
      (decode_elements-Reads (λ _. decode_u8) 0 (little_endian 1) (λ b. b) stored target
        (byte-Reads stored w.bytes_fit))
      (byte_elements stored) (rw (map_same stored)))
