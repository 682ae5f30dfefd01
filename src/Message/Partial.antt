-- ===== src/Message/Partial.antt =====
-- What a message leaves in the stream when one of its parts is refused: `encode` throws behind the
-- parts that come first, and they stay written.
use libkzr.Prelude.{◌^◌, ◌%◌, ◌≤◌, ◌<◌, ◌≡◌, List, [], ◌∷◌, ◌++◌, length, All, arith, eq→==, refl}
use libkzr.Prelude.Bytes.{little_endian}
use libkzr.Outcome.{throws, string_too_long, storage_too_large}
use libkzr.StringStream.{StringStream}
use libkzr.StringStream.Frame.{Throws, IsWritable, append, Writes->>-Throws, Throws->>}
use libkzr.MessageStream.{Text, encode_string, encode_elements, encode_vector}
use libkzr.MessageStream.Wire.{string_bytes, elements_bytes}
use libkzr.MessageStream.Encode.{
  encode_u16-Writes, encode_u32-Writes, encode_u64-Writes, encode_string-Writes,
  encode_string-Throws,
}
use libkzr.Message.Parts.Wire.{header_bytes}
use libkzr.Message.Parts.Codec.{encode_header-Writes, encode_storage-Throws}
use libkzr.Message.File.{WalkRequest, WriteRequest, encode_walk_request, encode_write_request}

elements_Throws :
    (before after : List Text) (name : Text)
    → All (λ t. length t < 2 ^ 16) before
    → 2 ^ 16 ≤ length name
    → Throws
        (encode_elements encode_string (before ++ name ∷ after))
        (elements_bytes string_bytes before)
        (string_too_long (length name))
unfolding encode_elements
elements_Throws [] after name fit long = Throws->> _ (encode_string-Throws name long)
elements_Throws (t ∷ before) after name (h, fit) long =
    Writes->>-Throws (encode_string-Writes t h) (elements_Throws before after name fit long)

names_Throws :
    (before after : List Text) (name : Text)
    → length (before ++ name ∷ after) < 2 ^ 16
    → All (λ t. length t < 2 ^ 16) before
    → 2 ^ 16 ≤ length name
    → Throws
        (encode_vector encode_string (before ++ name ∷ after))
        (little_endian 2 (length (before ++ name ∷ after)) ++ elements_bytes string_bytes before)
        (string_too_long (length name))
unfolding encode_vector
names_Throws before after name few fit long =
    let n = length (before ++ name ∷ after) in
    let same : n % 2 ^ 16 ≡ n = omega arith in
    rw same (
      rw (eq→== n n refl)
        (Writes->>-Throws (encode_u16-Writes n) (elements_Throws before after name fit long)))

-- A walk request with fewer than 2 ^ 16 names, of which one does not fit a 16-bit length and those in
-- front of it do, encoded onto a writable stream: the exception tells the length of that name, and the
-- header, the fids, the count of all names and the names in front of it stay written.
pub encode_walk_request_long_name :
    (m : WalkRequest) (before after : List Text) (name : Text) (s : StringStream)
    → m.wname ≡ before ++ name ∷ after
    → length (before ++ name ∷ after) < 2 ^ 16
    → All (λ t. length t < 2 ^ 16) before
    → 2 ^ 16 ≤ length name
    → IsWritable s
    → encode_walk_request m s ≡ (
      throws (string_too_long (length name)),
      append s (
          header_bytes m.header
          ++ (little_endian 4 m.fid
              ++ (little_endian 4 m.newfid
                  ++ (little_endian 2 (length (before ++ name ∷ after))
                      ++ elements_bytes string_bytes before)))),
    )
unfolding encode_walk_request
encode_walk_request_long_name m before after name s e few fit long w = rw e (
    (Writes->>-Throws (encode_header-Writes m.header) (
        Writes->>-Throws (encode_u32-Writes m.fid) (
          Writes->>-Throws (encode_u32-Writes m.newfid)
            (names_Throws before after name few fit long)))).at
      s w)

-- A write request whose data do not fit a 32-bit length, encoded onto a writable stream, throws behind
-- its header, fid and offset, which stay written.
pub encode_write_request_too_large :
    (m : WriteRequest) (s : StringStream)
    → 2 ^ 32 ≤ length m.stored
    → IsWritable s
    → encode_write_request m s ≡ (
      throws storage_too_large,
      append s (header_bytes m.header ++ (little_endian 4 m.fid ++ little_endian 8 m.offset)),
    )
unfolding encode_write_request
encode_write_request_too_large m s large w =
    (Writes->>-Throws (encode_header-Writes m.header) (
        Writes->>-Throws (encode_u32-Writes m.fid) (
          Writes->>-Throws (encode_u64-Writes m.offset) (encode_storage-Throws m.stored large)))).at
      s w
