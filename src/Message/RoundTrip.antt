-- ===== src/Message/RoundTrip.antt =====
-- Parts of messages, and messages with vectors, sent into a stream and taken out of it again.
use libkzr.Prelude.{◌≡◌, ◌≤◌, ◌^◌, ◌%◌, List, [], ◌++◌, ne→==, arith, length}
use libkzr.Prelude.Bytes.{Byte}
use libkzr.Outcome.{returns, throws, storage_too_large}
use libkzr.StringStream.{StringStream}
use libkzr.StringStream.Frame.{IsWritable}
use libkzr.MessageStream.{ArgumentOrder}
use libkzr.MessageStream.RoundTrip.{round_trip, passed}
use libkzr.Message.Parts.{Stat, encode_stat, decode_stat, encode_storage, decode_storage}
use libkzr.Message.Parts.Wire.{IsStat, stat_bytes, received_stat, IsStorage, storage_bytes}
use libkzr.Message.Parts.Codec.{encode_storage-Writes, decode_storage-Reads}
use libkzr.Message.Parts.StatCodec.{encode_stat-Writes, decode_stat-Reads}
use libkzr.Message.File.{
  WalkRequest, WalkResponse, encode_walk_request, decode_walk_request, encode_walk_response,
  decode_walk_response,
}
use libkzr.Message.File.Wire.{
  IsWalkRequest, walk_request_bytes, received_walk_request, IsWalkResponse, walk_response_bytes,
  received_walk_response,
}
use libkzr.Message.File.Codec.{
  encode_walk_request-Writes, decode_walk_request-Reads, encode_walk_response-Writes,
  decode_walk_response-Reads,
}

-- Through a writable stream whose input is used up, a Stat that fits the wire decodes as itself but
-- for its texts, which go over those of the target, and its 64-bit numbers, which the argument order
-- may swap. The length in front of it is read and not used.
pub decode_stat-encode_stat :
    (order : ArgumentOrder) (target st : Stat) (s : StringStream)
    → IsStat st
    → IsWritable s
    → s.unread ≡ []
    → decode_stat order target (encode_stat st s).1
      ≡ (returns (received_stat order target st), passed s (stat_bytes st))
decode_stat-encode_stat order target st s w =
    round_trip (encode_stat-Writes st w) (decode_stat-Reads order target st w) s

-- Through a writable stream whose input is used up, the data of a read or a write that fit a 32-bit
-- length arrive whole, behind the data that the target already held.
decode_storage-encode_storage :
    (target stored : List Byte) (s : StringStream)
    → IsStorage stored
    → IsWritable s
    → s.unread ≡ []
    → decode_storage target (encode_storage stored s).1
      ≡ (returns (target ++ stored), passed s (storage_bytes stored))
decode_storage-encode_storage target stored s w =
    round_trip (encode_storage-Writes stored w) (decode_storage-Reads target stored w) s

-- Data that a 32-bit length cannot describe are refused, and nothing is written.
pub encode_storage_too_large :
    (stored : List Byte) (s : StringStream)
    → 2 ^ 32 ≤ length stored
    → encode_storage stored s ≡ (throws storage_too_large, s)
unfolding encode_storage
encode_storage_too_large stored s h =
    rw (ne→== (length stored % 2 ^ 32) (length stored) (omega arith))

-- Through a writable stream whose input is used up, a walk request that fits the wire arrives with
-- its fids, and with as many names as were sent, added behind the target's and all of them empty.
pub decode-encode_walk_request :
    (target m : WalkRequest) (s : StringStream)
    → IsWalkRequest m
    → IsWritable s
    → s.unread ≡ []
    → decode_walk_request target (encode_walk_request m s).1
      ≡ (returns (received_walk_request target m), passed s (walk_request_bytes m))
decode-encode_walk_request target m s w =
    round_trip (encode_walk_request-Writes m w) (decode_walk_request-Reads target m w) s

-- Through a writable stream whose input is used up, a walk response that fits the wire arrives with
-- its qids, added behind the target's.
pub decode-encode_walk_response :
    (order : ArgumentOrder) (target m : WalkResponse) (s : StringStream)
    → IsWalkResponse m
    → IsWritable s
    → s.unread ≡ []
    → decode_walk_response order target (encode_walk_response m s).1
      ≡ (returns (received_walk_response order target m), passed s (walk_response_bytes m))
decode-encode_walk_response order target m s w =
    round_trip (encode_walk_response-Writes m w) (decode_walk_response-Reads order target m w) s
