-- ===== src/Message/Parts/Vectors.antt =====
-- Vectors of texts and of qids, as WalkRequest and WalkResponse hold them.
use libkzr.Prelude.{List, [], ◌∷◌, ◌++◌, map, All}
use libkzr.StringStream.Frame.{Writes, Reads}
use libkzr.MessageStream.{
  Text, ArgumentOrder, overlay, encode_string, decode_string, encode_vector, decode_vector,
}
use libkzr.MessageStream.Wire.{IsText, string_bytes, vector_bytes}
use libkzr.MessageStream.Encode.{encode_string-Writes, encode_vector-Writes}
use libkzr.MessageStream.Decode.{decode_string-Reads, decode_vector-Reads}
use libkzr.Message.Parts.{Qid, fresh_qid, encode_qid, decode_qid}
use libkzr.Message.Parts.Wire.{IsQid, qid_bytes, received_qid, IsVector}
use libkzr.Message.Parts.Codec.{encode_qid-Writes, decode_qid-Reads}

text-Writes :
    (xs : List Text) → All IsText xs → All (λ s. Writes (encode_string s) (string_bytes s)) xs
text-Writes [] h = tt
text-Writes (s ∷ xs) (hs, h) = (encode_string-Writes s hs.1, text-Writes xs h)

text-Reads :
    (xs : List Text)
    → All IsText xs
    → All (λ s. Reads (decode_string []) (string_bytes s) (overlay s [])) xs
text-Reads [] h = tt
text-Reads (s ∷ xs) (hs, h) = (decode_string-Reads [] s hs, text-Reads xs h)

pub encode_texts-Writes :
    (xs : List Text)
    → IsVector IsText xs
    → Writes (encode_vector encode_string xs) (vector_bytes string_bytes xs)
encode_texts-Writes xs w =
    encode_vector-Writes encode_string string_bytes xs w.count_fits (text-Writes xs w.elements_fit)

pub decode_texts-Reads :
    (target xs : List Text)
    → IsVector IsText xs
    → Reads
        (decode_vector decode_string [] target)
        (vector_bytes string_bytes xs)
        (target ++ map (λ s. overlay s []) xs)
decode_texts-Reads target xs w =
    decode_vector-Reads decode_string [] string_bytes (λ s. overlay s []) xs target w.count_fits
      (text-Reads xs w.elements_fit)

qid-Writes : (xs : List Qid) → All (λ q. Writes (encode_qid q) (qid_bytes q)) xs
qid-Writes [] = tt
qid-Writes (q ∷ xs) = (encode_qid-Writes q, qid-Writes xs)

module _ (order : ArgumentOrder) where
  qid-Reads :
      (xs : List Qid)
      → All IsQid xs
      → All (λ q. Reads (decode_qid order fresh_qid) (qid_bytes q) (received_qid order q)) xs
  qid-Reads [] h = tt
  qid-Reads (q ∷ xs) (hq, h) = (decode_qid-Reads order fresh_qid q hq, qid-Reads xs h)

  pub decode_qids-Reads :
      (target xs : List Qid)
      → IsVector IsQid xs
      → Reads
          (decode_vector (decode_qid order) fresh_qid target)
          (vector_bytes qid_bytes xs)
          (target ++ map (received_qid order) xs)
  decode_qids-Reads target xs w =
      decode_vector-Reads (decode_qid order) fresh_qid qid_bytes (received_qid order) xs target
        w.count_fits (qid-Reads xs w.elements_fit)

pub encode_qids-Writes :
    (xs : List Qid)
    → IsVector IsQid xs
    → Writes (encode_vector encode_qid xs) (vector_bytes qid_bytes xs)
encode_qids-Writes xs w = encode_vector-Writes encode_qid qid_bytes xs w.count_fits (qid-Writes xs)
