-- ===== src/Examples/Streams.antt =====
-- MessageStream on its own.
use libkzr.Prelude.{
  ℕ, ◌*◌, ◌^◌, ◌≤◌, ◌<◌, ◌≡◌, ◌↔◌, ◌⊎◌, refl, true, false, List, [], ◌∷◌, ◌++◌, arith, none, length,
}
use libkzr.Prelude.Bytes.{Byte, little_endian}
use libkzr.Outcome.{returns, undefined}
use libkzr.StringStream.{StringStream, empty_stream, good}
use libkzr.StringStream.Frame.{IsWritable}
use libkzr.MessageStream.{
  right_to_left, decode_u32, encode_u64, decode_u64, decode_string, peek, str, write,
}
use libkzr.MessageStream.Wire.{u64_as_read}
use libkzr.MessageStream.RoundTrip.{passed, decode_u64-encode_u64}
use libkzr.MessageStream.Storage.{peek-eq-none_iff}
use libkzr.MessageStream.Overwrite.{write_outcome}
use libkzr.MessageStream.Underflow.{decode_u32_outcome, decode_string_truncated}

empty-IsWritable : IsWritable empty_stream
empty-IsWritable = record { is_good = refl; at_end = refl }

abbrev holding : List Byte → StringStream
holding bs = record empty_stream { unread = bs; put_position = length bs }

decode_u64-encode_u64_example :
    decode_u64 right_to_left (encode_u64 5 empty_stream).1
    ≡ (returns (5 * 2 ^ 32), passed empty_stream (little_endian 8 5))
unfolding u64_as_read
decode_u64-encode_u64_example =
    decode_u64-encode_u64 right_to_left 5 empty_stream (omega arith) empty-IsWritable refl

peek-eq-none_iff_example : ((peek (holding (0 ∷ []))).0 ≡ returns none) ↔ (
    (good (holding (0 ∷ [])) ≡ true)
    × ((rest : List Byte) × ((holding (0 ∷ [])).unread ≡ 0 ∷ rest)))
peek-eq-none_iff_example = peek-eq-none_iff (holding (0 ∷ []))

abbrev ended : StringStream
ended = record empty_stream { eofbit = true }

write_outcome_example :
    ((write (1 ∷ 2 ∷ []) ended).0 ≡ returns tt)
    × (str (write (1 ∷ 2 ∷ []) ended).1 ≡ str ended)
    × ((write (1 ∷ 2 ∷ []) ended).1.put_position ≡ 0)
    × (good (write (1 ∷ 2 ∷ []) ended).1 ≡ false)
unfolding str
write_outcome_example = write_outcome (1 ∷ 2 ∷ []) ended (omega arith)

abbrev half : StringStream
half = holding (1 ∷ 2 ∷ [])

decode_u32_outcome_example :
    ((good half ≡ true)
      × ((4 ≤ length half.unread) × ((v : ℕ) × ((decode_u32 half).0 ≡ returns v))))
    ⊎ (((good half ≡ false) ⊎ (length half.unread < 4)) × ((decode_u32 half).0 ≡ undefined))
decode_u32_outcome_example = decode_u32_outcome half

abbrev cut : StringStream
cut = holding (little_endian 2 9 ++ (b'a' ∷ []))

decode_string_truncated_example : decode_string [] cut ≡ (
  returns [],
  record cut {
    taken = little_endian 2 9 ++ (b'a' ∷ []);
    unread = [];
    eofbit = true;
    failbit = true;
  },
)
decode_string_truncated_example =
    decode_string_truncated [] (b'a' ∷ []) 9 cut refl (omega arith) (omega arith) refl
