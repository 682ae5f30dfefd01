-- ===== src/Examples/Fields.antt =====
-- Bit fields and the text of exceptions.
use libkzr.Prelude.{◌≡◌, refl, arith}
use libkzr.Outcome.{only_wrote}
use libkzr.Core.{decode_bits, encode_bits}
use libkzr.Core.Fields.{field_mask, decode-encode_bits, decode-encode_bits_other}
use libkzr.Exception.{codes, message}

-- Three bits from bit 4 of a byte.
encode_runs : encode_bits 8 0x70 4 0xff 2 ≡ 0xaf
unfolding encode_bits
encode_runs = refl

decode-encode_bits_example :
    decode_bits 8 (field_mask 3 4) 4 (encode_bits 8 (field_mask 3 4) 4 0xff 5) ≡ 5
decode-encode_bits_example =
    decode-encode_bits 8 8 3 4 0xff 5 (omega arith) (omega arith) (omega arith)

decode-encode_bits_other_example :
    decode_bits 8 0x0f 0 (encode_bits 8 0x70 4 0xff 2) ≡ decode_bits 8 0x0f 0 0xff
decode-encode_bits_other_example =
    decode-encode_bits_other 8 8 0x70 4 0x0f 0 0xff 2 (omega arith) (omega arith) refl

-- There is no space in front of "bytes".
message_runs : message (only_wrote 12 700) ≡ codes "Only wrote 12bytes of a 700 bytes long message!"
unfolding message
message_runs = refl
