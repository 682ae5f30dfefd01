-- ===== src/MessageStream.antt =====
-- MessageStream.h and MessageStream.cc. The class has one member, the stringstream `_storage`; its
-- methods are actions on that. A value is a number below 2 ^ w, a std::string the list of its bytes.
pub mod Wire
pub mod Encode
pub mod Decode
pub mod Preserves
pub mod Bounded
pub mod Layout
pub mod Quiet
pub mod Prefix
pub mod Storage
pub mod Overwrite
pub mod Underflow
pub mod RoundTrip
use libkzr.Prelude.{
  ℕ, zero, suc, ◌+◌, ◌*◌, ◌/◌, ◌%◌, ◌^◌, bit_or, Bool, true, false, ◌||◌, Option, none, some, List,
  [], ◌∷◌, ◌++◌, length, ◌==◌, if◌then◌else◌,
}
use libkzr.Prelude.Bytes.{Byte}
use libkzr.Outcome.{
  Action, Outcome, returns, throws, undefined, pure, throw, undefined_behaviour, continue, ◌>>=◌,
  ◌>>◌, string_too_long, vector_too_long, bad_bit_during_write,
}
use libkzr.StringStream
use libkzr.StringStream.{StringStream, contents}

abbrev pub Text : Type 0
Text = List Byte

abbrev pub OnStream : Type 0 → Type 0
OnStream A = Action StringStream A

-- uint16_t(~0)
abbrev pub notag : ℕ
notag = 0xffff

-- The four overloads of `build`, by the width of the result.
unfoldable pub build_u16 : ℕ → ℕ → ℕ
build_u16 lower upper = bit_or (upper * 2 ^ 8) lower

unfoldable pub build_u32 : ℕ → ℕ → ℕ
build_u32 lower upper = bit_or (upper * 2 ^ 16) lower

unfoldable pub build_u32_from_bytes : Byte → Byte → Byte → Byte → ℕ
unfolding build_u16 build_u32
build_u32_from_bytes lowest lower high highest =
    build_u32 (build_u16 lowest lower) (build_u16 high highest)

unfoldable pub build_u64 : ℕ → ℕ → ℕ
build_u64 lower upper = bit_or (upper * 2 ^ 32) lower

unfoldable pub encode_u8 : ℕ → OnStream (Unit {0})
encode_u8 value = StringStream.put (value % 2 ^ 8)

unfoldable pub encode_u16 : ℕ → OnStream (Unit {0})
encode_u16 value = do StringStream.put (value % 2 ^ 8); StringStream.put (value / 2 ^ 8 % 2 ^ 8)

unfoldable pub encode_u32 : ℕ → OnStream (Unit {0})
unfolding encode_u16
encode_u32 value = do encode_u16 (value % 2 ^ 16); encode_u16 (value / 2 ^ 16 % 2 ^ 16)

unfoldable pub encode_u64 : ℕ → OnStream (Unit {0})
unfolding encode_u32
encode_u64 value = do encode_u32 (value % 2 ^ 32); encode_u32 (value / 2 ^ 32 % 2 ^ 32)

unfoldable pub encode_chars : Text → OnStream (Unit {0})
unfolding encode_u8
encode_chars [] = pure tt
encode_chars (c ∷ cs) = do encode_u8 c; encode_chars cs

unfoldable pub encode_string : Text → OnStream (Unit {0})
unfolding encode_u16 encode_chars
encode_string value =
    let len = length value % 2 ^ 16 in
    if len == length value
    then (do encode_u16 len; encode_chars value)
    else throw (string_too_long (length value))

-- Where a read gave no character, the local array has no value.
unfoldable pub assigned : Option Byte → OnStream Byte
assigned none = undefined_behaviour
assigned (some c) = pure c

unfoldable pub decode_u8 : OnStream ℕ
unfolding assigned
decode_u8 = do c ← StringStream.get; assigned c

unfoldable pub two_bytes : List Byte → OnStream ℕ
unfolding build_u16
two_bytes (a ∷ b ∷ []) = pure (build_u16 a b)
two_bytes _ = undefined_behaviour

unfoldable pub decode_u16 : OnStream ℕ
unfolding two_bytes
decode_u16 = do storage ← StringStream.read 2; two_bytes storage

unfoldable pub four_bytes : List Byte → OnStream ℕ
unfolding build_u32_from_bytes
four_bytes (a ∷ b ∷ c ∷ d ∷ []) = pure (build_u32_from_bytes a b c d)
four_bytes _ = undefined_behaviour

unfoldable pub decode_u32 : OnStream ℕ
unfolding four_bytes
decode_u32 = do storage ← StringStream.read 4; four_bytes storage

-- `build(decode<uint32_t>(), decode<uint32_t>())` leaves the order of its two calls to the compiler.
pub data ArgumentOrder : Type 0 where
  left_to_right right_to_left : ArgumentOrder

unfoldable pub decode_u64 : ArgumentOrder → OnStream ℕ
unfolding decode_u32 build_u64
decode_u64 left_to_right = do lower ← decode_u32; upper ← decode_u32; pure (build_u64 lower upper)
decode_u64 right_to_left = do upper ← decode_u32; lower ← decode_u32; pure (build_u64 lower upper)

-- `_storage.read(data.data(), len)` writes over the characters of `data`. `reserve` has made room for
-- `len` of them, but the size of the string stays: what lands behind its end is not part of its value.
abbrev pub overlay : Text → Text → Text
overlay chars [] = []
overlay [] (d ∷ ds) = d ∷ ds
overlay (c ∷ cs) (d ∷ ds) = c ∷ overlay cs ds

unfoldable pub decode_string : Text → OnStream Text
unfolding decode_u16
decode_string text = do len ← decode_u16; chars ← StringStream.read len; pure (overlay chars text)

module _ {A : Type 0} where
  unfoldable pub encode_elements : (A → OnStream (Unit {0})) → List A → OnStream (Unit {0})
  encode_elements encode [] = pure tt
  encode_elements encode (c ∷ cs) = do encode c; encode_elements encode cs

  unfoldable pub encode_vector : (A → OnStream (Unit {0})) → List A → OnStream (Unit {0})
  unfolding encode_u16 encode_elements
  encode_vector encode collec =
      let len = length collec % 2 ^ 16 in
      if len == length collec
      then (do encode_u16 len; encode_elements encode collec)
      else throw (vector_too_long (length collec))

  -- `fresh` is what `emplace_back()` puts at the end; the loop has `n` rounds left.
  unfoldable pub decode_elements : (A → OnStream A) → A → ℕ → List A → OnStream (List A)
  decode_elements decode fresh zero collec = pure collec
  decode_elements decode fresh (suc n) collec = do
    c ← decode fresh
    decode_elements decode fresh n (collec ++ c ∷ [])

  unfoldable pub decode_vector : (A → OnStream A) → A → List A → OnStream (List A)
  unfolding decode_u16 decode_elements
  decode_vector decode fresh collec = do len ← decode_u16; decode_elements decode fresh len collec

unfoldable pub str : StringStream → Text
str s = contents s

unfoldable pub set_str : Text → OnStream (Unit {0})
set_str input = StringStream.set_contents input

unfoldable pub reset : OnStream (Unit {0})
reset = StringStream.set_contents []

unfoldable pub write : Text → OnStream (Unit {0})
write text s =
    (StringStream.write text >>= λ _ t.
    if t.badbit then throw bad_bit_during_write t else pure tt t)
      s

-- The characters that `read` stored, and the count that it returns.
unfoldable pub read : ℕ → OnStream (Text × ℕ)
read count s =
    (StringStream.read count >>= λ chars t.
    if (t.failbit || t.badbit) || t.eofbit
    then (StringStream.clear >> pure (chars, length chars)) t
    else pure (chars, count) t)
      s

-- `result != _storage.eof()` compares with the Boolean `eof()`, which is 0 or 1. The end of the
-- stream, -1, differs from both, and becomes 0xff as a uint8_t.
unfoldable pub unless_eof : Option Byte → Bool → Option Byte
unless_eof none eof = some 0xff
unless_eof (some c) eof = if c == (if eof then 1 else 0) then none else some c

unfoldable pub peek : OnStream (Option Byte)
unfolding unless_eof
peek s = (StringStream.peek >>= λ result t. pure (unless_eof result t.eofbit) t) s
