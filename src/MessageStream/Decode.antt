-- ===== src/MessageStream/Decode.antt =====
-- What the decoders of MessageStream read back from the bytes of a value.
use libkzr.Prelude.{
  ℕ, ◌/◌, ◌%◌, ◌^◌, ◌<◌, ◌≡◌, refl, sym, List, [], ◌∷◌, ◌++◌, map, length, All, arith, append_assoc,
  append-nil,
}
use libkzr.Prelude.Bytes.{Byte, little_endian}
use libkzr.Outcome.{◌>>=◌}
use libkzr.StringStream
use libkzr.StringStream.{StringStream}
use libkzr.StringStream.Frame.{Reads, Reads->>=, Reads-pure, Reads-returns, get-Reads, read-Reads}
use libkzr.MessageStream.{
  Text, OnStream, ArgumentOrder, left_to_right, right_to_left, decode_u8, decode_u16, decode_u32,
  decode_u64, decode_string, decode_elements, decode_vector, overlay, build_u64,
}
use libkzr.MessageStream.Wire.{
  IsText, chars_bytes, chars_bytes-text, length-chars_bytes, string_bytes, elements_bytes,
  vector_bytes, u64_as_read, build_u16-bytes, build_u32-bytes, build_u64-halves, split_u64,
}

-- A reading of some bytes is a reading of equal ones, and gives any equal value.
pub Reads-eq :
    {A : Type 0} {p : OnStream A} {bs cs : List Byte} {a b : A}
    → Reads p bs a
    → bs ≡ cs
    → a ≡ b
    → Reads p cs b
Reads-eq r e f = rw (← e, ← f) r

pub decode_u8-Reads : (v : ℕ) → v < 2 ^ 8 → Reads decode_u8 (little_endian 1 v) v
unfolding decode_u8 ◌>>=◌
decode_u8-Reads v h = Reads-eq read_back refl (omega arith)
  where
    read_back : Reads decode_u8 (little_endian 1 v) (v % 256)
    read_back = record { at = λ s rest g e. rw ((get-Reads (v % 256)).at s rest g e) }

pub decode_u16-Reads : (v : ℕ) → v < 2 ^ 16 → Reads decode_u16 (little_endian 2 v) v
unfolding decode_u16 ◌>>=◌
decode_u16-Reads v h = record {
  at = λ s rest g e. rw ((read-Reads (little_endian 2 v)).at s rest g e) (rw (build_u16-bytes v h));
}

pub decode_u32-Reads : (v : ℕ) → v < 2 ^ 32 → Reads decode_u32 (little_endian 4 v) v
unfolding decode_u32 ◌>>=◌
decode_u32-Reads v h = record {
  at = λ s rest g e. rw ((read-Reads (little_endian 4 v)).at s rest g e) (rw (build_u32-bytes v h));
}

-- Both orders read the first four bytes first; they differ in which half they take them for.
pub decode_u64-Reads :
    (order : ArgumentOrder) (v : ℕ)
    → v < 2 ^ 64
    → Reads (decode_u64 order) (little_endian 8 v) (u64_as_read order v)
unfolding decode_u64 u64_as_read
decode_u64-Reads left_to_right v h =
    let low = v % 2 ^ 32 in
    let high = v / 2 ^ 32 % 2 ^ 32 in
    Reads-eq
      (Reads->>= _ (decode_u32-Reads low (omega arith))
        (Reads-pure (λ upper. build_u64 low upper) (decode_u32-Reads high (omega arith))))
      (split_u64 v) (omega (arith, build_u64-halves low high (omega arith)))
decode_u64-Reads right_to_left v h =
    let low = v % 2 ^ 32 in
    let high = v / 2 ^ 32 % 2 ^ 32 in
    Reads-eq
      (Reads->>= _ (decode_u32-Reads low (omega arith))
        (Reads-pure (λ lower. build_u64 lower low) (decode_u32-Reads high (omega arith))))
      (split_u64 v) (omega (arith, build_u64-halves high low (omega arith)))

-- A text is taken off the stream whole, whatever the target string keeps of it.
pub decode_string-Reads :
    (target s : Text) → IsText s → Reads (decode_string target) (string_bytes s) (overlay s target)
unfolding decode_string string_bytes
decode_string-Reads target s (chars, fits) =
    Reads->>= _ (decode_u16-Reads (length s) fits) (Reads-pure (λ c. overlay c target) read_chars)
  where
    read_chars : Reads (StringStream.read (length s)) (chars_bytes s) s
    read_chars =
        Reads-eq (rw (length-chars_bytes s) at (read-Reads (chars_bytes s))) refl
          (chars_bytes-text s chars)

module _ {A : Type 0} (decode : A → OnStream A) (fresh : A) (bytes : A → List Byte)
    (received : A → A) where
  pub decode_elements-Reads :
      (xs collec : List A)
      → All (λ x. Reads (decode fresh) (bytes x) (received x)) xs
      → Reads
          (decode_elements decode fresh (length xs) collec)
          (elements_bytes bytes xs)
          (collec ++ map received xs)
  unfolding decode_elements
  decode_elements-Reads [] collec h = Reads-eq (Reads-returns collec) refl (sym (append-nil collec))
  decode_elements-Reads (x ∷ xs) collec (hx, h) = Reads->>= _ hx (
      Reads-eq (decode_elements-Reads xs (collec ++ received x ∷ []) h) refl
        (append_assoc collec (received x ∷ []) (map received xs)))

  pub decode_vector-Reads :
      (xs collec : List A)
      → length xs < 2 ^ 16
      → All (λ x. Reads (decode fresh) (bytes x) (received x)) xs
      → Reads
          (decode_vector decode fresh collec)
          (vector_bytes bytes xs)
          (collec ++ map received xs)
  unfolding decode_vector vector_bytes
  decode_vector-Reads xs collec h hs =
      Reads->>= _ (decode_u16-Reads (length xs) h) (decode_elements-Reads xs collec hs)
