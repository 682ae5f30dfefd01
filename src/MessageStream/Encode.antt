-- ===== src/MessageStream/Encode.antt =====
-- What the encoders of MessageStream write, and the exceptions of the two that count.
use libkzr.Prelude.{
  ℕ, ◌/◌, ◌%◌, ◌^◌, ◌≤◌, ◌<◌, ◌≡◌, refl, List, [], ◌∷◌, length, All, arith, eq→==, ne→==,
}
use libkzr.Prelude.Bytes.{Byte, little_endian}
use libkzr.Outcome.{string_too_long, vector_too_long}
use libkzr.StringStream.Frame.{Writes, Throws, Writes->>, Writes-nothing, put-Writes, throw-Throws}
use libkzr.MessageStream.{
  Text, OnStream, encode_u8, encode_u16, encode_u32, encode_u64, encode_chars, encode_string,
  encode_elements, encode_vector,
}
use libkzr.MessageStream.Wire.{
  chars_bytes, string_bytes, elements_bytes, vector_bytes, split_u32, split_u64,
}

-- An action that writes some bytes writes any equal ones.
pub Writes-eq : {m : OnStream (Unit {0})} {bs cs : List Byte} → Writes m bs → bs ≡ cs → Writes m cs
Writes-eq {m} w e = rw (← e) w

pub encode_u8-Writes : (v : ℕ) → Writes (encode_u8 v) (little_endian 1 v)
unfolding encode_u8
encode_u8-Writes v = put-Writes (v % 256)

pub encode_u16-Writes : (v : ℕ) → Writes (encode_u16 v) (little_endian 2 v)
unfolding encode_u16
encode_u16-Writes v = Writes->> (put-Writes (v % 256)) (put-Writes (v / 256 % 256))

pub encode_u32-Writes : (v : ℕ) → Writes (encode_u32 v) (little_endian 4 v)
unfolding encode_u32
encode_u32-Writes v =
    Writes-eq (Writes->> (encode_u16-Writes (v % 2 ^ 16)) (encode_u16-Writes (v / 2 ^ 16 % 2 ^ 16)))
      (split_u32 v)

pub encode_u64-Writes : (v : ℕ) → Writes (encode_u64 v) (little_endian 8 v)
unfolding encode_u64
encode_u64-Writes v =
    Writes-eq (Writes->> (encode_u32-Writes (v % 2 ^ 32)) (encode_u32-Writes (v / 2 ^ 32 % 2 ^ 32)))
      (split_u64 v)

encode_chars-Writes : (s : Text) → Writes (encode_chars s) (chars_bytes s)
unfolding encode_chars
encode_chars-Writes [] = Writes-nothing
encode_chars-Writes (c ∷ s) = Writes->> (encode_u8-Writes c) (encode_chars-Writes s)

pub encode_string-Writes :
    (s : Text) → length s < 2 ^ 16 → Writes (encode_string s) (string_bytes s)
unfolding encode_string string_bytes
encode_string-Writes s h =
    let fits : length s % 2 ^ 16 ≡ length s = omega arith in
    rw fits (
      rw (eq→== (length s) (length s) refl)
        (Writes->> (encode_u16-Writes (length s)) (encode_chars-Writes s)))

pub encode_string-Throws :
    (s : Text) → 2 ^ 16 ≤ length s → Throws (encode_string s) [] (string_too_long (length s))
unfolding encode_string
encode_string-Throws s h = rw (ne→== (length s % 2 ^ 16) (length s) (omega arith)) (throw-Throws _)

module _ {A : Type 0} (encode : A → OnStream (Unit {0})) (bytes : A → List Byte) where
  pub encode_elements-Writes :
      (xs : List A)
      → All (λ x. Writes (encode x) (bytes x)) xs
      → Writes (encode_elements encode xs) (elements_bytes bytes xs)
  unfolding encode_elements
  encode_elements-Writes [] h = Writes-nothing
  encode_elements-Writes (x ∷ xs) (hx, h) = Writes->> hx (encode_elements-Writes xs h)

  pub encode_vector-Writes :
      (xs : List A)
      → length xs < 2 ^ 16
      → All (λ x. Writes (encode x) (bytes x)) xs
      → Writes (encode_vector encode xs) (vector_bytes bytes xs)
  unfolding encode_vector vector_bytes
  encode_vector-Writes xs h hs =
      let fits : length xs % 2 ^ 16 ≡ length xs = omega arith in
      rw fits (
        rw (eq→== (length xs) (length xs) refl)
          (Writes->> (encode_u16-Writes (length xs)) (encode_elements-Writes xs hs)))

pub encode_vector-Throws :
    {A : Type 0} (encode : A → OnStream (Unit {0})) (xs : List A)
    → 2 ^ 16 ≤ length xs
    → Throws (encode_vector encode xs) [] (vector_too_long (length xs))
unfolding encode_vector
encode_vector-Throws encode xs h =
    rw (ne→== (length xs % 2 ^ 16) (length xs) (omega arith)) (throw-Throws _)
