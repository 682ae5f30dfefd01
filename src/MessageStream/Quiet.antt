-- ===== src/MessageStream/Quiet.antt =====
-- No decoder of MessageStream throws: bytes that are missing are undefined behaviour, or not missed.
use libkzr.Prelude.{
  ℕ, zero, suc, Bool-cases, inl, inr, Option, none, some, List, [], ◌∷◌, ◌++◌, length, ltb,
}
use libkzr.Prelude.Bytes.{Byte}
use libkzr.Outcome.NeverThrows.{
  IsQuiet, NeverThrows, NeverThrows-pure, NeverThrows-undefined, NeverThrows->>=,
}
use libkzr.StringStream
use libkzr.StringStream.{StringStream, good, get_from}
use libkzr.MessageStream.{
  Text, OnStream, ArgumentOrder, left_to_right, right_to_left, assigned, two_bytes, four_bytes,
  decode_u8, decode_u16, decode_u32, decode_u64, decode_string, decode_elements, decode_vector,
}

from-IsQuiet : (bs : List Byte) (s : StringStream) → IsQuiet (get_from bs s).0
unfolding get_from IsQuiet
from-IsQuiet [] s = tt
from-IsQuiet (c ∷ cs) s = tt

get-NeverThrows : NeverThrows StringStream.get
unfolding StringStream.get IsQuiet
get-NeverThrows = record {
  at = λ s. elim (Bool-cases (good s)) [ inl g ↦ rw g (from-IsQuiet s.unread s) | inr b ↦ rw b tt ];
}

read-NeverThrows : (n : ℕ) → NeverThrows (StringStream.read n)
unfolding StringStream.read IsQuiet
read-NeverThrows n = record {
  at = λ s. elim (Bool-cases (good s)) [
    | inl g ↦ rw g (elim (Bool-cases (ltb (length s.unread) n)) [
      | inl short ↦ rw short tt
      | inr long ↦ rw long tt
    ])
    | inr b ↦ rw b tt
  ];
}

assigned-NeverThrows : (c : Option Byte) → NeverThrows (assigned c)
unfolding assigned
assigned-NeverThrows none = NeverThrows-undefined
assigned-NeverThrows (some c) = NeverThrows-pure c

two_bytes-NeverThrows : (bs : List Byte) → NeverThrows (two_bytes bs)
unfolding two_bytes
two_bytes-NeverThrows (a ∷ b ∷ []) = NeverThrows-pure _
two_bytes-NeverThrows _ = NeverThrows-undefined

four_bytes-NeverThrows : (bs : List Byte) → NeverThrows (four_bytes bs)
unfolding four_bytes
four_bytes-NeverThrows (a ∷ b ∷ c ∷ d ∷ []) = NeverThrows-pure _
four_bytes-NeverThrows _ = NeverThrows-undefined

pub decode_u8-NeverThrows : NeverThrows decode_u8
unfolding decode_u8
decode_u8-NeverThrows = NeverThrows->>= assigned-NeverThrows get-NeverThrows

pub decode_u16-NeverThrows : NeverThrows decode_u16
unfolding decode_u16
decode_u16-NeverThrows = NeverThrows->>= two_bytes-NeverThrows (read-NeverThrows 2)

pub decode_u32-NeverThrows : NeverThrows decode_u32
unfolding decode_u32
decode_u32-NeverThrows = NeverThrows->>= four_bytes-NeverThrows (read-NeverThrows 4)

pub decode_u64-NeverThrows : (order : ArgumentOrder) → NeverThrows (decode_u64 order)
unfolding decode_u64
decode_u64-NeverThrows left_to_right =
    NeverThrows->>= (λ l. NeverThrows->>= (λ u. NeverThrows-pure _) decode_u32-NeverThrows)
      decode_u32-NeverThrows
decode_u64-NeverThrows right_to_left =
    NeverThrows->>= (λ u. NeverThrows->>= (λ l. NeverThrows-pure _) decode_u32-NeverThrows)
      decode_u32-NeverThrows

pub decode_string-NeverThrows : (target : Text) → NeverThrows (decode_string target)
unfolding decode_string
decode_string-NeverThrows target =
    NeverThrows->>= (λ len. NeverThrows->>= (λ chars. NeverThrows-pure _) (read-NeverThrows len))
      decode_u16-NeverThrows

module _ {A : Type 0} (decode : A → OnStream A) (fresh : A)
    (quiet : NeverThrows (decode fresh)) where
  pub decode_elements-NeverThrows :
      (n : ℕ) (collec : List A) → NeverThrows (decode_elements decode fresh n collec)
  unfolding decode_elements
  decode_elements-NeverThrows zero collec = NeverThrows-pure collec
  decode_elements-NeverThrows (suc n) collec =
      NeverThrows->>= (λ c. decode_elements-NeverThrows n (collec ++ c ∷ [])) quiet

  pub decode_vector-NeverThrows :
      (collec : List A) → NeverThrows (decode_vector decode fresh collec)
  unfolding decode_vector
  decode_vector-NeverThrows collec =
      NeverThrows->>= (λ len. decode_elements-NeverThrows len collec) decode_u16-NeverThrows
