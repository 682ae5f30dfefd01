-- ===== src/MessageStream/Preserves.antt =====
-- No decoder of MessageStream changes the bytes of the stream or the place of the next output,
-- whatever the stream holds and however the decoding ends.
use libkzr.Prelude.{ℕ, zero, suc, Option, none, some, List, [], ◌∷◌, ◌++◌}
use libkzr.Prelude.Bytes.{Byte}
use libkzr.StringStream.Preserves.{
  Preserves, SameBytes-refl, Preserves-pure, Preserves-undefined, Preserves->>=, get-Preserves,
  read-Preserves, peek-Preserves,
}
use libkzr.MessageStream.{
  Text, OnStream, ArgumentOrder, left_to_right, right_to_left, assigned, two_bytes, four_bytes,
  decode_u8, decode_u16, decode_u32, decode_u64, decode_string, decode_elements, decode_vector,
  peek,
}

assigned-Preserves : (c : Option Byte) → Preserves (assigned c)
unfolding assigned
assigned-Preserves none = Preserves-undefined
assigned-Preserves (some c) = Preserves-pure c

two_bytes-Preserves : (bs : List Byte) → Preserves (two_bytes bs)
unfolding two_bytes
two_bytes-Preserves (a ∷ b ∷ []) = Preserves-pure _
two_bytes-Preserves _ = Preserves-undefined

four_bytes-Preserves : (bs : List Byte) → Preserves (four_bytes bs)
unfolding four_bytes
four_bytes-Preserves (a ∷ b ∷ c ∷ d ∷ []) = Preserves-pure _
four_bytes-Preserves _ = Preserves-undefined

pub decode_u8-Preserves : Preserves decode_u8
unfolding decode_u8
decode_u8-Preserves = Preserves->>= assigned-Preserves get-Preserves

pub decode_u16-Preserves : Preserves decode_u16
unfolding decode_u16
decode_u16-Preserves = Preserves->>= two_bytes-Preserves (read-Preserves 2)

pub decode_u32-Preserves : Preserves decode_u32
unfolding decode_u32
decode_u32-Preserves = Preserves->>= four_bytes-Preserves (read-Preserves 4)

pub decode_u64-Preserves : (order : ArgumentOrder) → Preserves (decode_u64 order)
unfolding decode_u64
decode_u64-Preserves left_to_right =
    Preserves->>= (λ l. Preserves->>= (λ u. Preserves-pure _) decode_u32-Preserves)
      decode_u32-Preserves
decode_u64-Preserves right_to_left =
    Preserves->>= (λ u. Preserves->>= (λ l. Preserves-pure _) decode_u32-Preserves)
      decode_u32-Preserves

pub decode_string-Preserves : (target : Text) → Preserves (decode_string target)
unfolding decode_string
decode_string-Preserves target =
    Preserves->>= (λ len. Preserves->>= (λ chars. Preserves-pure _) (read-Preserves len))
      decode_u16-Preserves

module _ {A : Type 0} (decode : A → OnStream A) (fresh : A) (keeps : Preserves (decode fresh)) where
  pub decode_elements-Preserves :
      (n : ℕ) (collec : List A) → Preserves (decode_elements decode fresh n collec)
  unfolding decode_elements
  decode_elements-Preserves zero collec = Preserves-pure collec
  decode_elements-Preserves (suc n) collec =
      Preserves->>= (λ c. decode_elements-Preserves n (collec ++ c ∷ [])) keeps

  pub decode_vector-Preserves : (collec : List A) → Preserves (decode_vector decode fresh collec)
  unfolding decode_vector
  decode_vector-Preserves collec =
      Preserves->>= (λ len. decode_elements-Preserves len collec) decode_u16-Preserves

pub peek_message-Preserves : Preserves peek
unfolding peek
peek_message-Preserves = record {
  at = λ s. (Preserves->>= (λ r. record { at = SameBytes-refl }) peek-Preserves).at s;
}
