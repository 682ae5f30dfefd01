-- ===== src/MessageStream/Bounded.antt =====
-- The decoders of MessageStream give numbers of their own widths, where the stream holds bytes.
use libkzr.Prelude.{
  ℕ, zero, suc, ◌+◌, ◌<◌, ◌^◌, ◌≡◌, Option, none, some, List, [], ◌∷◌, ◌++◌, All, length,
  length-append, arith,
}
use libkzr.Prelude.Bytes.{Byte}
use libkzr.StringStream.Bounded.{
  AreBytes, Bounded, Bounded-pure, Bounded-undefined, Bounded->>=, IsAssigned, get-Bounded,
  read-Bounded, peek-Bounded,
}
use libkzr.Outcome.Yields.{Holds}
use libkzr.MessageStream.{
  peek, Text, OnStream, ArgumentOrder, left_to_right, right_to_left, assigned, two_bytes,
  four_bytes, build_u16, build_u32, build_u64, build_u32_from_bytes, decode_u8, decode_u16,
  decode_u32, decode_u64, decode_string, decode_elements, decode_vector,
}
use libkzr.MessageStream.Wire.{
  IsText, build_u16-halves, build_u32-halves, build_u64-halves, overlay-nil,
}

build_u16-bound : (a b : ℕ) → a < 2 ^ 8 → b < 2 ^ 8 → build_u16 a b < 2 ^ 16
build_u16-bound a b ha hb = omega (arith, build_u16-halves a b ha)

build_u32-bound : (a b : ℕ) → a < 2 ^ 16 → b < 2 ^ 16 → build_u32 a b < 2 ^ 32
build_u32-bound a b ha hb = omega (arith, build_u32-halves a b ha)

build_u64-bound : (a b : ℕ) → a < 2 ^ 32 → b < 2 ^ 32 → build_u64 a b < 2 ^ 64
build_u64-bound a b ha hb = omega (arith, build_u64-halves a b ha)

assigned-Bounded : (c : Option Byte) → IsAssigned c → Bounded (λ v. v < 2 ^ 8) (assigned c)
unfolding assigned IsAssigned
assigned-Bounded none h = Bounded-undefined
assigned-Bounded (some c) h = Bounded-pure c h

two_bytes-Bounded : (bs : List Byte) → AreBytes bs → Bounded (λ v. v < 2 ^ 16) (two_bytes bs)
unfolding two_bytes
two_bytes-Bounded (a ∷ b ∷ []) (ha, (hb, _)) = Bounded-pure _ (build_u16-bound a b ha hb)
two_bytes-Bounded _ h = Bounded-undefined

four_bytes-Bounded : (bs : List Byte) → AreBytes bs → Bounded (λ v. v < 2 ^ 32) (four_bytes bs)
unfolding four_bytes build_u32_from_bytes
four_bytes-Bounded (a ∷ b ∷ c ∷ d ∷ []) (ha, (hb, (hc, (hd, _)))) = Bounded-pure _ (
    build_u32-bound (build_u16 a b) (build_u16 c d) (build_u16-bound a b ha hb)
      (build_u16-bound c d hc hd))
four_bytes-Bounded _ h = Bounded-undefined

pub decode_u8-Bounded : Bounded (λ v. v < 2 ^ 8) decode_u8
unfolding decode_u8
decode_u8-Bounded = Bounded->>= get-Bounded assigned-Bounded

pub decode_u16-Bounded : Bounded (λ v. v < 2 ^ 16) decode_u16
unfolding decode_u16
decode_u16-Bounded = Bounded->>= (read-Bounded 2) two_bytes-Bounded

pub decode_u32-Bounded : Bounded (λ v. v < 2 ^ 32) decode_u32
unfolding decode_u32
decode_u32-Bounded = Bounded->>= (read-Bounded 4) four_bytes-Bounded

pub decode_u64-Bounded : (order : ArgumentOrder) → Bounded (λ v. v < 2 ^ 64) (decode_u64 order)
unfolding decode_u64
decode_u64-Bounded left_to_right =
    Bounded->>= decode_u32-Bounded
      (λ l hl. Bounded->>= decode_u32-Bounded (λ u hu. Bounded-pure _ (build_u64-bound l u hl hu)))
decode_u64-Bounded right_to_left =
    Bounded->>= decode_u32-Bounded
      (λ u hu. Bounded->>= decode_u32-Bounded (λ l hl. Bounded-pure _ (build_u64-bound l u hl hu)))

-- What goes over an empty text is an empty text.
pub decode_string-Bounded : Bounded (λ t. t ≡ []) (decode_string [])
unfolding decode_string
decode_string-Bounded =
    Bounded->>= decode_u16-Bounded
      (λ len h. Bounded->>= (read-Bounded len) (λ chars hs. Bounded-pure _ (overlay-nil chars)))

pub empty-IsText : (t : Text) → t ≡ [] → IsText t
empty-IsText [] e = (tt, omega arith)
empty-IsText (c ∷ t) e = absurd (cc e)

pub decode_string-IsText : Bounded IsText (decode_string [])
unfolding decode_string
decode_string-IsText =
    Bounded->>= decode_u16-Bounded
      (λ len h. Bounded->>= (read-Bounded len) (λ chars hs. Bounded-pure _ (tt, omega arith)))

All-snoc :
    {A : Type 0} (P : A → Type 0) (xs : List A) (x : A) → All P xs → P x → All P (xs ++ x ∷ [])
All-snoc P [] x h p = (p, tt)
All-snoc P (y ∷ xs) x (h, hs) p = (h, All-snoc P xs x hs p)

module _ {A : Type 0} {P : A → Type 0} (decode : A → OnStream A) (fresh : A)
    (element : Bounded P (decode fresh)) where
  pub decode_elements-Bounded :
      (limit n : ℕ) (collec : List A)
      → All P collec
      → length collec + n < limit
      → Bounded (λ xs. All P xs × (length xs < limit)) (decode_elements decode fresh n collec)
  unfolding decode_elements
  decode_elements-Bounded limit zero collec h fits = Bounded-pure collec (h, omega arith)
  decode_elements-Bounded limit (suc n) collec h fits = Bounded->>= element (λ c p.
      decode_elements-Bounded limit n (collec ++ c ∷ []) (All-snoc P collec c h p)
        (omega (arith, length-append collec (c ∷ []))))

  pub decode_vector-Bounded :
      Bounded (λ xs. All P xs × (length xs < 2 ^ 16)) (decode_vector decode fresh [])
  unfolding decode_vector
  decode_vector-Bounded =
      Bounded->>= decode_u16-Bounded
        (λ len h. decode_elements-Bounded (2 ^ 16) len [] tt (omega arith))

pub peek_message-Bounded : Bounded (λ _. Unit {0}) peek
unfolding peek Holds
peek_message-Bounded = record {
  at = (Bounded->>= peek-Bounded (λ result _. record { at = λ t b. (b, tt) })).at;
}
