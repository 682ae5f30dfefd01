-- ===== src/MessageStream/Layout.antt =====
-- A message as a list of parts, some of which have a limit: what an encoder writes and how it ends, for
-- every value. The parts in front of the first that is over its limit are written, and its exception
-- leaves the encoder.
use libkzr.Prelude.{
  lt_or_le, ℕ, ◌^◌, ◌%◌, eq→==, ◌≡◌, refl, inl, inr, ltb, lt→ltb, le→ltb, Option, none, some, List,
  [], ◌∷◌, ◌++◌, length, append-nil, append_assoc, if◌then◌else◌, arith,
}
use libkzr.Prelude.Bytes.{Byte, little_endian}
use libkzr.Outcome.{
  Outcome, returns, continue, pure, throws, Exception, ◌>>=◌, ◌>>◌, string_too_long,
  vector_too_long, storage_too_large,
}
use libkzr.StringStream.{StringStream}
use libkzr.StringStream.Frame.{
  Writes, Throws, IsWritable, append, append-append, append-IsWritable, Writes-nothing,
}
use libkzr.MessageStream.{
  Text, OnStream, encode_u8, encode_u16, encode_u32, encode_u64, encode_string, encode_elements,
  encode_vector,
}
use libkzr.MessageStream.Wire.{string_bytes}
use libkzr.MessageStream.Encode.{
  encode_u8-Writes, encode_u16-Writes, encode_u32-Writes, encode_u64-Writes, encode_string-Writes,
  encode_string-Throws, encode_vector-Throws,
}

-- `number n v` is `v` in `n` bytes; `count` and `size` stand in front of the elements of a vector and of
-- stored data; `refused` is what could not be made.
pub data Part : Type 0 where
  number : ℕ → ℕ → Part
  text : Text → Part
  count size : ℕ → Part
  refused : Exception → Part

unfoldable pub refusal : Part → Option Exception
refusal (number n v) = none
refusal (text t) = if ltb (length t) (2 ^ 16) then none else some (string_too_long (length t))
refusal (count n) = if ltb n (2 ^ 16) then none else some (vector_too_long n)
refusal (size n) = if ltb n (2 ^ 32) then none else some storage_too_large
refusal (refused e) = some e

unfoldable pub part_bytes : Part → List Byte
part_bytes (number n v) = little_endian n v
part_bytes (text t) = string_bytes t
part_bytes (count n) = little_endian 2 n
part_bytes (size n) = little_endian 4 n
part_bytes (refused e) = []

abbrev pub unless_refused : Option Exception → List Byte → List Byte
unless_refused none bs = bs
unless_refused (some e) bs = []

-- The bytes in front of the first part that is refused.
unfoldable pub written : List Part → List Byte
unfolding refusal part_bytes
written [] = []
written (p ∷ ps) = unless_refused (refusal p) (part_bytes p ++ written ps)

abbrev pub or_else : Option Exception → Option Exception → Option Exception
or_else none r = r
or_else (some e) r = some e

unfoldable pub first_refusal : List Part → Option Exception
unfolding refusal
first_refusal [] = none
first_refusal (p ∷ ps) = or_else (refusal p) (first_refusal ps)

abbrev pub ended : Option Exception → Outcome (Unit {0})
ended none = returns tt
ended (some e) = throws e

abbrev pub concat_map : {A : Type 0} → (A → List Part) → List A → List Part
concat_map f [] = []
concat_map f (x ∷ xs) = f x ++ concat_map f xs

pub record Emits (m : OnStream (Unit {0})) (ps : List Part) : Type 0 where
  pub at :
      (s : StringStream) → IsWritable s → m s ≡ (ended (first_refusal ps), append s (written ps))

unless_refused-append :
    (r q : Option Exception) (bs cs ds es : List Byte)
    → cs ≡ ds ++ unless_refused q es
    → unless_refused r (bs ++ cs) ≡ unless_refused r (bs ++ ds) ++ unless_refused (or_else r q) es
unless_refused-append none q bs cs ds es h = rw (h, append_assoc)
unless_refused-append (some e) q bs cs ds es h = refl

-- Behind a part that is refused nothing more is written.
written-append :
    (ps qs : List Part)
    → written (ps ++ qs) ≡ written ps ++ unless_refused (first_refusal ps) (written qs)
unfolding written first_refusal
written-append [] qs = refl
written-append (p ∷ ps) qs =
    unless_refused-append (refusal p) (first_refusal ps) (part_bytes p) (written (ps ++ qs))
      (written ps) (written qs) (written-append ps qs)

or_else_assoc : (r q t : Option Exception) → or_else r (or_else q t) ≡ or_else (or_else r q) t
or_else_assoc none q t = refl
or_else_assoc (some e) q t = refl

first_refusal-append :
    (ps qs : List Part) → first_refusal (ps ++ qs) ≡ or_else (first_refusal ps) (first_refusal qs)
unfolding first_refusal
first_refusal-append [] qs = refl
first_refusal-append (p ∷ ps) qs =
    rw (first_refusal-append ps qs)
      (or_else_assoc (refusal p) (first_refusal ps) (first_refusal qs))

continue-Emits :
    (r : Option Exception) (bs : List Byte) (n : OnStream (Unit {0})) (qs : List Part)
    (s : StringStream)
    → IsWritable s
    → Emits n qs
    → continue (ended r) (λ _. n) (append s bs)
      ≡ (ended (or_else r (first_refusal qs)), append s (bs ++ unless_refused r (written qs)))
continue-Emits none bs n qs s w en =
    rw (en.at (append s bs) (append-IsWritable s bs w), append-append s bs (written qs))
continue-Emits (some e) bs n qs s w en = rw append-nil

module _ {m n : OnStream (Unit {0})} {ps qs : List Part} where
  pub Emits->> : Emits m ps → Emits n qs → Emits (m >> n) (ps ++ qs)
  unfolding ◌>>=◌
  Emits->> em en = record {
    at = λ s w.
        rw (em.at s w, written-append ps qs, first_refusal-append ps qs)
          (continue-Emits (first_refusal ps) (written ps) n qs s w en);
  }

pub Emits-nothing : Emits (pure tt) []
unfolding written first_refusal
Emits-nothing = record { at = λ s w. Writes-nothing.at s w }

-- A single part, within its limit and over it.
module _ {m : OnStream (Unit {0})} (p : Part) where
  pub Emits-Writes : refusal p ≡ none → Writes m (part_bytes p) → Emits m (p ∷ [])
  unfolding written first_refusal
  Emits-Writes fits wm = record { at = λ s w. rw (fits, append-nil) (wm.at s w) }

  pub Emits-Refused :
      (ps : List Part) (e : Exception) → refusal p ≡ some e → Throws m [] e → Emits m (p ∷ ps)
  unfolding written first_refusal
  Emits-Refused ps e over tm = record { at = λ s w. rw over (tm.at s w) }

number-Emits :
    {m : OnStream (Unit {0})} (n v : ℕ) → Writes m (little_endian n v) → Emits m (number n v ∷ [])
unfolding refusal part_bytes
number-Emits n v w = Emits-Writes (number n v) refl w

pub encode_u8-Emits : (v : ℕ) → Emits (encode_u8 v) (number 1 v ∷ [])
encode_u8-Emits v = number-Emits 1 v (encode_u8-Writes v)

pub encode_u16-Emits : (v : ℕ) → Emits (encode_u16 v) (number 2 v ∷ [])
encode_u16-Emits v = number-Emits 2 v (encode_u16-Writes v)

pub encode_u32-Emits : (v : ℕ) → Emits (encode_u32 v) (number 4 v ∷ [])
encode_u32-Emits v = number-Emits 4 v (encode_u32-Writes v)

pub encode_u64-Emits : (v : ℕ) → Emits (encode_u64 v) (number 8 v ∷ [])
encode_u64-Emits v = number-Emits 8 v (encode_u64-Writes v)

pub encode_string-Emits : (t : Text) → Emits (encode_string t) (text t ∷ [])
unfolding refusal part_bytes
encode_string-Emits t = elim (lt_or_le (length t) (2 ^ 16)) [
  | inl fits ↦
      Emits-Writes (text t) (rw (lt→ltb (length t) (2 ^ 16) fits)) (encode_string-Writes t fits)
  | inr long ↦
      Emits-Refused (text t) [] (string_too_long (length t)) (rw (le→ltb (length t) (2 ^ 16) long))
        (encode_string-Throws t long)
]

module _ {A : Type 0} (encode : A → OnStream (Unit {0})) (parts : A → List Part)
    (each : (x : A) → Emits (encode x) (parts x)) where
  pub encode_elements-Emits :
      (xs : List A) → Emits (encode_elements encode xs) (concat_map parts xs)
  unfolding encode_elements
  encode_elements-Emits [] = Emits-nothing
  encode_elements-Emits (x ∷ xs) = Emits->> (each x) (encode_elements-Emits xs)

  pub encode_vector-Emits :
      (xs : List A) → Emits (encode_vector encode xs) (count (length xs) ∷ concat_map parts xs)
  unfolding encode_vector refusal part_bytes
  encode_vector-Emits xs = elim (lt_or_le (length xs) (2 ^ 16)) [
    | inl fits ↦
        let same : length xs % 2 ^ 16 ≡ length xs = omega arith in
        rw same (
          rw (eq→== (length xs) (length xs) refl) (
            Emits->>
              (Emits-Writes (count (length xs)) (rw (lt→ltb (length xs) (2 ^ 16) fits))
                (encode_u16-Writes (length xs)))
              (encode_elements-Emits xs)))
    | inr long ↦
        Emits-Refused (count (length xs)) (concat_map parts xs) (vector_too_long (length xs))
          (rw (le→ltb (length xs) (2 ^ 16) long)) (encode_vector-Throws encode xs long)
  ]
