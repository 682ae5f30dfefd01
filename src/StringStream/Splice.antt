-- ===== src/StringStream/Splice.antt =====
-- Output anywhere in the buffer: it goes over what stands at the put position, and on behind the end.
use libkzr.Prelude.{
  ℕ, zero, suc, ◌+◌, ◌-◌, ◌≤◌, ◌<◌, ◌≡◌, refl, ap, ◌∙◌, inl, inr, List, [], ◌∷◌, ◌++◌, length, take,
  drop, take-append-drop, sym, lt_or_le, lt→ltb, le→ltb, arith,
}
use libkzr.Prelude.Bytes.{Byte}
use libkzr.StringStream.{StringStream, contents, good, write_at, store, store_all}

-- `xs` with `cs` in place of what stands at index `p`.
abbrev pub splice : ℕ → List Byte → List Byte → List Byte
splice p cs xs = take p xs ++ (cs ++ drop (length cs) (drop p xs))

write_at-append :
    (i : ℕ) (c : Byte) (xs ys : List Byte)
    → i < length xs
    → write_at i c xs ++ ys ≡ write_at i c (xs ++ ys)
write_at-append i c [] ys h = absurd (omega arith)
write_at-append zero c (x ∷ xs) ys h = refl
write_at-append (suc i) c (x ∷ xs) ys h = ap (λ t. x ∷ t) (write_at-append i c xs ys (omega arith))

append-write_at :
    (i : ℕ) (c : Byte) (xs ys : List Byte)
    → length xs ≤ i
    → xs ++ write_at (i - length xs) c ys ≡ write_at i c (xs ++ ys)
append-write_at i c [] ys h = let same : i - 0 ≡ i = omega arith in rw same refl
append-write_at zero c (x ∷ xs) ys h = absurd (omega arith)
append-write_at (suc i) c (x ∷ xs) ys h =
    let same : suc i - suc (length xs) ≡ i - length xs = omega arith in
    rw same (ap (λ t. x ∷ t) (append-write_at i c xs ys (omega arith)))

drop-nil : (n : ℕ) → drop {A = Byte} n [] ≡ []
drop-nil zero = refl
drop-nil (suc n) = refl

splice-write_at :
    (p : ℕ) (c : Byte) (cs xs : List Byte)
    → p ≤ length xs
    → splice (suc p) cs (write_at p c xs) ≡ splice p (c ∷ cs) xs
splice-write_at zero c cs [] h = ap (λ t. c ∷ (cs ++ t)) (drop-nil (length cs))
splice-write_at zero c cs (x ∷ xs) h = refl
splice-write_at (suc p) c cs [] h = absurd (omega arith)
splice-write_at (suc p) c cs (x ∷ xs) h = ap (λ t. x ∷ t) (splice-write_at p c cs xs (omega arith))

length-write_at :
    (p : ℕ) (c : Byte) (xs : List Byte) → p ≤ length xs → suc p ≤ length (write_at p c xs)
length-write_at zero c [] h = omega arith
length-write_at zero c (x ∷ xs) h = omega arith
length-write_at (suc p) c [] h = absurd (omega arith)
length-write_at (suc p) c (x ∷ xs) h = omega (arith, length-write_at p c xs (omega arith))

-- A character goes to the put position of the whole buffer, on whichever side of the get position.
contents-store :
    (c : Byte) (s : StringStream) → contents (store c s) ≡ write_at s.put_position c (contents s)
unfolding store
contents-store c s = elim (lt_or_le s.put_position (length s.taken)) [
  | inl front ↦
      rw (lt→ltb s.put_position (length s.taken) front)
        (write_at-append s.put_position c s.taken s.unread front)
  | inr behind ↦
      rw (le→ltb s.put_position (length s.taken) behind)
        (append-write_at s.put_position c s.taken s.unread behind)
]

length-write_at_front :
    (p : ℕ) (c : Byte) (xs : List Byte) → p < length xs → length (write_at p c xs) ≡ length xs
length-write_at_front p c [] h = absurd (omega arith)
length-write_at_front zero c (x ∷ xs) h = refl
length-write_at_front (suc p) c (x ∷ xs) h = ap suc (length-write_at_front p c xs (omega arith))

-- Output leaves the flags and the get position, and moves the put position on.
pub record Keeps (n : ℕ) (s t : StringStream) : Type 0 where
  pub same_get_position : length t.taken ≡ length s.taken
  pub moved : t.put_position ≡ s.put_position + n
  pub same_flags : good t ≡ good s

store-Keeps : (c : Byte) (s : StringStream) → Keeps 1 s (store c s)
unfolding store
store-Keeps c s = elim (lt_or_le s.put_position (length s.taken)) [
  | inl front ↦ rw (lt→ltb s.put_position (length s.taken) front) (record {
    same_get_position = length-write_at_front s.put_position c s.taken front;
    moved = refl;
    same_flags = refl;
  })
  | inr behind ↦
      rw (le→ltb s.put_position (length s.taken) behind)
        (record { same_get_position = refl; moved = refl; same_flags = refl })
]

pub store_all-Keeps : (cs : List Byte) (s : StringStream) → Keeps (length cs) s (store_all cs s)
unfolding store_all
store_all-Keeps [] s = record { same_get_position = refl; moved = omega arith; same_flags = refl }
store_all-Keeps (c ∷ cs) s =
    let one = store-Keeps c s in
    let rest = store_all-Keeps cs (store c s) in
    record {
      same_get_position = rest.same_get_position ∙ one.same_get_position;
      moved = omega (arith, one.moved, rest.moved);
      same_flags = rest.same_flags ∙ one.same_flags;
    }

pub contents-store_all :
    (cs : List Byte) (s : StringStream)
    → s.put_position ≤ length (contents s)
    → contents (store_all cs s) ≡ splice s.put_position cs (contents s)
unfolding store_all
contents-store_all [] s h = sym (take-append-drop s.put_position (contents s))
contents-store_all (c ∷ cs) s h =
    let position : (store c s).put_position ≡ suc s.put_position =
      omega (arith, (store-Keeps c s).moved) in
    contents-store_all cs (store c s)
      (rw (position, contents-store c s) (length-write_at s.put_position c (contents s) h))
    ∙ rw (position, contents-store c s) (splice-write_at s.put_position c cs (contents s) h)
