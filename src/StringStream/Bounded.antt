-- ===== src/StringStream/Bounded.antt =====
-- On a stream of bytes: what the values that are read satisfy, and that a stream of bytes is left.
use libkzr.Prelude.{
  ℕ, zero, suc, ◌<◌, ◌^◌, Option, none, some, List, [], ◌∷◌, All, take, drop, length, ltb,
  Bool-cases, inl, inr,
}
use libkzr.Prelude.Bytes.{Byte}
use libkzr.Outcome.{
  Outcome, returns, throws, undefined, Exception, Action, pure, throw, undefined_behaviour, ◌>>=◌,
  continue,
}
use libkzr.Outcome.Yields.{Holds, Holds-map}
use libkzr.StringStream.{StringStream, good, get_from, get, read, peek_from, peek}

abbrev pub AreBytes : List Byte → Type 0
AreBytes bs = All (λ b. b < 2 ^ 8) bs

pub record Bounded {A : Type 0} (P : A → Type 0) (m : Action StringStream A) : Type 0 where
  pub at : (s : StringStream) → AreBytes s.unread → AreBytes (m s).1.unread × Holds P (m s).0

module _ {A : Type 0} {P : A → Type 0} where
  pub Bounded-pure : (a : A) → P a → Bounded P (pure a)
  unfolding Holds
  Bounded-pure a p = record { at = λ s b. (b, p) }

  pub Bounded-throw : (e : Exception) → Bounded P (throw e)
  unfolding Holds
  Bounded-throw e = record { at = λ s b. (b, tt) }

  pub Bounded-undefined : Bounded P undefined_behaviour
  unfolding Holds
  Bounded-undefined = record { at = λ s b. (b, tt) }

module _ {A B : Type 0} {P : B → Type 0} {f : A → Action StringStream B} where
  Bounded-continue :
      {Q : A → Type 0} (r : Outcome A) (s : StringStream)
      → AreBytes s.unread
      → Holds Q r
      → ((a : A) → Q a → Bounded P (f a))
      → AreBytes (continue r f s).1.unread × Holds P (continue r f s).0
  unfolding Holds
  Bounded-continue (returns a) s b q pf = (pf a q).at s b
  Bounded-continue (throws e) s b q pf = (b, tt)
  Bounded-continue undefined s b q pf = (b, tt)

  pub Bounded->>= :
      {Q : A → Type 0} {m : Action StringStream A}
      → Bounded Q m
      → ((a : A) → Q a → Bounded P (f a))
      → Bounded P (m >>= f)
  unfolding ◌>>=◌
  Bounded->>= {m} q pf = record {
    at = λ s b. Bounded-continue (m s).0 (m s).1 (q.at s b).0 (q.at s b).1 pf;
  }

pub Bounded-map :
    {A : Type 0} {P Q : A → Type 0} {m : Action StringStream A}
    → ((a : A) → P a → Q a)
    → Bounded P m
    → Bounded Q m
Bounded-map {m} pq p = record { at = λ s b. ((p.at s b).0, Holds-map pq (m s).0 (p.at s b).1) }

take-AreBytes : (n : ℕ) (bs : List Byte) → AreBytes bs → AreBytes (take n bs)
take-AreBytes zero bs h = tt
take-AreBytes (suc n) [] h = tt
take-AreBytes (suc n) (b ∷ bs) (h, hs) = (h, take-AreBytes n bs hs)

drop-AreBytes : (n : ℕ) (bs : List Byte) → AreBytes bs → AreBytes (drop n bs)
drop-AreBytes zero bs h = h
drop-AreBytes (suc n) [] h = tt
drop-AreBytes (suc n) (b ∷ bs) (h, hs) = drop-AreBytes n bs hs

-- A character that was assigned is a byte.
unfoldable pub IsAssigned : Option Byte → Type 0
IsAssigned none = Unit {0}
IsAssigned (some c) = c < 2 ^ 8

from_Bounded :
    (bs : List Byte) (s : StringStream)
    → AreBytes s.unread
    → AreBytes bs
    → AreBytes (get_from bs s).1.unread × Holds IsAssigned (get_from bs s).0
unfolding get_from Holds IsAssigned
from_Bounded [] s b h = (b, tt)
from_Bounded (c ∷ cs) s b (h, hs) = (hs, h)

pub get-Bounded : Bounded IsAssigned get
unfolding get Holds IsAssigned
get-Bounded = record {
  at = λ s b. elim (Bool-cases (good s)) [
    | inl g ↦ rw g (from_Bounded s.unread s b b)
    | inr n ↦ rw n (b, tt)
  ];
}

pub read-Bounded : (n : ℕ) → Bounded AreBytes (read n)
unfolding read Holds
read-Bounded n = record {
  at = λ s b. elim (Bool-cases (good s)) [
    | inl g ↦ rw g (elim (Bool-cases (ltb (length s.unread) n)) [
      | inl short ↦ rw short (tt, b)
      | inr long ↦ rw long (drop-AreBytes n s.unread b, take-AreBytes n s.unread b)
    ])
    | inr f ↦ rw f (b, tt)
  ];
}

peek_from-Bounded :
    (bs : List Byte) (s : StringStream)
    → AreBytes s.unread
    → AreBytes (peek_from bs s).1.unread × Holds (λ _. Unit {0}) (peek_from bs s).0
unfolding peek_from Holds
peek_from-Bounded [] s b = (b, tt)
peek_from-Bounded (c ∷ cs) s b = (b, tt)

pub peek-Bounded : Bounded (λ _. Unit {0}) peek
unfolding peek Holds
peek-Bounded = record {
  at = λ s b. elim (Bool-cases (good s)) [
    | inl g ↦ rw g (peek_from-Bounded s.unread s b)
    | inr f ↦ rw f (b, tt)
  ];
}
