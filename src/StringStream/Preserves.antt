-- ===== src/StringStream/Preserves.antt =====
-- Reading moves the get position and the flags, and nothing else: the bytes of the buffer and the put
-- position stay, however the reading ends.
use libkzr.Prelude.{
  ℕ, ◌≡◌, refl, ◌∙◌, ap, Bool, true, false, List, [], ◌∷◌, ◌++◌, append_assoc, append-nil, take,
  drop, length, take-append-drop, ltb, if◌then◌else◌, Bool-cases, inl, inr,
}
use libkzr.Prelude.Bytes.{Byte}
use libkzr.Outcome.{
  Outcome, returns, throws, undefined, Exception, Action, pure, throw, undefined_behaviour, ◌>>=◌,
  continue,
}
use libkzr.StringStream.{StringStream, contents, good, get_from, get, read, peek_from, peek}

pub record SameBytes (s t : StringStream) : Type 0 where
  pub same_contents : contents t ≡ contents s
  pub same_put_position : t.put_position ≡ s.put_position

pub SameBytes-refl : (s : StringStream) → SameBytes s s
SameBytes-refl s = record { same_contents = refl; same_put_position = refl }

pub SameBytes-trans : {s t u : StringStream} → SameBytes s t → SameBytes t u → SameBytes s u
SameBytes-trans p q = record {
  same_contents = q.same_contents ∙ p.same_contents;
  same_put_position = q.same_put_position ∙ p.same_put_position;
}

pub record Preserves {A : Type 0} (m : Action StringStream A) : Type 0 where
  pub at : (s : StringStream) → SameBytes s (m s).1

module _ {A : Type 0} where
  pub Preserves-pure : (a : A) → Preserves (pure a)
  Preserves-pure a = record { at = SameBytes-refl }

  pub Preserves-throw : (e : Exception) → Preserves (throw {A = A} e)
  Preserves-throw e = record { at = SameBytes-refl }

  pub Preserves-undefined : Preserves (undefined_behaviour {A = A})
  Preserves-undefined = record { at = SameBytes-refl }

  pub Preserves-if :
      (b : Bool) {m n : Action StringStream A}
      → Preserves m
      → Preserves n
      → Preserves (if b then m else n)
  Preserves-if true pm pn = pm
  Preserves-if false pm pn = pn

module _ {A B : Type 0} {f : A → Action StringStream B} (pf : (a : A) → Preserves (f a)) where
  Preserves-continue : (r : Outcome A) (s : StringStream) → SameBytes s (continue r f s).1
  Preserves-continue (returns a) s = (pf a).at s
  Preserves-continue (throws e) s = SameBytes-refl s
  Preserves-continue undefined s = SameBytes-refl s

  pub Preserves->>= : {m : Action StringStream A} → Preserves m → Preserves (m >>= f)
  unfolding ◌>>=◌
  Preserves->>= {m} pm = record {
    at = λ s. SameBytes-trans (pm.at s) (Preserves-continue (m s).0 (m s).1);
  }

get_from-SameBytes :
    (cs : List Byte) (s : StringStream) → s.unread ≡ cs → SameBytes s (get_from cs s).1
unfolding get_from
get_from-SameBytes [] s e = record { same_contents = refl; same_put_position = refl }
get_from-SameBytes (c ∷ cs) s e = record {
  same_contents = rw (append_assoc, e);
  same_put_position = refl;
}

pub get-Preserves : Preserves get
unfolding get
get-Preserves = record {
  at = λ s. elim (Bool-cases (good s)) [
    | inl g ↦ rw (g, get) (get_from-SameBytes s.unread s refl)
    | inr b ↦ rw (b, get) (record { same_contents = refl; same_put_position = refl })
  ];
}

pub read-Preserves : (n : ℕ) → Preserves (read n)
unfolding read
read-Preserves n = record {
  at = λ s. elim (Bool-cases (good s)) [
    | inl g ↦
        rw (g, read)
          (elim (Bool-cases (ltb (length s.unread) n)) [
            | inl short ↦
                rw short (record { same_contents = append-nil _; same_put_position = refl })
            | inr long ↦ rw long (record {
              same_contents =
                  append_assoc s.taken (take n s.unread) (drop n s.unread)
                  ∙ ap (λ u. s.taken ++ u) (take-append-drop n s.unread);
              same_put_position = refl;
            })
          ])
    | inr b ↦ rw (b, read) (record { same_contents = refl; same_put_position = refl })
  ];
}

peek_from-SameBytes : (cs : List Byte) (s : StringStream) → SameBytes s (peek_from cs s).1
unfolding peek_from
peek_from-SameBytes [] s = record { same_contents = refl; same_put_position = refl }
peek_from-SameBytes (c ∷ cs) s = SameBytes-refl s

pub peek-Preserves : Preserves peek
unfolding peek
peek-Preserves = record {
  at = λ s. elim (Bool-cases (good s)) [
    | inl g ↦ rw (g, peek) (peek_from-SameBytes s.unread s)
    | inr b ↦ rw (b, peek) (record { same_contents = refl; same_put_position = refl })
  ];
}
