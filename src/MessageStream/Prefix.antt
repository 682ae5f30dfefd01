-- ===== src/MessageStream/Prefix.antt =====
-- Encodings of which none is the beginning of another: what follows on the wire cannot be taken for a
-- part of the value.
use libkzr.Prelude.{
  ℕ, zero, suc, ◌/◌, ◌^◌, ◌<◌, ◌≡◌, refl, sym, ap, ap₂, ◌∙◌, List, [], ◌∷◌, ◌++◌, append_assoc,
  length, All, arith,
}
use libkzr.Prelude.Bytes.{Byte, little_endian}
use libkzr.MessageStream.{Text}
use libkzr.MessageStream.Wire.{IsText, chars_bytes, string_bytes, elements_bytes, vector_bytes}
use native.Mathlib.Nat.{pow-suc}

pub record PrefixFree {A : Type 0} (P : A → Type 0) (bytes : A → List Byte) : Type 0 where
  pub at : (a b : A) (r t : List Byte) → P a → P b → bytes a ++ r ≡ bytes b ++ t → (a ≡ b) × (r ≡ t)

-- The first of several parts, with the rest and what follows.
module _ {A : Type 0} {P : A → Type 0} {bytes : A → List Byte} (free : PrefixFree P bytes) where
  pub first_part :
      (a b : A) (x y r t : List Byte)
      → P a
      → P b
      → (bytes a ++ x) ++ r ≡ (bytes b ++ y) ++ t
      → (a ≡ b) × (x ++ r ≡ y ++ t)
  first_part a b x y r t pa pb e =
      free.at a b (x ++ r) (y ++ t) pa pb
        (sym (append_assoc (bytes a) x r) ∙ (e ∙ append_assoc (bytes b) y t))

-- Encodings of a value by its parts: each part is determined, and so is what follows.
pub record Determines {A B : Type 0} (P : A → Type 0) (bytes : A → List Byte) (view : A → B)
    : Type 0 where
  pub at :
      (a b : A) (r t : List Byte)
      → P a
      → P b
      → bytes a ++ r ≡ bytes b ++ t
      → (view a ≡ view b) × (r ≡ t)

module _ {A : Type 0} {P : A → Type 0} where
  pub part :
      {B : Type 0} {Q : B → Type 0} {bytes : B → List Byte}
      → PrefixFree Q bytes
      → (view : A → B) → ((a : A) → P a → Q (view a))
      → Determines P (λ a. bytes (view a)) view
  part free view fits = record {
    at = λ a b r t pa pb e. free.at (view a) (view b) r t (fits a pa) (fits b pb) e;
  }

  pub both :
      {B C : Type 0} {view : A → B} {next : A → C} {bytes more : A → List Byte}
      → Determines P bytes view
      → Determines P more next
      → Determines {B = B × C} P (λ a. bytes a ++ more a) (λ a. (view a, next a))
  both {bytes} {more} d n = record {
    at = λ a b r t pa pb e.
        let e' =
          sym (append_assoc (bytes a) (more a) r) ∙ (e ∙ append_assoc (bytes b) (more b) t) in
        let (same, e'') = d.at a b (more a ++ r) (more b ++ t) pa pb e' in
        let (also, rest) = n.at a b r t pa pb e'' in ((λ i. (same i, also i)), rest);
  }

  pub whole :
      {B : Type 0} {view : A → B} {bytes : A → List Byte}
      → Determines P bytes view
      → (make : B → A) → ((a : A) → make (view a) ≡ a)
      → PrefixFree P bytes
  whole {view} d make made = record {
    at = λ a b r t pa pb e.
        let (same, rest) = d.at a b r t pa pb e in (sym (made a) ∙ (ap make same ∙ made b), rest);
  }

pub head_tail : {x y : Byte} {xs ys : List Byte} → x ∷ xs ≡ y ∷ ys → (x ≡ y) × (xs ≡ ys)
head_tail e = (cc, cc)

number_lem :
    (n a b : ℕ) (r t : List Byte)
    → a < 256 ^ n
    → b < 256 ^ n
    → little_endian n a ++ r ≡ little_endian n b ++ t
    → (a ≡ b) × (r ≡ t)
number_lem zero a b r t ha hb e = (omega arith, e)
number_lem (suc n) a b r t ha hb e =
    let (low, e') = head_tail e in
    let (high, rest) =
      number_lem n (a / 256) (b / 256) r t (omega (arith, pow-suc 256 n))
        (omega (arith, pow-suc 256 n)) e' in
    (omega arith, rest)

pub number-PrefixFree : (n : ℕ) → PrefixFree (λ v. v < 256 ^ n) (little_endian n)
number-PrefixFree n = record { at = number_lem n }

pub chars_lem :
    (a b : Text) (r t : List Byte)
    → length a ≡ length b
    → All (λ c. c < 2 ^ 8) a
    → All (λ c. c < 2 ^ 8) b
    → chars_bytes a ++ r ≡ chars_bytes b ++ t
    → (a ≡ b) × (r ≡ t)
chars_lem [] [] r t n ha hb e = (refl, e)
chars_lem [] (c ∷ b) r t n ha hb e = absurd (omega arith)
chars_lem (c ∷ a) [] r t n ha hb e = absurd (omega arith)
chars_lem (c ∷ a) (d ∷ b) r t n (hc, ha) (hd, hb) e =
    let (first, e') = head_tail e in
    let (same, rest) = chars_lem a b r t (omega arith) ha hb e' in
    let equal : c ≡ d = omega arith in (ap₂ (λ (x : Byte) (xs : Text). x ∷ xs) equal same, rest)

-- A count that fits its bytes stands in front.
pub string-PrefixFree : PrefixFree IsText string_bytes
unfolding string_bytes
string-PrefixFree = record {
  at = λ a b r t (ha, la) (hb, lb) e.
      let (same_length, e') =
        first_part (number-PrefixFree 2) (length a) (length b) (chars_bytes a) (chars_bytes b) r t
          la lb e in
      chars_lem a b r t same_length ha hb e';
}

module _ {A : Type 0} {P : A → Type 0} {bytes : A → List Byte} (free : PrefixFree P bytes) where
  pub elements_lem :
      (xs ys : List A) (r t : List Byte)
      → length xs ≡ length ys
      → All P xs
      → All P ys
      → elements_bytes bytes xs ++ r ≡ elements_bytes bytes ys ++ t
      → (xs ≡ ys) × (r ≡ t)
  elements_lem [] [] r t n ha hb e = (refl, e)
  elements_lem [] (y ∷ ys) r t n ha hb e = absurd (omega arith)
  elements_lem (x ∷ xs) [] r t n ha hb e = absurd (omega arith)
  elements_lem (x ∷ xs) (y ∷ ys) r t n (hx, ha) (hy, hb) e =
      let (equal, e') =
        first_part free x y (elements_bytes bytes xs) (elements_bytes bytes ys) r t hx hy e in
      let (same, rest) = elements_lem xs ys r t (omega arith) ha hb e' in
      (ap₂ (λ (z : A) (zs : List A). z ∷ zs) equal same, rest)

  pub vector-PrefixFree : PrefixFree (λ xs. All P xs × (length xs < 2 ^ 16)) (vector_bytes bytes)
  unfolding vector_bytes
  vector-PrefixFree = record {
    at = λ xs ys r t (ha, la) (hb, lb) e.
        let (same_length, e') =
          first_part (number-PrefixFree 2) (length xs) (length ys) (elements_bytes bytes xs)
            (elements_bytes bytes ys) r t la lb e in
        elements_lem xs ys r t same_length ha hb e';
  }
