-- ===== src/SocketConnection/Kinds/Flags.antt =====
-- The tests on a SocketType against what its name says.
use libkzr.Prelude.{
  ℕ, ◌≡◌, ◌≢◌, refl, sym, ap, ◌∙◌, Bool, true, false, not, bit_and, bit_or, ◌==◌, ne→==, arith,
}
use libkzr.Prelude.Binary.{bit, bit-zero, bit_ext, bit-bit_and, bit-bit_or}
use libkzr.SocketConnection.Kinds.{
  SocketConstants, IsSocketConstants, SocketType, plain, non_blocking, close_on_exec,
  non_blocking_close_on_exec, type_value, is_non_blocking, is_close_on_exec,
}

-- What the names say.
abbrev pub named_non_blocking : SocketType → Bool
named_non_blocking (plain k) = false
named_non_blocking (non_blocking k) = true
named_non_blocking (close_on_exec k) = false
named_non_blocking (non_blocking_close_on_exec k) = true

abbrev pub named_close_on_exec : SocketType → Bool
named_close_on_exec (plain k) = false
named_close_on_exec (non_blocking k) = false
named_close_on_exec (close_on_exec k) = true
named_close_on_exec (non_blocking_close_on_exec k) = true

-- `|` and `&` of flags.
joined :
    (a b flag x y : ℕ)
    → bit_and a flag ≡ x
    → bit_and b flag ≡ y
    → bit_and (bit_or a b) flag ≡ bit_or x y
joined a b flag x y e f = bit_ext _ _ λ i. rw (bit-bit_and i (bit_or a b) flag) (
    rw (bit-bit_or i a b) (
      rw (bit-bit_or i x y) (
        omega (
          arith,
          sym (bit-bit_and i a flag) ∙ ap (bit i) e,
          sym (bit-bit_and i b flag) ∙ ap (bit i) f,
        ))))

alone : (a : ℕ) → bit_and a a ≡ a
alone a = bit_ext _ _ λ i. rw (bit-bit_and i a a) (omega arith)

swapped : (a b : ℕ) → bit_and a b ≡ bit_and b a
swapped a b = bit_ext _ _ λ i. rw (bit-bit_and i a b) (rw (bit-bit_and i b a) (omega arith))

none_left : (a : ℕ) → bit_or 0 a ≡ a
none_left a = bit_ext _ _ λ i. rw (bit-bit_or i 0 a) (omega (arith, bit-zero i))

none_right : (a : ℕ) → bit_or a 0 ≡ a
none_right a = bit_ext _ _ λ i. rw (bit-bit_or i a 0) (omega (arith, bit-zero i))

module _ (c : SocketConstants) (ok : IsSocketConstants c) where
  nonblock_bits :
      (t : SocketType)
      → bit_and (type_value c t) c.sock_nonblock
        ≡ elim (named_non_blocking t) [ true ↦ c.sock_nonblock | false ↦ 0 ]
  unfolding type_value
  nonblock_bits (plain k) = ok.kind-nonblock k
  nonblock_bits (non_blocking k) =
      joined _ _ _ _ _ (ok.kind-nonblock k) (alone c.sock_nonblock) ∙ none_left c.sock_nonblock
  nonblock_bits (close_on_exec k) =
      joined _ _ _ _ _ (ok.kind-nonblock k)
        (swapped c.sock_cloexec c.sock_nonblock ∙ ok.flags_apart)
      ∙ none_left 0
  nonblock_bits (non_blocking_close_on_exec k) =
      joined _ _ _ _ _
        (joined _ _ _ _ _ (ok.kind-nonblock k) (alone c.sock_nonblock) ∙ none_left c.sock_nonblock)
        (swapped c.sock_cloexec c.sock_nonblock ∙ ok.flags_apart)
      ∙ none_right c.sock_nonblock

  cloexec_bits :
      (t : SocketType)
      → bit_and (type_value c t) c.sock_cloexec
        ≡ elim (named_close_on_exec t) [ true ↦ c.sock_cloexec | false ↦ 0 ]
  unfolding type_value
  cloexec_bits (plain k) = ok.kind-cloexec k
  cloexec_bits (non_blocking k) = joined _ _ _ _ _ (ok.kind-cloexec k) ok.flags_apart ∙ none_left 0
  cloexec_bits (close_on_exec k) =
      joined _ _ _ _ _ (ok.kind-cloexec k) (alone c.sock_cloexec) ∙ none_left c.sock_cloexec
  cloexec_bits (non_blocking_close_on_exec k) =
      joined _ _ _ _ _ (joined _ _ _ _ _ (ok.kind-cloexec k) ok.flags_apart ∙ none_left 0)
        (alone c.sock_cloexec)
      ∙ none_left c.sock_cloexec

  not_none : (b : Bool) (flag : ℕ) → flag ≢ 0 → not (elim b [ true ↦ flag | false ↦ 0 ] == 0) ≡ b
  not_none true flag h = rw (ne→== flag 0 h)
  not_none false flag h = refl

  -- With the flags of socket(2), a type is non-blocking exactly if its name says so, and is closed on
  -- exec exactly if its name says so.
  pub flags-type_value :
      (t : SocketType)
      → (is_non_blocking c t ≡ named_non_blocking t)
        × (is_close_on_exec c t ≡ named_close_on_exec t)
  unfolding is_non_blocking is_close_on_exec
  flags-type_value t = (
    rw (nonblock_bits t) (not_none (named_non_blocking t) c.sock_nonblock ok.nonblock_set),
    rw (cloexec_bits t) (not_none (named_close_on_exec t) c.sock_cloexec ok.cloexec_set),
  )
