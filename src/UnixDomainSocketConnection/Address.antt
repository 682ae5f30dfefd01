-- ===== src/UnixDomainSocketConnection/Address.antt =====
-- The address of a Unix domain socket in its structure, and the length that SUN_LEN computes.
use libkzr.Prelude.{
  ℕ, zero, suc, ◌+◌, ◌-◌, ◌≤◌, ◌<◌, ◌≡◌, ◌≢◌, refl, sym, ap, ◌∙◌, Bool, true, false, none, some, [],
  ◌∷◌, ◌++◌, length, take, replicate, All, ltb, lt→ltb, le→ltb, if◌then◌else◌, arith,
}
use libkzr.Outcome.{Outcome, throw, returns, throws, undefined, no_connect, ◌>>=◌}
use libkzr.MessageStream.{Text}
use libkzr.SocketConnection.{SocketConnection, connect_to, dial}
use libkzr.SocketConnection
use libkzr.FileHandleConnection.{is_valid_handle}
use libkzr.UnixDomainSocketConnection.{
  SunPath, SocketSystem, path_size, path_offset, copied, strlen, sun_len, perform_dial, is_zero,
  require,
}

-- No character is NUL.
abbrev pub IsPlain : Text → Type 0
IsPlain address = All (λ c. 0 < c) address

take_nil : (n : ℕ) → take {A = ℕ} n [] ++ replicate (n - 0) 0 ≡ replicate (n - 0) 0
take_nil zero = refl
take_nil (suc n) = refl

-- The array is the front of the address, and zeros in what is left.
pub copied_lem :
    (n : ℕ) (address : Text) → copied n address ≡ take n address ++ replicate (n - length address) 0
unfolding copied
copied_lem zero address = let none_left : 0 - length address ≡ 0 = omega arith in rw none_left
copied_lem (suc n) [] =
    let all_left : suc n - 0 ≡ suc n = omega arith in
    let same : n - 0 ≡ n = omega arith in
    rw all_left (ap (λ t. 0 ∷ t) (rw same at (copied_lem n [] ∙ take_nil n)))
copied_lem (suc n) (c ∷ address) =
    let less : suc n - suc (length address) ≡ n - length address = omega arith in
    rw less (ap (λ t. c ∷ t) (copied_lem n address))

strlen-copied :
    (n : ℕ) (address : Text)
    → IsPlain address
    → strlen (copied n address) ≡ (if ltb (length address) n then some (length address) else none)
unfolding strlen copied
strlen-copied zero address h = rw (le→ltb (length address) 0 (omega arith))
strlen-copied (suc n) [] h = rw (lt→ltb 0 (suc n) (omega arith))
strlen-copied (suc n) (c ∷ address) (hc, h) = ground (arith, strlen-copied n address h)

take_all : (n : ℕ) (t : Text) → length t ≤ n → take n t ≡ t
take_all zero [] h = refl
take_all (suc n) [] h = refl
take_all zero (c ∷ t) h = absurd (omega arith)
take_all (suc n) (c ∷ t) h = ap (λ t. c ∷ t) (take_all n t (omega arith))

-- sun_path with an address that fits: its characters, and NULs up to the end of the array.
abbrev pub terminated : Text → SunPath
terminated address = address ++ replicate (path_size - length address) 0

pub copied-fits :
    (address : Text) → length address < path_size → copied path_size address ≡ terminated address
copied-fits address h =
    copied_lem path_size address
    ∙ ap (λ t. t ++ replicate (path_size - length address) 0)
        (take_all path_size address (omega arith))

-- Its length, where the address has no NULs.
pub sun_len-terminated :
    (address : Text)
    → IsPlain address
    → length address < path_size
    → sun_len (strlen (terminated address)) ≡ some (path_offset + length address)
unfolding sun_len
sun_len-terminated address h short =
    ap (λ p. sun_len (strlen p)) (sym (copied-fits address short))
    ∙ rw (strlen-copied path_size address h, lt→ltb (length address) path_size short) refl

-- No length is computed where the array has no terminator.
pub sun_len-copied_long :
    (address : Text)
    → IsPlain address
    → path_size ≤ length address
    → sun_len (strlen (copied path_size address)) ≡ none
unfolding sun_len
sun_len-copied_long address h long =
    rw (strlen-copied path_size address h, le→ltb (length address) path_size long)

module _ {W : Type 0} (sys : SocketSystem W) where
  -- Dialling a fresh valid socket at an address without NULs that fills the array is undefined
  -- behaviour, and no system call comes before it.
  pub dial_long_path :
      (address : Text) (s : SocketConnection) (w : W)
      → IsPlain address
      → path_size ≤ length address
      → s.mode ≡ SocketConnection.undefined
      → is_valid_handle s.file ≡ true
      → dial (perform_dial sys) address (s, w)
        ≡ (undefined, (record s { mode = connect_to; address = address }, w))
  unfolding dial perform_dial ◌>>=◌
  dial_long_path address s w h long e v = simp (e, v, sun_len-copied_long address h long)

  required :
      (b : Bool) (w : W) (s : SocketConnection)
      → ◌≡◌ {A = Outcome (Unit {0}) × (SocketConnection × W)}
          ((require b (throw no_connect) w).0, (s, (require b (throw no_connect) w).1))
          ((if b then returns tt else throws no_connect), (s, w))
  required true w s = refl
  required false w s = refl

  -- At an address without NULs of less than 108 characters, dialling a fresh valid socket is one
  -- connect(2) on its descriptor, with the characters of the address and NULs up to the end of sun_path,
  -- and with a length of two bytes more than the address: a result of 0 returns, and any other throws.
  pub dial_connects :
      (address : Text) (s : SocketConnection) (w : W)
      → IsPlain address
      → length address < 108
      → s.mode ≡ SocketConnection.undefined
      → is_valid_handle s.file ≡ true
      → let called =
          sys.sys_connect s.file.handle
            (address ++ replicate (108 - length address) 0)
            (2 + length address)
            w in
        dial (perform_dial sys) address (s, w) ≡ (
          (if is_zero called.0 then returns tt else throws no_connect),
          (record s { mode = connect_to; address = address }, called.1),
        )
  unfolding dial perform_dial ◌>>=◌
  dial_connects address s w h short e v =
      let path = address ++ replicate (108 - length address) 0 in
      let called = sys.sys_connect s.file.handle path (2 + length address) w in
      simp (e, v, copied-fits address short, sun_len-terminated address h short)
        (required (is_zero called.0) called.1 (record s { mode = connect_to; address = address }))

  answer_defined :
      (b : Bool)
      → ◌≢◌ {A = Outcome (Unit {0})} (if b then returns tt else throws no_connect) undefined
  answer_defined true = λ p. cc
  answer_defined false = λ p. cc

  pub dial_defined :
      (address : Text) (s : SocketConnection) (w : W)
      → IsPlain address
      → length address < 108
      → s.mode ≡ SocketConnection.undefined
      → is_valid_handle s.file ≡ true
      → (dial (perform_dial sys) address (s, w)).0 ≢ undefined
  dial_defined address s w plain short e v =
      rw (dial_connects address s w plain short e v) (answer_defined _)
