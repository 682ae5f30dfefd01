-- ===== src/Exception/What.antt =====
-- What is left of an exception's text in `what()`.
use libkzr.Prelude.{zero, suc, Bool, true, false, ◌<◌, ◌≡◌, refl, List, [], ◌∷◌, All, ne→==, arith}
use libkzr.Outcome.{
  Exception, string_too_long, vector_too_long, only_wrote, expected_four_bytes, only_read,
}
use libkzr.MessageStream.{Text}
use libkzr.Exception.Decimal.{decimal_positive, All-append}
use libkzr.Exception.{Argument, text, number, codes, arguments, message, what, c_string, streamed}

c_string_positive : (t : Text) → All (λ c. 0 < c) t → c_string t ≡ t
unfolding c_string
c_string_positive [] h = refl
c_string_positive (c ∷ cs) (h, hs) = rw (ne→== c 0 (omega arith)) (rw (c_string_positive cs hs))

-- A literal without NULs, by evaluation.
no_nul : Text → Bool
no_nul [] = true
no_nul (zero ∷ cs) = false
no_nul (suc c ∷ cs) = no_nul cs

no_nul_positive : (t : Text) → no_nul t ≡ true → All (λ c. 0 < c) t
unfolding no_nul
no_nul_positive [] h = tt
no_nul_positive (zero ∷ cs) h = absurd (cc h)
no_nul_positive (suc c ∷ cs) h = (omega arith, no_nul_positive cs h)

IsClean : Argument → Type 0
IsClean (text s) = no_nul (codes s) ≡ true
IsClean (number n) = Unit {0}

streamed_positive : (args : List Argument) → All IsClean args → All (λ c. 0 < c) (streamed args)
unfolding IsClean streamed
streamed_positive [] h = tt
streamed_positive (text s ∷ args) (h, hs) =
    All-append _ _ (no_nul_positive (codes s) h) (streamed_positive args hs)
streamed_positive (number n ∷ args) (h, hs) =
    All-append _ _ (decimal_positive n) (streamed_positive args hs)

arguments-IsClean : (e : Exception) → All IsClean (arguments e)
unfolding IsClean arguments no_nul
arguments-IsClean (string_too_long n) = (refl, (tt, (refl, (tt, (refl, tt)))))
arguments-IsClean (vector_too_long n) = (refl, (tt, (refl, (tt, (refl, tt)))))
arguments-IsClean (only_wrote n m) = (refl, (tt, (refl, (tt, (refl, tt)))))
arguments-IsClean (expected_four_bytes n) = (refl, (tt, (refl, tt)))
arguments-IsClean (only_read n m) = (refl, (tt, (refl, (tt, (refl, tt)))))
arguments-IsClean _ = (refl, tt)

-- `what()` gives the whole text of every exception that the library throws: no literal and no number in
-- it has a NUL, at which the C string would end.
pub what-message : (e : Exception) → what e ≡ message e
unfolding what message
what-message e =
    c_string_positive (message e) (streamed_positive (arguments e) (arguments-IsClean e))
