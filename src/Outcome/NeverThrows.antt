-- ===== src/Outcome/NeverThrows.antt =====
-- Actions that no exception leaves.
use libkzr.Outcome.{
  Outcome, returns, throws, undefined, Action, pure, undefined_behaviour, ◌>>=◌, continue,
}

unfoldable pub IsQuiet : {A : Type 0} → Outcome A → Type 0
IsQuiet (returns a) = Unit {0}
IsQuiet (throws e) = ⊥
IsQuiet undefined = Unit {0}

pub record NeverThrows {S A : Type 0} (m : Action S A) : Type 0 where
  pub at : (s : S) → IsQuiet (m s).0

module _ {S A : Type 0} where
  pub NeverThrows-pure : (a : A) → NeverThrows {S = S} (pure a)
  unfolding IsQuiet
  NeverThrows-pure a = record { at = λ s. tt }

  pub NeverThrows-undefined : NeverThrows {S = S} {A = A} undefined_behaviour
  unfolding IsQuiet
  NeverThrows-undefined = record { at = λ s. tt }

module _ {S A B : Type 0} {f : A → Action S B} (pf : (a : A) → NeverThrows (f a)) where
  IsQuiet-continue : (r : Outcome A) (s : S) → IsQuiet r → IsQuiet (continue r f s).0
  unfolding IsQuiet
  IsQuiet-continue (returns a) s q = (pf a).at s
  IsQuiet-continue (throws e) s q = absurd q
  IsQuiet-continue undefined s q = tt

  pub NeverThrows->>= : {m : Action S A} → NeverThrows m → NeverThrows (m >>= f)
  unfolding ◌>>=◌
  NeverThrows->>= {m} q = record { at = λ s. IsQuiet-continue (m s).0 (m s).1 (q.at s) }
