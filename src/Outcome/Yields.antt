-- ===== src/Outcome/Yields.antt =====
-- What is known of the value that an action gives back, if it gives one.
use libkzr.Outcome.{
  Outcome, returns, throws, undefined, Exception, Action, pure, throw, ◌>>=◌, continue,
}

unfoldable pub Holds : {A : Type 0} → (A → Type 0) → Outcome A → Type 0
Holds P (returns a) = P a
Holds P (throws e) = Unit {0}
Holds P undefined = Unit {0}

-- At one state, and at all of them.
pub record YieldsAt {S A : Type 0} (s : S) (P : A → Type 0) (m : Action S A) : Type 0 where
  pub holds : Holds P (m s).0

pub record Yields {S A : Type 0} (P : A → Type 0) (m : Action S A) : Type 0 where
  pub at : (s : S) → YieldsAt s P m

any-Holds : {A : Type 0} (r : Outcome A) → Holds (λ _. Unit {0}) r
unfolding Holds
any-Holds (returns a) = tt
any-Holds (throws e) = tt
any-Holds undefined = tt

module _ {S A : Type 0} {P : A → Type 0} where
  pub Yields-pure : (a : A) → P a → Yields {S = S} P (pure a)
  unfolding Holds
  Yields-pure a p = record { at = λ s. record { holds = p } }

  pub Yields-throw : (e : Exception) → Yields {S = S} P (throw e)
  unfolding Holds
  Yields-throw e = record { at = λ s. record { holds = tt } }

module _ {S A B : Type 0} {P : B → Type 0} {f : A → Action S B} where
  Holds-continue :
      {Q : A → Type 0} (r : Outcome A) (s : S)
      → Holds Q r
      → ((a : A) → Q a → Yields P (f a))
      → Holds P (continue r f s).0
  unfolding Holds
  Holds-continue (returns a) s q pf = ((pf a q).at s).holds
  Holds-continue (throws e) s q pf = tt
  Holds-continue undefined s q pf = tt

  -- What holds of the first value may be used for the second.
  pub YieldsAt->>= :
      {Q : A → Type 0} {m : Action S A} {s : S}
      → YieldsAt s Q m
      → ((a : A) → Q a → Yields P (f a))
      → YieldsAt s P (m >>= f)
  unfolding ◌>>=◌
  YieldsAt->>= {m} {s} q pf = record { holds = Holds-continue (m s).0 (m s).1 q.holds pf }

  pub Yields->>= : (m : Action S A) → ((a : A) → Yields P (f a)) → Yields P (m >>= f)
  unfolding ◌>>=◌
  Yields->>= m pf = record {
    at = λ s. record { holds = Holds-continue (m s).0 (m s).1 (any-Holds (m s).0) (λ a _. pf a) };
  }

pub Holds-map :
    {A : Type 0} {P Q : A → Type 0} (pq : (a : A) → P a → Q a) (r : Outcome A)
    → Holds P r
    → Holds Q r
unfolding Holds
Holds-map pq (returns a) p = pq a p
Holds-map pq (throws e) p = tt
Holds-map pq undefined p = tt

pub YieldsAt-map :
    {S A : Type 0} {P Q : A → Type 0} {m : Action S A} {s : S}
    → ((a : A) → P a → Q a)
    → YieldsAt s P m
    → YieldsAt s Q m
YieldsAt-map {m} {s} pq p = record { holds = Holds-map pq (m s).0 p.holds }
