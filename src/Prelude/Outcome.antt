-- ===== src/Prelude/Outcome.antt =====
-- Commands over a state that may fault (an access outside of every object) or use up their fuel.
pub data Outcome (S : Type 0) (A : Type 0) : Type 0 where
  done : A → S → Outcome S A
  fault : Outcome S A
  spent : Outcome S A

module _ {S : Type 0} {A : Type 0} where
  abbrev pub pure : A → S → Outcome S A
  pure a s = done a s

module _ {S : Type 0} {A B : Type 0} where
  abbrev pub continue : Outcome S A → (A → S → Outcome S B) → Outcome S B
  continue (done a s) f = f a s
  continue fault f = fault
  continue spent f = spent

  infixl 5 ◌>>=◌ ◌>>◌
  abbrev pub ◌>>=◌ : (S → Outcome S A) → (A → S → Outcome S B) → S → Outcome S B
  (m >>= f) s = continue (m s) f

  abbrev pub ◌>>◌ : (S → Outcome S A) → (S → Outcome S B) → S → Outcome S B
  (m >> n) s = continue (m s) (λ _. n)
