-- ===== src/Base/Outcome.antt =====
-- A call that returns or raises.

pub data Outcome {ℓ κ} (E : Type ℓ) (A : Type κ) : Type (ℓ ⊔ κ) where
  raised : E → Outcome E A
  returned : A → Outcome E A

-- What is raised ends the rest of the block.
infixl 5 ◌>>=◌
abbrev pub ◌>>=◌ {ℓ κ μ} :
    {E : Type ℓ} {A : Type κ} {B : Type μ} (call : Outcome E A) (rest : A → Outcome E B)
    → Outcome E B
raised e >>= rest = raised e
returned a >>= rest = rest a
