-- ===== src/Base/Dict.antt =====
-- A Python dict in insertion order, over keys with a Boolean equality.
use cursor_pulse.Base.Tests.{Bool-cases, if◌then◌else◌, ◌==◌ as nat_beq, ==_iff}
use Prim.Native.Nat.{ℕ}
use mathlib.Core.Path.{◌≡◌, refl, sym, ap}
use mathlib.Core.Logic.{◌↔◌, inl, inr}
use mathlib.Core.Bool.{Bool, true, false, ◌&&◌}
use mathlib.Core.Option.{Option, none, some}
use mathlib.Core.List.{List, [], ◌∷◌}
use cursor_pulse.Base.Lists.{All, keep}
use native.Mathlib.Omega.{arith}

pub record Eq {ℓ} (A : Type ℓ) : Type ℓ where
  pub beq : A → A → Bool
  pub beq_iff : (a b : A) → (beq a b ≡ true) ↔ (a ≡ b)

instance abbrev pub nat_eq : Eq ℕ
nat_eq = record { beq = nat_beq; beq_iff = ==_iff }

abbrev pub pair_beq : ℕ × ℕ → ℕ × ℕ → Bool
pair_beq p q = nat_beq p.0 q.0 && nat_beq p.1 q.1

pub pair_beq_iff : (p q : ℕ × ℕ) → (pair_beq p q ≡ true) ↔ (p ≡ q)
pair_beq_iff p q = ground arith

instance abbrev pub pair_eq : Eq (ℕ × ℕ)
pair_eq = record { beq = pair_beq; beq_iff = pair_beq_iff }

abbrev pub Dict {ℓ κ} : Type ℓ → Type κ → Type (ℓ ⊔ κ)
Dict K V = List (K × V)

module _ {ℓ κ} {K : Type ℓ} {V : Type κ} ⦃e : Eq K⦄ where
  -- `d.get(k)`
  abbrev pub lookup : K → Dict K V → Option V
  lookup k [] = none
  lookup k ((j, v) ∷ d) = if e.beq k j then some v else lookup k d

  -- `d[k] = v`: an old key keeps its place, a new one goes to the end.
  abbrev pub insert : K → V → Dict K V → Dict K V
  insert k v [] = (k, v) ∷ []
  insert k v ((j, w) ∷ d) = if e.beq k j then (j, v) ∷ d else (j, w) ∷ insert k v d

  -- `d.pop(k, None)`
  abbrev pub erase : K → Dict K V → Dict K V
  erase k [] = []
  erase k ((j, w) ∷ d) = if e.beq k j then d else (j, w) ∷ erase k d

  -- No key is listed twice.
  abbrev pub Distinct : Dict K V → Type κ
  Distinct [] = Unit
  Distinct ((k, v) ∷ d) = (lookup k d ≡ none) × Distinct d

  pub lookup-insert :
      (k j : K) (v : V) (d : Dict K V)
      → lookup j (insert k v d) ≡ (if e.beq j k then some v else lookup j d)
  lookup-insert k j v [] = refl
  lookup-insert k j v ((i, w) ∷ d) =
      ground (arith, e.beq_iff k i, e.beq_iff j i, e.beq_iff j k, lookup-insert k j v d)

  pub lookup-erase_ne :
      (k j : K) (d : Dict K V) → e.beq j k ≡ false → lookup j (erase k d) ≡ lookup j d
  lookup-erase_ne k j [] h = refl
  lookup-erase_ne k j ((i, w) ∷ d) h =
      ground (arith, e.beq_iff k i, e.beq_iff j i, e.beq_iff j k, lookup-erase_ne k j d)

  pub lookup-erase_self : (k : K) (d : Dict K V) → Distinct d → lookup k (erase k d) ≡ none
  lookup-erase_self k [] h = refl
  lookup-erase_self k ((i, w) ∷ d) h = ground (arith, e.beq_iff k i, lookup-erase_self k d h.1)

  pub insert-Distinct : (k : K) (v : V) (d : Dict K V) → Distinct d → Distinct (insert k v d)
  insert-Distinct k v [] h = (refl, tt)
  insert-Distinct k v ((i, w) ∷ d) h =
      ground (arith, e.beq_iff k i, e.beq_iff i k, insert-Distinct k v d h.1, lookup-insert k i v d)

  pub erase-Distinct : (k : K) (d : Dict K V) → Distinct d → Distinct (erase k d)
  erase-Distinct k [] h = tt
  erase-Distinct k ((i, w) ∷ d) h =
      ground (arith, e.beq_iff k i, e.beq_iff i k, erase-Distinct k d h.1, lookup-erase_ne k i d)

  -- What holds of every item holds of every value that is found, and the other way round.
  pub All-lookup {μ} :
      (P : K → V → Type μ) (k : K) (v : V) (d : Dict K V)
      → All (λ i. P i.0 i.1) d
      → lookup k d ≡ some v
      → P k v
  All-lookup P k v [] a h = cc
  All-lookup P k v ((j, w) ∷ d) a h = elim (Bool-cases (e.beq k j)) [
    | inl same ↦
        let at : k ≡ j = (e.beq_iff k j).0 same in let is : v ≡ w = ground arith in rw (at, is) a.0
    | inr other ↦ All-lookup P k v d a.1 (ground arith)
  ]

  pub All-of_lookup {μ} :
      (P : K → V → Type μ) (d : Dict K V)
      → Distinct d
      → ((k : K) (v : V) → lookup k d ≡ some v → P k v)
      → All (λ i. P i.0 i.1) d
  All-of_lookup P [] u h = tt
  All-of_lookup P ((j, w) ∷ d) u h = (
    h j w (ground (arith, e.beq_iff j j)),
    All-of_lookup P d u.1
        (λ k v found. h k v (ground (arith, e.beq_iff k j, ap (λ (i : K). lookup i d)))),
  )

  pub All-insert {μ} :
      (P : K → V → Type μ) (k : K) (v : V) (d : Dict K V)
      → All (λ i. P i.0 i.1) d
      → P k v
      → All (λ i. P i.0 i.1) (insert k v d)
  All-insert P k v [] a p = (p, tt)
  All-insert P k v ((j, w) ∷ d) a p = elim (Bool-cases (e.beq k j)) [
    | inl same ↦ rw (same, ← (e.beq_iff k j).0 same) (p, a.1)
    | inr other ↦ rw other (a.0, All-insert P k v d a.1 p)
  ]

  pub All-erase {μ} :
      (P : K → V → Type μ) (k : K) (d : Dict K V)
      → All (λ i. P i.0 i.1) d
      → All (λ i. P i.0 i.1) (erase k d)
  All-erase P k [] a = tt
  All-erase P k ((j, w) ∷ d) a = elim (Bool-cases (e.beq k j)) [
    | inl same ↦ rw same a.1
    | inr other ↦ rw other (a.0, All-erase P k d a.1)
  ]

  lookup-keep-none :
      (p : K × V → Bool) (k : K) (d : Dict K V) → lookup k d ≡ none → lookup k (keep p d) ≡ none
  lookup-keep-none p k [] h = refl
  lookup-keep-none p k ((j, w) ∷ d) h = ground (arith, lookup-keep-none p k d)

  pub keep-Distinct : (p : K × V → Bool) (d : Dict K V) → Distinct d → Distinct (keep p d)
  keep-Distinct p [] h = tt
  keep-Distinct p ((j, w) ∷ d) h = elim (Bool-cases (p (j, w))) [
    | inl stays ↦ rw stays (lookup-keep-none p j d h.0, keep-Distinct p d h.1)
    | inr goes ↦ rw goes (keep-Distinct p d h.1)
  ]

  pub lookup-keep-some :
      (p : K × V → Bool) (k : K) (v : V) (d : Dict K V)
      → lookup k d ≡ some v
      → p (k, v) ≡ true
      → lookup k (keep p d) ≡ some v
  lookup-keep-some p k v [] h y = cc
  lookup-keep-some p k v ((j, w) ∷ d) h y = elim (Bool-cases (e.beq k j)) [
    | inl same ↦
        let at : k ≡ j = (e.beq_iff k j).0 same in
        let is : v ≡ w = ground arith in
        let stays : p (j, w) ≡ true = rw (at, is) at y in rw (stays, same) (ap some (sym is))
    | inr other ↦ ground (arith, lookup-keep-some p k v d)
  ]
