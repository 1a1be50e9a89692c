-- ===== src/Seating/Agreement.antt =====
-- The accounts that a seat is asked for are those of the table of credentials.
use cursor_pulse.Base.{
  ℕ, ◌≡◌, ◌≢◌, refl, sym, ap, ◌∙◌, Bool, true, List, [], ◌∷◌, ◌++◌, map, Option, none, some, arith,
  if◌then◌else◌, is_some, keep, All, All-keep, Bool-cases, Option-cases, inl, inr,
}
use cursor_pulse.Base.Dict.{Dict, lookup, insert, nat_eq, lookup-insert, All-lookup, All-insert}
use cursor_pulse.Base.Keyed.{HasKeys}
use cursor_pulse.Base.Sorting.{All-sort_by}
use cursor_pulse.Loans.{Credential, get_credential}
use cursor_pulse.Seats.Choice.{set_defaults, account_of}
use cursor_pulse.Seating.{accounts_for, in_pool_order, allowed}

abbrev pub cred_id : Credential → ℕ
cred_id c = c.id

abbrev pub row_account : Option Credential → ℕ
row_account none = 0
row_account (some row) = row.account_id

abbrev pub account_id_of : List Credential → ℕ → ℕ
account_id_of creds c = row_account (get_credential c creds)

-- A credential with the account that the table has for it.
abbrev pub IsFiled : List Credential → ℕ × ℕ → Type 0
IsFiled creds p = p.1 ≡ account_id_of creds p.0

get_credential-cons :
    (c : Credential) (creds ks : List Credential)
    → All (λ k. k.id ≢ c.id) ks
    → All (λ k. get_credential k.id creds ≡ some k) ks
    → All (λ k. get_credential k.id (c ∷ creds) ≡ some k) ks
unfolding get_credential
get_credential-cons c creds [] a b = tt
get_credential-cons c creds (k ∷ ks) a b =
    (ground (arith, b.0), get_credential-cons c creds ks a.1 b.1)

get_credential-All :
    (creds : List Credential)
    → HasKeys cred_id creds
    → All (λ k. get_credential k.id creds ≡ some k) creds
unfolding get_credential
get_credential-All [] keyed = tt
get_credential-All (c ∷ creds) keyed =
    (ground arith, get_credential-cons c creds creds keyed.0 (get_credential-All creds keyed.1))

module _ (table : List Credential) where
  accounts_for-rows :
      (p : Credential → Bool) (creds : List Credential)
      → All (λ k. get_credential k.id table ≡ some k) creds
      → All (IsFiled table) (map (λ c. (c.id, c.account_id)) (keep p creds))
  accounts_for-rows p [] found = tt
  accounts_for-rows p (c ∷ creds) found = elim (Bool-cases (p c)) [
    | inl chosen ↦ rw chosen (ap row_account (sym found.0), accounts_for-rows p creds found.1)
    | inr other ↦ rw other (accounts_for-rows p creds found.1)
  ]

  pub accounts_for-All :
      (ids : List ℕ) → HasKeys cred_id table → All (IsFiled table) (accounts_for table ids)
  unfolding accounts_for
  accounts_for-All ids keyed = accounts_for-rows _ table (get_credential-All table keyed)

  pub allowed-All :
      (d : Dict ℕ ℕ) (ids : List ℕ) → All (IsFiled table) d → All (IsFiled table) (allowed d ids)
  unfolding allowed
  allowed-All d [] filed = tt
  allowed-All d (c ∷ ids) filed = elim (Option-cases (lookup c d)) [
    | inl missing ↦ rw (missing, allowed) (allowed-All d ids filed)
    | inr (a, found) ↦
        rw (found, allowed)
          (All-lookup (λ j b. IsFiled table (j, b)) c a d filed found, allowed-All d ids filed)
  ]

  All-append :
      (xs ys : List (ℕ × ℕ))
      → All (IsFiled table) xs
      → All (IsFiled table) ys
      → All (IsFiled table) (xs ++ ys)
  All-append [] ys a b = b
  All-append (x ∷ xs) ys a b = (a.0, All-append xs ys a.1 b)

  pub in_pool_order-All :
      (ranked order : List (ℕ × ℕ))
      → All (IsFiled table) ranked
      → All (IsFiled table) (in_pool_order ranked order)
  unfolding in_pool_order
  in_pool_order-All ranked order filed =
      All-append _ _ (All-sort_by _ (IsFiled table) _ (All-keep (IsFiled table) _ ranked filed))
        (All-keep (IsFiled table) _ ranked filed)

  pub set_defaults-All :
      (ranked : List (ℕ × ℕ)) (d : Dict ℕ ℕ)
      → All (IsFiled table) ranked
      → All (IsFiled table) d
      → All (IsFiled table) (set_defaults ranked d)
  unfolding set_defaults
  set_defaults-All [] d agreed filed = filed
  set_defaults-All ((c, a) ∷ ranked) d agreed filed = elim (Bool-cases (is_some (lookup c d))) [
    | inl known ↦ rw (known, set_defaults) (set_defaults-All ranked d agreed.1 filed)
    | inr fresh ↦
        rw (fresh, set_defaults)
          (set_defaults-All ranked (insert c a d) agreed.1
            (All-insert (λ j b. IsFiled table (j, b)) c a d filed agreed.0))
  ]

  -- Keys stay.
  set_defaults-stays :
      (c : ℕ) (ranked : List (ℕ × ℕ)) (d : Dict ℕ ℕ)
      → is_some (lookup c d) ≡ true
      → is_some (lookup c (set_defaults ranked d)) ≡ true
  unfolding set_defaults
  set_defaults-stays c [] d known = known
  set_defaults-stays c ((j, a) ∷ ranked) d known = elim (Bool-cases (is_some (lookup j d))) [
    | inl old ↦ rw (old, set_defaults) (set_defaults-stays c ranked d known)
    | inr fresh ↦
        rw (fresh, set_defaults)
          (set_defaults-stays c ranked (insert j a d)
            (rw (lookup-insert j c a d) (ground (arith, known))))
  ]

  known_after :
      (c a : ℕ) (d : Dict ℕ ℕ)
      → is_some (lookup c (if is_some (lookup c d) then d else insert c a d)) ≡ true
  known_after c a d = elim (Bool-cases (is_some (lookup c d))) [
    | inl old ↦ rw (old, old) refl
    | inr fresh ↦ rw (fresh, lookup-insert c c a d) (ground arith)
  ]

  set_defaults-known :
      (ranked : List (ℕ × ℕ)) (d : Dict ℕ ℕ)
      → All (λ p. is_some (lookup p.0 (set_defaults ranked d)) ≡ true) ranked
  unfolding set_defaults
  set_defaults-known [] d = tt
  set_defaults-known ((c, a) ∷ ranked) d =
      let d' = if is_some (lookup c d) then d else insert c a d in
      (set_defaults-stays c ranked d' (known_after c a d), set_defaults-known ranked d')

  agree_all :
      (ranked : List (ℕ × ℕ)) (d : Dict ℕ ℕ)
      → All (IsFiled table) ranked
      → All (IsFiled table) d
      → All (λ p. is_some (lookup p.0 d) ≡ true) ranked
      → All (λ p. account_of d p.0 ≡ p.1) ranked
  agree_all [] d agreed filed known = tt
  agree_all ((c, a) ∷ ranked) d agreed filed known = (
    elim (Option-cases (lookup c d)) [
      | inl missing ↦ ground (arith, known.0, missing)
      | inr (b, found) ↦
          rw found (All-lookup (λ j e. IsFiled table (j, e)) c b d filed found ∙ sym agreed.0)
    ],
    agree_all ranked d agreed.1 filed known.1,
  )

  -- A ranking of filed credentials agrees with the accounts that are made of it.
  pub set_defaults-agree :
      (ranked : List (ℕ × ℕ)) (d : Dict ℕ ℕ)
      → All (IsFiled table) ranked
      → All (IsFiled table) d
      → All (λ p. account_of (set_defaults ranked d) p.0 ≡ p.1) ranked
  set_defaults-agree ranked d agreed filed =
      agree_all ranked _ agreed (set_defaults-All ranked d agreed filed)
        (set_defaults-known ranked d)
