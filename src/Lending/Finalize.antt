-- ===== src/Lending/Finalize.antt =====
-- What is revoked at Cursor after a loan has moved.
use cursor_pulse.Base.{
  ℕ, ◌≡◌, ◌⊎◌, refl, ap, ◌∙◌, Bool, true, false, List, [], ◌∷◌, some, arith, inl, inr, Option-cases,
}
use cursor_pulse.Loans.{KeyLoan, Credential, Ledger, get_credential}
use cursor_pulse.Lending.{World, drop_key}
use cursor_pulse.Lending.Accounts.{get_primary_credential}
use cursor_pulse.Lending.Reassign.{
  Reassignment, Pending, old_credential, pending_revoke, reassign_pending,
  finalize_reassign_old_remote_revoke,
}

pending_revoke-some :
    (loan : KeyLoan) (creds : List Credential) (p : Pending)
    → pending_revoke loan creds ≡ some p
    → (c : Credential) × (get_credential loan.credential_id creds ≡ some c)
      × (c.is_active ≡ true)
      × (p.remote_key_id ≡ c.remote_key_id)
unfolding pending_revoke old_credential
pending_revoke-some loan creds p e = elim (Option-cases (old_credential loan creds)) [
  | inl missing ↦ ground (arith, rw (missing, pending_revoke) at e)
  | inr (c, old) ↦ (c, ground (arith, old), ground (arith, e, old), ground (arith, e, old))
]

finalize-some :
    (world : World) (revokes : ℕ → Bool) (p : Pending) (ledger : Ledger)
    → let done = finalize_reassign_old_remote_revoke world revokes (some p) ledger in
      ((done.0 ≡ false) × (done.1 ≡ [])) ⊎ (done.1 ≡ drop_key p.remote_key_id ∷ [])
unfolding finalize_reassign_old_remote_revoke
finalize-some world revokes p ledger =
    elim (Option-cases (get_primary_credential p.old_source_account_id ledger.credentials)) [
      | inl lost ↦ rw (finalize_reassign_old_remote_revoke, lost) (inl (refl, refl))
      | inr (c, primary) ↦ elim (Option-cases (world.decrypt world.encryption_key c.id)) [
        | inl closed ↦ rw (finalize_reassign_old_remote_revoke, primary, closed) (inl (refl, refl))
        | inr (key, clear) ↦ elim (Option-cases (world.client.get_access_token key)) [
          | inl refused ↦
              rw (finalize_reassign_old_remote_revoke, primary, clear, refused) (inl (refl, refl))
          | inr (token, granted) ↦
              rw (finalize_reassign_old_remote_revoke, primary, clear, granted) (inr refl)
        ]
      ]
    ]

-- After a call of `reassign_loan_source` on tables with the given credentials, the last step revokes no
-- key at Cursor, or only the one of the credential that the loan had, which was active; it says that a key
-- is revoked only where that call was made.
pub finalize-reassign_pending :
    (world : World) (revokes : ℕ → Bool) (call : Reassignment) (loan : KeyLoan)
    (creds : List Credential) (ledger : Ledger)
    → let done =
        finalize_reassign_old_remote_revoke world revokes
          (reassign_pending call loan creds)
          ledger in
      ((done.0 ≡ false) × (done.1 ≡ []))
      ⊎ ((c : Credential) × (get_credential loan.credential_id creds ≡ some c)
          × (c.is_active ≡ true)
          × (done.1 ≡ drop_key c.remote_key_id ∷ []))
unfolding finalize_reassign_old_remote_revoke reassign_pending
finalize-reassign_pending world revokes call loan creds ledger =
    elim (Option-cases (reassign_pending call loan creds)) [
      | inl nothing ↦ rw nothing (inl (refl, refl))
      | inr (p, left) ↦
          let old : pending_revoke loan creds ≡ some p = ground (arith, left) in
          let (c, found, live, key) = pending_revoke-some loan creds p old in
          let stays = finalize-some world revokes p ledger in
          elim stays [
            | inl (said, none_made) ↦ rw left (inl (said, none_made))
            | inr made ↦ rw left (inr (c, found, live, made ∙ ap (λ id. drop_key id ∷ []) key))
          ]
    ]
