-- ===== src/Sticky/Usable.antt =====
-- What a gateway key is given, by the rows of the accounts.
use cursor_pulse.Base.{
  ℕ, ◌≡◌, Bool, true, false, ◌&&◌, List, [], ◌∷◌, some, arith, ◌==◌, elem, All, Bool-cases, inl,
  inr,
}
use cursor_pulse.Base.Text.{Text, strip, lower}
use cursor_pulse.Loans.{Credential}
use cursor_pulse.Keys.{ProxyKey}
use cursor_pulse.Sticky.{Entry, GatewaySelection, Gateway}
use cursor_pulse.Sticky.Pool.{PoolRow, is_listed, list_cp_pool_entries, list_cp_pool_entries-All}
use cursor_pulse.Sticky.Resolve.{Pick, resolve_cp_credential}
use cursor_pulse.Sticky.Entries.{lists}
use cursor_pulse.Sticky.Picked.{resolve_cp_credential-IsOpen}

-- What holds of all entries by their ids, holds of what has the ids of one.
is_listed-any :
    (slug : Text) (rows : List PoolRow) (entries : List Entry) (e : Entry)
    → All (λ x. is_listed slug rows x ≡ true) entries
    → lists entries e ≡ true
    → is_listed slug rows e ≡ true
is_listed-any slug rows [] e all here = ground arith
is_listed-any slug rows (x ∷ entries) e all here =
    elim (Bool-cases (x.credential_id == e.credential_id && x.account_id == e.account_id)) [
      | inl same ↦
          let id : x.credential_id ≡ e.credential_id = ground arith in
          let account : x.account_id ≡ e.account_id = ground arith in rw (id, account) at all.0
      | inr other ↦ is_listed-any slug rows entries e all.1 (rw other at here)
    ]

-- What `resolve_cp_credential` returns for a gateway key comes from a row of the key's vendor: an active
-- primary credential of an account that is enabled, not deleted and below 95 percent of its quota. It has
-- a key in clear, and the credential is not excluded.
pub resolve_cp_credential-IsUsable :
    (place : ℕ → ℕ) (decrypts : ℕ → Bool) (encryption_key vendor_slug : Text) (rows : List PoolRow)
    (holder : ℕ → ℕ) (rank : ℕ → ℕ → ℕ) (finds_deleted : Bool) (selection : GatewaySelection)
    (pick : Pick) (now mono : ℕ) (selection_of : ProxyKey → GatewaySelection) (keys : List ProxyKey)
    (creds : List Credential) (g : Gateway) (e : Entry)
    → (resolve_cp_credential holder rank finds_deleted selection pick now mono selection_of keys
        creds
        (list_cp_pool_entries place decrypts encryption_key vendor_slug rows)
        g).0
      ≡ some e
    → (is_listed (lower (strip vendor_slug)) rows e ≡ true)
      × (e.has_key ≡ true)
      × (elem e.credential_id pick.exclude_credential_ids ≡ false)
resolve_cp_credential-IsUsable place decrypts encryption_key vendor_slug rows holder rank
      finds_deleted selection pick now mono selection_of keys creds g e found =
    let entries = list_cp_pool_entries place decrypts encryption_key vendor_slug rows in
    let (allowed, has_key, listed) =
      resolve_cp_credential-IsOpen holder rank finds_deleted selection pick now mono selection_of
        keys creds entries g e found in
    (
      is_listed-any (lower (strip vendor_slug)) rows entries e
          (list_cp_pool_entries-All place decrypts encryption_key vendor_slug rows) listed,
      has_key,
      allowed,
    )
