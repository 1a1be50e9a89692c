-- ===== src/Lending/Remote.antt =====
-- The keys at Cursor that a loan makes, and what is written here once one is made.
use cursor_pulse.Base.{ℕ, true, false, List, [], ◌∷◌, ◌++◌, map, none, some, ◌==◌, if◌then◌else◌}
use cursor_pulse.Base.Outcome.{Outcome, raised, returned, ◌>>=◌}
use cursor_pulse.Base.Text.{Text, codes, text_eq, is_empty}
use cursor_pulse.Loans.{Credential, Ledger}
use cursor_pulse.Keys.Answer.{first}
use cursor_pulse.Lending.{
  LoanError, no_api_key, other_error, RemoteKey, CursorClient, RemoteCall, make_key, drop_key,
  World, Fresh,
}
use cursor_pulse.Lending.Accounts.{found, Lender}

-- `name.replace(" ", "-")` after the prefix of the names of keys.
unfoldable pub loan_key_name : Text → Text
loan_key_name name = codes "pulse-loan-" ++ map (λ c. if c == 32 then 45 else c) name

unfoldable last_id : List RemoteKey → ℕ
last_id [] = 0
last_id (k ∷ []) = k.id
last_id (k ∷ l ∷ keys) = last_id (l ∷ keys)

-- `_resolve_remote_key_id`, 0 for None: the first key of the name, or else the last of the list.
unfoldable pub resolve_remote_key_id : Text → List RemoteKey → ℕ
unfolding last_id
resolve_remote_key_id name keys = elim (first (λ k. text_eq k.name name) keys) [
  | some k ↦ k.id
  | none ↦ last_id keys
]

-- `_revoke_remote_key_best_effort`: the revocation it gets to, whether or not Cursor carries it out.
unfoldable pub revoke_remote_key_best_effort : CursorClient → Text → ℕ → List RemoteCall
revoke_remote_key_best_effort client api_key remote_key_id =
    if remote_key_id == 0
    then []
    else elim (client.again api_key) [ none ↦ [] | some token ↦ drop_key remote_key_id ∷ [] ]

-- A key made at Cursor: the key that makes it, the text of the new one and its id.
pub record Made : Type 0 where
  pub primary_api_key : Text
  pub api_key : Text
  pub remote_key_id : ℕ

-- From `decrypt_api_key` to `_resolve_remote_key_id`, with the calls made at Cursor.
unfoldable pub list_made : CursorClient → Text → Text → Text → ℕ → Outcome LoanError Made
list_made client primary_api_key name api_key token = do
  keys ← found other_error (client.list_user_api_keys token name)
  returned (record {
    primary_api_key = primary_api_key;
    api_key = api_key;
    remote_key_id = resolve_remote_key_id name keys;
  })

unfoldable pub make_remote_key : World → Lender → Text → Outcome LoanError Made × List RemoteCall
make_remote_key world lender name = elim (world.decrypt world.encryption_key lender.primary.id) [
  | none ↦ (raised other_error, [])
  | some primary_api_key ↦ elim (world.client.get_access_token primary_api_key) [
    | none ↦ (raised other_error, [])
    | some token ↦ elim (world.client.create_user_api_key token name) [
      | none ↦ (raised other_error, [])
      | some none ↦ (raised no_api_key, make_key name (world.client.new_key_id token name) ∷ [])
      | some (some api_key) ↦
          if is_empty api_key
          then (raised no_api_key, make_key name (world.client.new_key_id token name) ∷ [])
          else (
            list_made world.client primary_api_key name api_key token,
            make_key name (world.client.new_key_id token name) ∷ [],
          )
    ]
  ]
]

-- The row of the new key.
abbrev pub new_credential : World → Fresh → ℕ → Made → Credential
new_credential world fresh account_id made = record {
  id = fresh.credential_id;
  account_id = account_id;
  remote_key_id = made.remote_key_id;
  key_hash = some (world.hash made.api_key);
  is_loan_key = true;
  is_active = true;
  sync_enabled = false;
  has_value = true;
}

-- `create_loan_credential`; encrypting under an empty key raises. The account is in the table: it was
-- found there.
unfoldable pub create_loan_credential : World → Fresh → ℕ → Made → Ledger → Outcome LoanError Ledger
create_loan_credential world fresh account_id made ledger =
    if is_empty world.encryption_key
    then raised other_error
    else returned (record ledger {
      credentials = ledger.credentials ++ new_credential world fresh account_id made ∷ [];
    })
