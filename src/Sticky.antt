-- ===== src/Sticky.antt =====
-- pulse/openai_proxy/sticky_pick.py: which account of the pool a gateway key works on. It keeps the key on
-- its account while requests follow each other, and takes seats in the book of Seats.
-- `now` is the wall clock and `mono` the clock of the book; durations are microseconds. `holder` numbers
-- the text `pk:…` of a key, and `rank` the places that `cp_rank_key` gives an entry under a load. Ids are
-- numbers, 0 for the empty text.
pub mod Pool
pub mod Resolve
pub mod Entries
pub mod Picked
pub mod Usable
pub mod Again
use cursor_pulse.Base.{
  ℕ, ◌+◌, ◌*◌, ◌-◌, Bool, true, false, not, ◌&&◌, ◌||◌, List, [], ◌∷◌, ◌++◌, map, Option, none,
  some, ltb, leb, ◌==◌, if◌then◌else◌, or_else, is_some, is_nil, keep, elem, max,
}
use cursor_pulse.Base.Dict.{Dict, lookup, insert, erase, nat_eq}
use cursor_pulse.Base.Sorting.{sort_by}
use cursor_pulse.Loans.{Credential, get_credential}
use cursor_pulse.Keys.{ProxyKey, get_key}
use cursor_pulse.Keys.Answer.{is_key_active}
use cursor_pulse.Seats.Book.{Book, second, count_by_account}
use cursor_pulse.Seats.Choice.{SeatChoice, Request, choose}
use cursor_pulse.Seats.Calls.{begin_call, end_call, release_idle, hold}

-- What is read of an entry of `list_cp_pool_entries`.
pub record Entry : Type 0 where
  pub credential_id : ℕ
  pub account_id : ℕ
  pub has_key : Bool

-- A row of `CpOpenAiStickyBinding`, under the id of its key.
pub record Binding : Type 0 where
  pub credential_id : ℕ
  pub sticky_since : ℕ
  pub updated_at : ℕ

pub record GatewaySelection : Type 0 where
  pub min_switch : ℕ
  pub max_concurrent_users : ℕ
  pub concurrent_ttl : ℕ

pub record Gateway : Type 0 where
  pub bindings : Dict ℕ Binding
  pub book : Book

abbrev pub ttl_of : GatewaySelection → ℕ
ttl_of s = if s.concurrent_ttl == 0 then 180 * second else s.concurrent_ttl

-- `_hold_seconds`
unfoldable pub hold_duration : GatewaySelection → ℕ
hold_duration s = max s.min_switch (ttl_of s)

-- `_dwell_active`: also where the last request lies after `now`.
unfoldable pub dwell_active : Option ℕ → ℕ → ℕ → Bool
dwell_active none min_switch now = false
dwell_active (some last) min_switch now =
    if min_switch == 0 then false else ltb now (last + min_switch)

-- `_entry_map`
unfoldable pub entry_map : List Entry → Dict ℕ Entry → Dict ℕ Entry
entry_map [] by_id = by_id
entry_map (e ∷ entries) by_id =
    entry_map entries (if e.credential_id == 0 then by_id else insert e.credential_id e by_id)

unfoldable pub available : List Entry → List ℕ → List Entry
available entries exclude = keep (λ e. not (elem e.credential_id exclude) && e.has_key) entries

abbrev pub account_in : Dict ℕ Entry → ℕ → ℕ
account_in by_id credential = elim (lookup credential by_id) [ none ↦ 0 | some e ↦ e.account_id ]

-- The request for a single credential and its account.
abbrev pub one_seat : ℕ → ℕ → ℕ → Bool → GatewaySelection → Request
one_seat holder_id credential account release selection = record {
  holder_id = holder_id;
  ranked = (credential, account) ∷ [];
  account_by_credential = (credential, account) ∷ [];
  current_credential_id = credential;
  release_current = release;
  pinned = false;
  pinned_credential_id = 0;
  max_concurrent = selection.max_concurrent_users;
  ttl_seconds = ttl_of selection;
  held_credential_ids = [];
}

-- The request for the ranking, which remembers no current credential.
unfoldable pub ranked_request : ℕ → List Entry → GatewaySelection → Request
ranked_request holder_id ranked selection =
    let pairs = map (λ e. (e.credential_id, e.account_id)) ranked in
    record {
      holder_id = holder_id;
      ranked = pairs;
      account_by_credential = pairs;
      current_credential_id = 0;
      release_current = false;
      pinned = false;
      pinned_credential_id = 0;
      max_concurrent = selection.max_concurrent_users;
      ttl_seconds = ttl_of selection;
      held_credential_ids = [];
    }

-- `_upsert_binding`. Where `lost` holds, the row found is one that the same call has deleted, and the
-- flush deletes it after the change.
unfoldable pub upsert_binding : Bool → ℕ → ℕ → ℕ → ℕ → Dict ℕ Binding → Dict ℕ Binding
upsert_binding lost key credential since now bindings = elim (lookup key bindings) [
  | none ↦
      insert key (record { credential_id = credential; sticky_since = since; updated_at = now })
        bindings
  | some b ↦
      if lost
      then erase key bindings
      else insert key
          (record {
            credential_id = credential;
            sticky_since = if b.credential_id == credential then b.sticky_since else since;
            updated_at = now;
          })
          bindings
]

-- The first of the ranking that is not blocked.
unfoldable pub first_open : List ℕ → List Entry → ℕ
first_open blocked [] = 0
first_open blocked (e ∷ ranked) =
    if elem e.credential_id blocked then first_open blocked ranked else e.credential_id

-- `for old_cred in {sticky_id, current} - {"", chosen}`
unfoldable pub release_old : ℕ → Dict ℕ Entry → ℕ → ℕ → List ℕ → Book → Book
release_old holder_id by_id chosen chosen_account [] book = book
release_old holder_id by_id chosen chosen_account (old ∷ olds) book =
    let account = account_in by_id old in
    let left =
      if old == 0 || old == chosen || account == 0 || account == chosen_account
      then book
      else release_idle book holder_id account in
    release_old holder_id by_id chosen chosen_account olds left
