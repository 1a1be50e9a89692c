-- ===== src/Seating.antt =====
-- pulse/proxy/seat_assignment.py: the seat that goes with an accepted key. The book of seats is the one of
-- pulse/proxy/occupancy.py, and the answer the one of pulse/proxy/authorize.py.
-- Ids are numbers, 0 for the empty text; the ids of credentials are unique, so that a dictionary made
-- of their rows lists each once.
pub mod Owner
pub mod Headroom
pub mod Agreement
pub mod Limit
use cursor_pulse.Base.{
  ℕ, suc, Bool, true, false, not, ◌&&◌, ◌||◌, List, [], ◌∷◌, ◌++◌, map, Option, none, some, ◌==◌,
  if◌then◌else◌, or_else, is_some, is_nil, keep, elem,
}
use cursor_pulse.Base.Dict.{Dict, lookup, insert, nat_eq}
use cursor_pulse.Base.Sorting.{sort_by}
use cursor_pulse.Base.Text.{Text, codes, strip, starts_with, text_eq, text_or_empty}
use cursor_pulse.Seating.Headroom.{
  QuotaPoolKind, auto, api, QuotaSnapshot, snapshot_quota_ok_for_pool,
}
use cursor_pulse.Loans.{
  KeyLoan, Credential, Ledger, DeliveryMode, get_loan, get_credential, is_active,
}
use cursor_pulse.Keys.{ProxyKey, get_key}
use cursor_pulse.Keys.Answer.{
  AnswerStatus, ok, invalid, soft_suspended, AnswerMode, key_mode, loan_passthrough, loan_pool,
  loan_alias, Answer, find_key_by_hash, first, is_hash, is_direct, Parent, key_parent, loan_parent,
  find_ide_key_parent,
}
use cursor_pulse.Keys.Backed.{is_ok}
use cursor_pulse.Seating.Owner.{Holder, seat_holder, member_of_answer}
use cursor_pulse.Seats.Book.{Book}
use cursor_pulse.Seats.Choice.{SeatChoice, Request, set_defaults, choose}

-- `_accounts_for`
unfoldable pub accounts_for : List Credential → List ℕ → Dict ℕ ℕ
accounts_for creds ids =
    map (λ c. (c.id, c.account_id)) (keep (λ c. elem c.id ids && not (c.account_id == 0)) creds)

-- `{cid: i for i, (cid, _) in enumerate(pool_order)}` from `i` on.
unfoldable pub positions : ℕ → List (ℕ × ℕ) → Dict ℕ ℕ → Dict ℕ ℕ
positions i [] position = position
positions i ((c, a) ∷ order) position = positions (suc i) order (insert c i position)

-- `_in_pool_order`
unfoldable pub in_pool_order : List (ℕ × ℕ) → List (ℕ × ℕ) → List (ℕ × ℕ)
in_pool_order ranked pool_order =
    let position = positions 0 pool_order [] in
    sort_by (λ p. or_else (lookup p.0 position) 0)
      (keep (λ p. is_some (lookup p.0 position)) ranked)
    ++ keep (λ p. not (is_some (lookup p.0 position))) ranked

-- The candidates of an answer with the accounts that are known.
unfoldable pub allowed : Dict ℕ ℕ → List ℕ → List (ℕ × ℕ)
allowed accounts [] = []
allowed accounts (c ∷ ids) = elim (lookup c accounts) [
  | none ↦ allowed accounts ids
  | some a ↦ (c, a) ∷ allowed accounts ids
]

abbrev pub truthy_ids : List ℕ → List ℕ
truthy_ids = keep (λ c. not (c == 0))

-- A pool's name, `auto` unless it is one of the two.
unfoldable pub read_quota_pool : Text → QuotaPoolKind
read_quota_pool name = if text_eq name (codes "api") then api else auto

abbrev pub is_alias : Option AnswerMode → Bool
is_alias none = false
is_alias (some (key_mode m)) = false
is_alias (some loan_passthrough) = false
is_alias (some loan_pool) = false
is_alias (some loan_alias) = true

abbrev is_passthrough : Option AnswerMode → Bool
is_passthrough none = false
is_passthrough (some (key_mode m)) = false
is_passthrough (some loan_passthrough) = true
is_passthrough (some loan_pool) = false
is_passthrough (some loan_alias) = false

unfoldable pub is_pinned : Answer → Bool
is_pinned answer =
    is_passthrough answer.mode
    || (is_alias answer.mode && is_nil (truthy_ids answer.credential_ids))

-- `selection.max_concurrent_users` and `selection.concurrent_ttl_seconds`.
pub record Selection : Type 0 where
  pub max_concurrent_users : ℕ
  pub concurrent_ttl_seconds : ℕ

pub record Advice : Type 0 where
  pub assigned_credential_id : Option ℕ
  pub blocked_credential_ids : List ℕ
  pub max_concurrent_users : ℕ
  pub seat_advised : Bool

unfoldable pub include_seat_advice : SeatChoice → Bool → Bool → Bool
include_seat_advice choice pinned release_current =
    if pinned || release_current
    then true
    else is_some choice.assigned_credential_id || not (is_nil choice.blocked_credential_ids)

unfoldable pub advice_fields : SeatChoice → Bool → Bool → ℕ → Advice
advice_fields choice pinned release_current max_concurrent = record {
  assigned_credential_id = choice.assigned_credential_id;
  blocked_credential_ids = choice.blocked_credential_ids;
  max_concurrent_users = max_concurrent;
  seat_advised = include_seat_advice choice pinned release_current;
}

-- What the data plane sends with a key.
pub record Slot : Type 0 where
  pub current_credential_id : ℕ
  pub release_current : Bool
  pub quota_pool : Text
  pub held_credential_ids : List ℕ

-- The settings of a member's team, the ranking of a pool (`none` where it raises), the latest snapshot of
-- an account, and the number of a holder's text.
module _ (selection : ℕ → Selection) (pool_ranked : ℕ → QuotaPoolKind → Option (List (ℕ × ℕ)))
    (snapshot : ℕ → Option QuotaSnapshot) (holder_number : Holder → ℕ) where
  -- `_with_pool_headroom`
  abbrev pub has_headroom : QuotaPoolKind → ℕ → Bool
  has_headroom pool account = elim (snapshot account) [
    | none ↦ true
    | some s ↦ snapshot_quota_ok_for_pool pool s
  ]

  -- `ranked`, by the kind of answer.
  unfoldable pub ranking : List Credential → Answer → ℕ → QuotaPoolKind → Option (List (ℕ × ℕ))
  ranking creds answer member_id pool =
      let allowlist = truthy_ids answer.credential_ids in
      if is_pinned answer then some [] else elim (pool_ranked member_id pool) [
        | none ↦ none
        | some order ↦
            if is_alias answer.mode
            then some (
                keep (λ p. has_headroom pool p.1)
                  (in_pool_order (allowed (accounts_for creds allowlist) allowlist) order))
            else some order
      ]

  unfoldable pub seat_request : List ProxyKey → Ledger → Answer → Slot → List (ℕ × ℕ) → Request
  seat_request keys ledger answer slot ranked =
      let member_id = member_of_answer keys ledger.loans answer in
      let pinned_id = if is_pinned answer then or_else answer.credential_id 0 else 0 in
      let held = truthy_ids slot.held_credential_ids in
      let known =
        map (λ p. p.0) ranked ++ held ++ truthy_ids (slot.current_credential_id ∷ pinned_id ∷ []) in
      record {
        holder_id =
            holder_number
              (seat_holder member_id (or_else answer.loan_id 0) (or_else answer.proxy_key_id 0));
        ranked = ranked;
        account_by_credential = set_defaults ranked (accounts_for ledger.credentials known);
        current_credential_id = slot.current_credential_id;
        release_current = slot.release_current;
        pinned = is_pinned answer;
        pinned_credential_id = pinned_id;
        max_concurrent = (selection member_id).max_concurrent_users;
        ttl_seconds = (selection member_id).concurrent_ttl_seconds;
        held_credential_ids = held;
      }

  -- `apply_seat`: an answer without advice goes out as it is.
  unfoldable pub apply_seat :
      List ProxyKey → Ledger → Book → Answer → Slot → ℕ → Option Advice × Book
  apply_seat keys ledger book answer slot now =
      let member_id = member_of_answer keys ledger.loans answer in
      if not (is_ok answer.status)
      then (none, book)
      else elim (ranking ledger.credentials answer member_id (read_quota_pool slot.quota_pool)) [
        | none ↦ (none, book)
        | some ranked ↦
            let q = seat_request keys ledger answer slot ranked in
            let (choice, after) = choose book q now in
            (some (advice_fields choice q.pinned q.release_current q.max_concurrent), after)
      ]
