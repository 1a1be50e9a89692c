-- ===== src/Seating/Limit.antt =====
-- A seat that goes with an accepted key keeps to the limit of its account.
use cursor_pulse.Base.{
  ℕ, ◌≤◌, ◌≡◌, ◌≢◌, false, List, [], Option, some, arith, max, keep, All, All-keep, Bool-cases,
  Option-cases, inl, inr,
}
use mathlib.Core.Path.{subst}
use cursor_pulse.Base.Keyed.{HasKeys}
use cursor_pulse.Seating.Headroom.{QuotaPoolKind, QuotaSnapshot}
use cursor_pulse.Loans.{Ledger}
use cursor_pulse.Keys.{ProxyKey}
use cursor_pulse.Keys.Answer.{Answer}
use cursor_pulse.Keys.Backed.{is_ok}
use cursor_pulse.Seats.Book.{Book, on_account}
use cursor_pulse.Seats.Choice.{accounts}
use cursor_pulse.Seats.Capacity.{Agrees, choose_capacity}
use cursor_pulse.Seating.{
  Selection, Slot, truthy_ids, is_pinned, is_alias, accounts_for, in_pool_order, allowed,
  has_headroom, ranking, seat_request, apply_seat, read_quota_pool,
}
use cursor_pulse.Seating.Owner.{Holder, member_of_answer}
use cursor_pulse.Seating.Agreement.{
  cred_id, IsFiled, accounts_for-All, allowed-All, in_pool_order-All, set_defaults-All,
  set_defaults-agree,
}

module _ (selection : ℕ → Selection) (pool_ranked : ℕ → QuotaPoolKind → Option (List (ℕ × ℕ)))
    (snapshot : ℕ → Option QuotaSnapshot) (holder_number : Holder → ℕ) where
  module _ (keys : List ProxyKey) (ledger : Ledger) (keyed : HasKeys cred_id ledger.credentials)
      (filed : (member_id : ℕ) (pool : QuotaPoolKind) (order : List (ℕ × ℕ))
        → pool_ranked member_id pool ≡ some order
        → All (IsFiled ledger.credentials) order) where
    ranking-All :
        (answer : Answer) (member_id : ℕ) (pool : QuotaPoolKind) (ranked : List (ℕ × ℕ))
        → ranking selection pool_ranked snapshot holder_number ledger.credentials answer member_id
            pool
          ≡ some ranked
        → All (IsFiled ledger.credentials) ranked
    unfolding ranking
    ranking-All answer member_id pool ranked e =
        let creds = ledger.credentials in
        let ids = truthy_ids answer.credential_ids in
        elim (Bool-cases (is_pinned answer)) [
          | inl pinned ↦
              let e' : some [] ≡ some ranked = rw (pinned, ranking) at e in
              let bare : [] ≡ ranked = cc in subst (All (IsFiled creds)) bare tt
          | inr loose ↦ elim (Option-cases (pool_ranked member_id pool)) [
            | inl raises ↦ ground (arith, rw (loose, raises, ranking) at e)
            | inr (order, found) ↦ elim (Bool-cases (is_alias answer.mode)) [
              | inr whole ↦
                  let e' : some order ≡ some ranked = rw (loose, found, whole, ranking) at e in
                  let same : order ≡ ranked = cc in
                  subst (All (IsFiled creds)) same (filed member_id pool order found)
              | inl by_alias ↦
                  let accounts = accounts_for creds ids in
                  let fit =
                    keep (λ p. has_headroom selection pool_ranked snapshot holder_number pool p.1)
                      (in_pool_order (allowed accounts ids) order) in
                  let e' : some fit ≡ some ranked = rw (loose, found, by_alias, ranking) at e in
                  let same : fit ≡ ranked = cc in
                  subst (All (IsFiled creds)) same (
                    All-keep (IsFiled creds) _ _ (
                      in_pool_order-All creds _ order
                        (allowed-All creds accounts ids (accounts_for-All creds ids keyed))))
            ]
          ]
        ]

    seat_request-Agrees :
        (answer : Answer) (slot : Slot) (ranked : List (ℕ × ℕ)) (now : ℕ)
        → All (IsFiled ledger.credentials) ranked
        → Agrees
            (seat_request selection pool_ranked snapshot holder_number keys ledger answer slot
              ranked)
            now
    unfolding seat_request accounts
    seat_request-Agrees answer slot ranked now all =
        set_defaults-agree ledger.credentials ranked _ all (
          set_defaults-All ledger.credentials ranked _ all
            (accounts_for-All ledger.credentials _ keyed))

    -- With unique ids of credentials, where the ranking of a pool names the account that the table has for
    -- each credential, and where the member of an answer has a limit: when the key of an answer that is
    -- not pinned asks for a seat and holds no other, whether or not the ranking raises, an account ends up
    -- with at most as many seats as before or as that limit allows, whichever is more.
    pub apply_seat_capacity :
        (book : Book) (answer : Answer) (slot : Slot) (now b : ℕ)
        → is_pinned answer ≡ false
        → truthy_ids slot.held_credential_ids ≡ []
        → (selection (member_of_answer keys ledger.loans answer)).max_concurrent_users ≢ 0
        → let after =
            apply_seat selection pool_ranked snapshot holder_number keys ledger book answer slot
              now in
          on_account b after.1.seats
          ≤ max
              (on_account b book.seats)
              (selection (member_of_answer keys ledger.loans answer)).max_concurrent_users
    unfolding apply_seat seat_request
    apply_seat_capacity book answer slot now b loose alone limited =
        let member_id = member_of_answer keys ledger.loans answer in
        let pool = read_quota_pool slot.quota_pool in
        let listed =
          ranking selection pool_ranked snapshot holder_number ledger.credentials answer member_id
            pool in
        elim (Bool-cases (is_ok answer.status)) [
          | inr refused ↦ rw (refused, apply_seat) (omega arith)
          | inl accepted ↦ elim (Option-cases listed) [
            | inl raises ↦ rw (accepted, raises, apply_seat) (omega arith)
            | inr (ranked, found) ↦
                rw (accepted, found, apply_seat)
                  (choose_capacity book _ now loose limited alone
                    (seat_request-Agrees answer slot ranked now
                      (ranking-All answer member_id pool ranked found))
                    b)
          ]
        ]
