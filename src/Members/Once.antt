-- ===== src/Members/Once.antt =====
-- A member has at most one active membership, and gets the opening credit at most once.
use cursor_pulse.Base.{
  ℕ, ◌≤◌, ◌≡◌, refl, ap, sym, ◌∙◌, true, false, List, [], ◌∷◌, Option, none, some, arith, ◌==◌,
  ==_iff, Bool-cases, Option-cases, inl, inr,
}
use mathlib.Core.Path.{subst}
use cursor_pulse.Base.Dict.{Dict}
use cursor_pulse.Base.Int.{ℤ, pos, leb_ℤ}
use cursor_pulse.Base.Outcome.{Outcome, raised, returned, ◌>>=◌}
use cursor_pulse.Wallet.{Kind, Wallets, grant, read_balance, sum_amounts}
use cursor_pulse.Wallet.Posting.{post_row, IsSound}
use cursor_pulse.Wallet.Runs
use cursor_pulse.Wallet.Runs.{Operation, after, no_wallets, no_wallets-IsSound, step-IsSound}
use cursor_pulse.Members.{
  Membership, MembershipPlan, MembershipError, Office, Opening, open_membership,
  validate_opening_plan, normalize_rules_override, validate_credit_mode_override, active_membership,
  has_opening_credit_grant, opening_credit_note, plan_of, maybe_grant_opening_credit,
  add_membership,
}
use cursor_pulse.Members.Changes.{
  Change, changed_plan, changed_rules, changed_credit_mode, change_membership, cancel_membership,
  write_membership, get_membership, Call, opens, changes, cancels, refunds, charges, office_after,
  step, run,
}
use cursor_pulse.Members.Openings.{
  openings_of, openings-any, openings-post, openings-refund, openings-charge,
}
use cursor_pulse.Members.Active.{
  active_of, active_of-append, active_membership-none, active_of-write,
}

-- What every call on the office keeps.
pub record IsSingle (office : Office) : Type 0 where
  pub active : (j : ℕ) → active_of j office.memberships ≤ 1
  pub openings : (j : ℕ) → openings_of j office.wallets.transactions ≤ 1
  pub sound : IsSound office.wallets

grant-openings :
    (w : Wallets) (m : ℕ) (cents : ℤ) (actor : Option ℕ) (j : ℕ)
    → has_opening_credit_grant m w.transactions ≡ false
    → openings_of j w.transactions ≤ 1
    → openings_of j (after w (grant w m cents actor (some opening_credit_note))).transactions ≤ 1
unfolding grant
grant-openings w m cents actor j never one = elim (Bool-cases (leb_ℤ cents (pos 0))) [
  | inl bad ↦ rw (bad, after) one
  | inr good ↦
      let (_, member, _, _) =
        post_row w Kind.grant m cents none none actor (some opening_credit_note) in
      let made = openings-post w Kind.grant m cents none none actor (some opening_credit_note) j in
      rw (good, after)
        (elim (Bool-cases (m == j)) [
          | inl same ↦
              let at_j : m ≡ j = (==_iff m j).0 same in
              let none_yet : openings_of j w.transactions ≡ 0 =
                openings-any j w.transactions (rw at_j at never) in
              ground (arith, made, none_yet)
          | inr other ↦ ground (arith, made, member, other)
        ])
]

maybe_grant-IsSingle :
    (office : Office) (m : Membership)
    → IsSingle office
    → IsSingle (maybe_grant_opening_credit office m)
unfolding maybe_grant_opening_credit Runs.step
maybe_grant-IsSingle office m v =
    elim (Bool-cases (has_opening_credit_grant m.member_id office.wallets.transactions)) [
      | inl before ↦ rw before v
      | inr never ↦ elim (Option-cases (plan_of office m)) [
        | inl bare ↦ rw (never, bare, maybe_grant_opening_credit) v
        | inr (plan, found) ↦ elim (Option-cases plan.opening_credit_cents) [
          | inl nothing ↦ rw (never, found, nothing, maybe_grant_opening_credit) v
          | inr (cents, given) ↦ elim (Bool-cases (leb_ℤ cents (pos 0))) [
            | inl bad ↦ rw (never, found, given, bad, maybe_grant_opening_credit) v
            | inr good ↦
                rw (never, found, given, good, maybe_grant_opening_credit)
                  (record {
                    active = v.active;
                    openings = λ j.
                        grant-openings office.wallets m.member_id cents m.created_by_member_id j
                          never (v.openings j);
                    sound =
                        step-IsSound office.wallets
                          (Operation.grants m.member_id cents m.created_by_member_id
                            (some opening_credit_note))
                          v.sound;
                  })
          ]
        ]
      ]
    ]

add_membership-IsSingle :
    (office : Office) (m : Membership)
    → active_of m.member_id office.memberships ≡ 0
    → IsSingle office
    → IsSingle (add_membership office m)
unfolding add_membership
add_membership-IsSingle office m free v = record {
  active = λ j. elim (Bool-cases (m.member_id == j)) [
    | inl same ↦
        let at_j : m.member_id ≡ j = (==_iff m.member_id j).0 same in
        ground (arith, active_of-append j office.memberships m, rw at_j at free)
    | inr other ↦ ground (arith, active_of-append j office.memberships m, v.active j)
  ];
  openings = v.openings;
  sound = v.sound;
}

write_membership-IsSingle :
    (office : Office) (n m : Membership)
    → get_membership n.id office.memberships ≡ some m
    → n.member_id ≡ m.member_id
    → (n.is_active ≡ true → m.is_active ≡ true)
    → IsSingle office
    → IsSingle (write_membership n office)
write_membership-IsSingle office n m found same less v = record {
  active = λ j. omega (arith, active_of-write j n office.memberships m found same less, v.active j);
  openings = v.openings;
  sound = v.sound;
}

-- A call that raises keeps the office, and one that goes on keeps what the rest keeps.
office_after-bind {ℓ} :
    {A : Type ℓ} (office : Office) (x : Outcome MembershipError A)
    (f : A → Outcome MembershipError (Membership × Office))
    → IsSingle office
    → ((a : A) → IsSingle (office_after office (f a)))
    → IsSingle (office_after office (x >>= f))
office_after-bind office (raised e) f v keeps = v
office_after-bind office (returned a) f v keeps = keeps a

open_membership-IsSingle :
    (office : Office) (o : Opening)
    → IsSingle office
    → IsSingle (office_after office (open_membership office o))
unfolding open_membership
open_membership-IsSingle office o v =
    elim (Option-cases (active_membership o.member_id office.memberships)) [
      | inr (m, found) ↦ rw (found, office_after, open_membership) v
      | inl free ↦
          rw (free, office_after, open_membership)
            (office_after-bind office (validate_opening_plan office o) _ v λ plan_id.
              office_after-bind office (normalize_rules_override o.rules_override) _ v λ rules.
                office_after-bind office (validate_credit_mode_override o.credit_mode_override) _ v
                  λ mode. maybe_grant-IsSingle _ _ (
                    add_membership-IsSingle office _
                      (active_membership-none o.member_id office.memberships free) v))
    ]

change_membership-IsSingle :
    (office : Office) (m : Membership) (c : Change)
    → get_membership m.id office.memberships ≡ some m
    → IsSingle office
    → IsSingle (office_after office (change_membership office m c))
unfolding change_membership
change_membership-IsSingle office m c found v =
    office_after-bind office (changed_plan office m c) _ v λ plan_id.
      office_after-bind office (changed_rules m c) _ v λ rules.
        office_after-bind office (changed_credit_mode m c) _ v λ mode.
          maybe_grant-IsSingle _ _
            (write_membership-IsSingle office _ m found refl (λ live. live) v)

cancel_membership-IsSingle :
    (office : Office) (m : Membership)
    → get_membership m.id office.memberships ≡ some m
    → IsSingle office
    → IsSingle (cancel_membership office m)
unfolding cancel_membership
cancel_membership-IsSingle office m found v =
    write_membership-IsSingle office (record m { is_active = false }) m found refl (λ e. cc) v

get_membership-id :
    (id : ℕ) (ms : List Membership) (m : Membership)
    → get_membership id ms ≡ some m
    → get_membership m.id ms ≡ some m
unfolding get_membership
get_membership-id id ms m e = subst (λ i. get_membership i ms ≡ some m) (sym (go ms e)) e
  where
    go : (ns : List Membership) → get_membership id ns ≡ some m → m.id ≡ id
    go [] e = cc
    go (n ∷ ns) e = elim (Bool-cases (n.id == id)) [
      | inl here ↦
          let found : some n ≡ some m = rw here at e in
          let is : n ≡ m = cc in ap (λ (k : Membership). k.id) (sym is) ∙ (==_iff n.id id).0 here
      | inr other ↦ go ns (rw other at e)
    ]

step-IsSingle : (office : Office) (c : Call) → IsSingle office → IsSingle (step office c)
unfolding step Runs.step
step-IsSingle office (opens o) v = open_membership-IsSingle office o v
step-IsSingle office (changes id c) v = elim (Option-cases (get_membership id office.memberships)) [
  | inl gone ↦ rw (gone, step) v
  | inr (m, found) ↦
      rw (found, step)
        (change_membership-IsSingle office m c (get_membership-id id office.memberships m found) v)
]
step-IsSingle office (cancels id) v = elim (Option-cases (get_membership id office.memberships)) [
  | inl gone ↦ rw (gone, step) v
  | inr (m, found) ↦
      rw (found, step)
        (cancel_membership-IsSingle office m (get_membership-id id office.memberships m found) v)
]
step-IsSingle office (refunds id actor remark) v = record {
  active = v.active;
  openings = λ j. rw (openings-refund office.wallets id actor remark j) (v.openings j);
  sound = step-IsSound office.wallets (Operation.refunds id actor remark) v.sound;
}
step-IsSingle office (charges m row) v = record {
  active = v.active;
  openings = λ j. rw (openings-charge office.wallets m row j) (v.openings j);
  sound = step-IsSound office.wallets (Operation.charges m row) v.sound;
}

run_from-IsSingle :
    (office : Office) (calls : List Call) → IsSingle office → IsSingle (run office calls)
unfolding run
run_from-IsSingle office [] v = v
run_from-IsSingle office (c ∷ calls) v =
    run_from-IsSingle (step office c) calls (step-IsSingle office c v)

unfoldable pub new_office : List MembershipPlan → Dict ℕ ℕ → Office
unfolding no_wallets
new_office plans teams = record {
  memberships = [];
  next_id = 1;
  plans = plans;
  teams = teams;
  wallets = no_wallets;
}

-- Whatever the plans and teams, after any sequence of calls that open, change or cancel memberships,
-- charge usage rows and refund charges on empty tables, those that raise included, a member has at
-- most one active membership and has been granted the opening credit at most once, and every balance
-- is the sum of its member's transactions.
pub run-IsSingle :
    (plans : List MembershipPlan) (teams : Dict ℕ ℕ) (calls : List Call) (member_id : ℕ)
    → (active_of member_id (run (new_office plans teams) calls).memberships ≤ 1)
      × (openings_of member_id (run (new_office plans teams) calls).wallets.transactions ≤ 1)
      × (read_balance (run (new_office plans teams) calls).wallets member_id
          ≡ sum_amounts member_id (run (new_office plans teams) calls).wallets.transactions)
unfolding new_office no_wallets
run-IsSingle plans teams calls member_id =
    let v = run_from-IsSingle (new_office plans teams) calls (record {
      active = λ j. omega arith;
      openings = λ j. omega arith;
      sound = no_wallets-IsSound;
    }) in
    (v.active member_id, v.openings member_id, v.sound.balanced member_id)
