-- ===== src/Sticky/Resolve.antt =====
-- `resolve_cp_credential`, `restore_cp_seats` and `end_cp_call`.
use cursor_pulse.Base.{
  ℕ, ◌+◌, ◌-◌, Bool, true, false, not, ◌&&◌, List, [], ◌∷◌, Option, none, some, ◌==◌, if◌then◌else◌,
  or_else, is_nil, elem,
}
use cursor_pulse.Base.Dict.{Dict, lookup, insert, nat_eq}
use cursor_pulse.Base.Sorting.{sort_by}
use cursor_pulse.Loans.{Credential, get_credential}
use cursor_pulse.Keys.{ProxyKey, get_key}
use cursor_pulse.Keys.Answer.{is_key_active}
use cursor_pulse.Seats.Book.{Book, count_by_account}
use cursor_pulse.Seats.Choice.{SeatChoice, choose}
use cursor_pulse.Seats.Calls.{begin_call, end_call, hold}
use cursor_pulse.Sticky.{
  Entry, Binding, GatewaySelection, Gateway, ttl_of, hold_duration, dwell_active, entry_map,
  available, account_in, one_seat, ranked_request, upsert_binding, first_open, release_old,
}

-- The arguments of `resolve_cp_credential` but the clocks.
pub record Pick : Type 0 where
  pub proxy_key_id : ℕ
  pub exclude_credential_ids : List ℕ
  pub current_credential_id : ℕ
  pub release_current : Bool
  pub boot_id : ℕ

module _ (holder : ℕ → ℕ) (selection_of : ProxyKey → GatewaySelection) (keys : List ProxyKey)
    (creds : List Credential) (now mono : ℕ) where
  -- One round of the loop of `restore_cp_seats`; a time that lies before 0 holds no seat.
  unfoldable pub restore_seat : ℕ → Binding → Book → Book
  restore_seat key_id b book = elim (get_key key_id keys) [
    | none ↦ book
    | some key ↦ elim (get_credential b.credential_id creds) [
      | none ↦ book
      | some c ↦
          if not (is_key_active key.status)
          then book
          else hold book (holder key.id) c.account_id c.id
              (mono + hold_duration (selection_of key) + b.updated_at - now) mono
    ]
  ]

  unfoldable pub restore_loop : Dict ℕ Binding → Book → Book
  restore_loop [] book = book
  restore_loop ((key, b) ∷ bindings) book = restore_loop bindings (restore_seat key b book)

  unfoldable pub restore_cp_seats : Gateway → Gateway
  restore_cp_seats g =
      if g.book.cp_restored
      then g
      else record g { book = restore_loop g.bindings (record (g.book) { cp_restored = true }) }

abbrev pub bound_id : Option Binding → ℕ
bound_id none = 0
bound_id (some b) = b.credential_id

-- `sticky_since or now`
abbrev pub since_of : ℕ → Option Binding → ℕ
since_of now none = now
since_of now (some b) = b.sticky_since

module _ (holder : ℕ → ℕ) (rank : ℕ → ℕ → ℕ) (finds_deleted : Bool) (selection : GatewaySelection)
    (pick : Pick) (now mono : ℕ) where
  abbrev holder_id : ℕ
  holder_id = holder pick.proxy_key_id

  -- Whether the binding of the key is deleted: it is the one that is released.
  unfoldable pub drops_binding : Dict ℕ Binding → Bool
  drops_binding bindings = elim (lookup pick.proxy_key_id bindings) [
    | none ↦ false
    | some b ↦
        pick.release_current
        && not (pick.current_credential_id == 0)
        && b.credential_id == pick.current_credential_id
  ]

  -- The binding that the call goes by.
  unfoldable pub sticky_binding : Dict ℕ Binding → Option Binding
  sticky_binding bindings =
      if drops_binding bindings then none else lookup pick.proxy_key_id bindings

  -- `if release_current and current: …`, as far as the seats go.
  unfoldable pub release_seat : Dict ℕ Entry → Book → Book
  release_seat by_id book =
      let current = pick.current_credential_id in
      if pick.release_current && not (current == 0)
      then (choose book (one_seat holder_id current (account_in by_id current) true selection)
          mono).1
      else book

  -- The test for the cache hit: the entry that the binding names.
  unfoldable pub sticky_entry : Dict ℕ Entry → Option Binding → Option Entry
  sticky_entry by_id none = none
  sticky_entry by_id (some b) =
      if b.credential_id == 0 then none else elim (lookup b.credential_id by_id) [
        | none ↦ none
        | some e ↦
            if not (elem b.credential_id pick.exclude_credential_ids)
              && dwell_active (some b.updated_at) selection.min_switch now
            then some e
            else none
      ]

  -- The end of both ways: the binding, and a call on the seat.
  unfoldable pub take : ℕ → Entry → Gateway → Gateway
  take since e g = record {
    bindings =
        upsert_binding (drops_binding g.bindings && finds_deleted) pick.proxy_key_id e.credential_id
          since now g.bindings;
    book =
        begin_call g.book holder_id e.account_id e.credential_id pick.boot_id
          (hold_duration selection) mono;
  }

  -- The cache hit: `_touch_seat`, and then the end.
  unfoldable pub stay : ℕ → Entry → Gateway → Gateway
  stay since e g =
      let request = one_seat holder_id e.credential_id e.account_id false selection in
      take since e (record g { book = (choose g.book request mono).1 })

  unfoldable pub ranked_entries : List Entry → Book → List Entry × Book
  ranked_entries entries book =
      let (load, expired) = count_by_account book (ttl_of selection) mono in
      (sort_by (λ e. rank e.credential_id (or_else (lookup e.account_id load) 0)) entries, expired)

  -- What `choose` assigns, or else the first that it does not block.
  unfoldable pub chosen_of : List Entry → SeatChoice → ℕ
  chosen_of ranked choice =
      let assigned = or_else choice.assigned_credential_id 0 in
      if assigned == 0 then first_open choice.blocked_credential_ids ranked else assigned

  -- From the chosen credential on, with the book that the choice leaves.
  unfoldable pub settle :
      Dict ℕ Entry → Option Binding → ℕ → Book → Gateway → Option Entry × Gateway
  settle by_id sticky chosen book g = elim (if chosen == 0 then none else lookup chosen by_id) [
    | none ↦ (none, record g { book = book })
    | some e ↦
        let olds = bound_id sticky ∷ pick.current_credential_id ∷ [] in
        let freed = release_old holder_id by_id chosen e.account_id olds book in
        let since = if chosen == bound_id sticky then since_of now sticky else now in
        (some e, take since e (record g { book = freed }))
  ]

  -- From the ranking on.
  unfoldable pub rank_anew :
      List Entry → Dict ℕ Entry → Option Binding → Gateway → Option Entry × Gateway
  rank_anew entries by_id sticky g =
      let (ranked, counted) = ranked_entries entries g.book in
      let (choice, book) = choose counted (ranked_request holder_id ranked selection) mono in
      settle by_id sticky (chosen_of ranked choice) book g

  -- After `restore_cp_seats`, on the entries of the pool.
  unfoldable pub pick_entry : List Entry → Gateway → Option Entry × Gateway
  pick_entry entries g =
      let open_entries = available entries pick.exclude_credential_ids in
      let by_id = entry_map open_entries [] in
      let sticky = sticky_binding g.bindings in
      let released = record g { book = release_seat by_id g.book } in
      if is_nil open_entries then (none, g) else elim (sticky_entry by_id sticky) [
        | none ↦ rank_anew open_entries by_id sticky released
        | some e ↦ let since = since_of now sticky in (some e, stay since e released)
      ]

  unfoldable pub resolve_cp_credential :
      (ProxyKey → GatewaySelection)
      → List ProxyKey
      → List Credential
      → List Entry
      → Gateway
      → Option Entry × Gateway
  resolve_cp_credential selection_of keys creds entries g =
      pick_entry entries (restore_cp_seats holder selection_of keys creds now mono g)

-- A call of the gateway has ended.
module _ (holder : ℕ → ℕ) (selection : GatewaySelection) (creds : List Credential)
    (key credential boot now mono : ℕ) where
  -- A seat that is gone is made again where the key is still bound.
  unfoldable pub end_on : ℕ → Bool → Dict ℕ Binding → Book → Gateway
  end_on account still_bound bindings book = record {
    bindings = bindings;
    book =
        end_call book (holder key) account credential (hold_duration selection) boot still_bound
          mono;
  }

  unfoldable pub end_cp_call : Gateway → Gateway
  end_cp_call g = elim (if credential == 0 then none else get_credential credential creds) [
    | none ↦ g
    | some c ↦ elim (lookup key g.bindings) [
      | none ↦ end_on c.account_id false g.bindings g.book
      | some b ↦
          if b.credential_id == credential
          then end_on c.account_id true (insert key (record b { updated_at = now }) g.bindings)
              g.book
          else end_on c.account_id false g.bindings g.book
    ]
  ]
