-- ===== src/Sticky/Picked.antt =====
-- What a pick returns.
use cursor_pulse.Base.{
  ℕ, ◌≡◌, refl, ◌∙◌, Bool, false, ◌&&◌, List, [], Option, none, some, arith, ◌==◌, if◌then◌else◌,
  is_nil, inl, inr, Bool-cases, Option-cases,
}
use cursor_pulse.Base.Dict.{Dict, lookup, nat_eq}
use cursor_pulse.Loans.{Credential}
use cursor_pulse.Keys.{ProxyKey}
use cursor_pulse.Seats.Book.{Book}
use cursor_pulse.Sticky.{
  Entry, Binding, GatewaySelection, Gateway, entry_map, available, upsert_binding,
}
use cursor_pulse.Sticky.Resolve.{
  Pick, drops_binding, sticky_binding, sticky_entry, release_seat, take, stay, settle, rank_anew,
  pick_entry, restore_cp_seats, resolve_cp_credential, bound_id, since_of,
}
use cursor_pulse.Sticky.Entries.{IsOpen, lookup-entry_map, lists-All, available-IsOpen}

module _ (holder : ℕ → ℕ) (rank : ℕ → ℕ → ℕ) (finds_deleted : Bool) (selection : GatewaySelection)
    (pick : Pick) (now mono : ℕ) where
  abbrev picked : List Entry → Gateway → Option Entry × Gateway
  picked = pick_entry holder rank finds_deleted selection pick now mono

  sticky_entry-found :
      (by_id : Dict ℕ Entry) (sticky : Option Binding) (e : Entry)
      → sticky_entry holder rank finds_deleted selection pick now mono by_id sticky ≡ some e
      → (id : ℕ) × (lookup id by_id ≡ some e)
  unfolding sticky_entry
  sticky_entry-found by_id none e found = ground arith
  sticky_entry-found by_id (some b) e found = (b.credential_id, ground arith)

  -- How a pick that returns has changed the bindings.
  abbrev IsTaken : Gateway → Entry → Gateway → Type 0
  IsTaken g e after =
      (since : ℕ) × (after.bindings
        ≡ upsert_binding
            (drops_binding holder rank finds_deleted selection pick now mono g.bindings
              && finds_deleted)
            pick.proxy_key_id e.credential_id since now g.bindings)

  abbrev settled : Dict ℕ Entry → Option Binding → ℕ → Book → Gateway → Option Entry × Gateway
  settled = settle holder rank finds_deleted selection pick now mono

  settle-found :
      (by_id : Dict ℕ Entry) (sticky : Option Binding) (chosen : ℕ) (book : Book) (g : Gateway)
      (e : Entry)
      → (settled by_id sticky chosen book g).0 ≡ some e
      → ((id : ℕ) × (lookup id by_id ≡ some e)) × IsTaken g e (settled by_id sticky chosen book g).1
  unfolding settle take
  settle-found by_id sticky chosen book g e found =
      elim (Option-cases (if chosen == 0 then none else lookup chosen by_id)) [
        | inl nothing ↦ ground (arith, rw (nothing, settle) at found)
        | inr (x, here) ↦
            let found' : some x ≡ some e = rw (here, settle) at found in
            let is : x ≡ e = cc in
            (
              (chosen, ground (arith, here, is)),
              (
                if chosen == bound_id sticky then since_of now sticky else now,
                rw (here, settle, take) (rw is refl),
              ),
            )
      ]

  rank_anew-found :
      (entries : List Entry) (by_id : Dict ℕ Entry) (sticky : Option Binding) (g : Gateway)
      (e : Entry)
      → (rank_anew holder rank finds_deleted selection pick now mono entries by_id sticky g).0
        ≡ some e
      → ((id : ℕ) × (lookup id by_id ≡ some e))
        × IsTaken g e
            (rank_anew holder rank finds_deleted selection pick now mono entries by_id sticky g).1
  unfolding rank_anew
  rank_anew-found entries by_id sticky g e found = settle-found by_id sticky _ _ g e found

  pub pick_entry-found :
      (entries : List Entry) (g : Gateway) (e : Entry)
      → (picked entries g).0 ≡ some e
      → ((id : ℕ) × (lookup id (entry_map (available entries pick.exclude_credential_ids) [])
            ≡ some e))
        × IsTaken g e (picked entries g).1
  unfolding pick_entry stay take
  pick_entry-found entries g e found =
      let open_entries = available entries pick.exclude_credential_ids in
      let by_id = entry_map open_entries [] in
      let sticky = sticky_binding holder rank finds_deleted selection pick now mono g.bindings in
      let released = record g {
        book = release_seat holder rank finds_deleted selection pick now mono by_id g.book;
      } in
      elim (Bool-cases (is_nil open_entries)) [
        | inl closed ↦ ground (arith, rw (closed, pick_entry) at found)
        | inr opened ↦
            elim (Option-cases
              (sticky_entry holder rank finds_deleted selection pick now mono by_id sticky)) [
                | inl fresh ↦
                    let found' = rw (opened, fresh, pick_entry) at found in
                    rw (opened, fresh, pick_entry)
                      (rank_anew-found open_entries by_id sticky released e found')
                | inr (x, here) ↦
                    let found' : some x ≡ some e = rw (opened, here, pick_entry) at found in
                    let is : x ≡ e = cc in
                    (
                      sticky_entry-found by_id sticky e (here ∙ found'),
                      (since_of now sticky, rw (opened, here, pick_entry, stay, take) (rw is refl)),
                    )
              ]
      ]

  -- What `pick_entry` returns can be used: it is an entry of the pool with a key in clear, and it is not
  -- excluded.
  pub pick_entry-IsOpen :
      (entries : List Entry) (g : Gateway) (e : Entry)
      → (picked entries g).0 ≡ some e
      → IsOpen entries pick.exclude_credential_ids e × ((e.credential_id == 0) ≡ false)
  pick_entry-IsOpen entries g e found =
      let (id, here) = (pick_entry-found entries g e found).0 in
      let is_open =
        available-IsOpen entries entries pick.exclude_credential_ids (lists-All entries) in
      let (opens, named, not_zero) =
        lookup-entry_map (IsOpen entries pick.exclude_credential_ids)
          (available entries pick.exclude_credential_ids) [] id e is_open (λ x h. ground arith)
          here in
      (opens, not_zero)

  pub restore_cp_seats-bindings :
      (selection_of : ProxyKey → GatewaySelection) (keys : List ProxyKey) (creds : List Credential)
      (g : Gateway)
      → (restore_cp_seats holder selection_of keys creds now mono g).bindings ≡ g.bindings
  unfolding restore_cp_seats
  restore_cp_seats-bindings selection_of keys creds g = ground arith

  -- An entry that `resolve_cp_credential` returns is one of the pool, with a key in clear, and it is not
  -- excluded.
  pub resolve_cp_credential-IsOpen :
      (selection_of : ProxyKey → GatewaySelection) (keys : List ProxyKey) (creds : List Credential)
      (entries : List Entry) (g : Gateway) (e : Entry)
      → (resolve_cp_credential holder rank finds_deleted selection pick now mono selection_of keys
          creds entries g).0
        ≡ some e
      → IsOpen entries pick.exclude_credential_ids e
  unfolding resolve_cp_credential
  resolve_cp_credential-IsOpen selection_of keys creds entries g e found =
      (pick_entry-IsOpen entries _ e found).0
