-- ===== src/Sticky/Again.antt =====
-- That a pick holds for the next request.
use cursor_pulse.Base.{
  ℕ, ◌+◌, ◌<◌, ◌≡◌, ◌≢◌, refl, Bool, true, false, ◌&&◌, List, [], Option, some, arith, ◌==◌,
  if◌then◌else◌, is_nil, elem, inl, inr, Bool-cases, Option-cases,
}
use cursor_pulse.Base.Dict.{Dict, lookup, nat_eq}
use cursor_pulse.Loans.{Credential}
use cursor_pulse.Keys.{ProxyKey}
use cursor_pulse.Sticky.{
  Entry, Binding, GatewaySelection, Gateway, dwell_active, entry_map, available, upsert_binding,
}
use cursor_pulse.Sticky.Resolve.{
  Pick, drops_binding, sticky_binding, sticky_entry, pick_entry, restore_cp_seats,
  resolve_cp_credential,
}
use cursor_pulse.Sticky.Entries.{lookup-insert_self, lookup-entry_map_nil}
use cursor_pulse.Sticky.Picked.{pick_entry-found, pick_entry-IsOpen, restore_cp_seats-bindings}

module _ (holder : ℕ → ℕ) (rank : ℕ → ℕ → ℕ) (finds_deleted : Bool) (selection : GatewaySelection)
    (pick : Pick) (now mono : ℕ) where
  upsert_binding-bound :
      (key credential since : ℕ) (bindings : Dict ℕ Binding)
      → (b : Binding) × (lookup key (upsert_binding false key credential since now bindings)
          ≡ some b)
        × (b.credential_id ≡ credential)
        × (b.updated_at ≡ now)
  unfolding upsert_binding
  upsert_binding-bound key credential since bindings = elim (Option-cases (lookup key bindings)) [
    | inl fresh ↦ (
      record { credential_id = credential; sticky_since = since; updated_at = now },
      rw (fresh, upsert_binding) (lookup-insert_self key _ bindings),
      refl,
      refl,
    )
    | inr (b, old) ↦ (
      record {
        credential_id = credential;
        sticky_since = if b.credential_id == credential then b.sticky_since else since;
        updated_at = now;
      },
      rw (old, upsert_binding) (lookup-insert_self key _ bindings),
      refl,
      refl,
    )
  ]

  -- Where the binding of a key names an entry that is open, and the last request is recent, the pick is
  -- that entry.
  pick_entry-stays :
      (entries : List Entry) (g : Gateway) (b : Binding) (e : Entry)
      → lookup pick.proxy_key_id g.bindings ≡ some b
      → drops_binding holder rank finds_deleted selection pick now mono g.bindings ≡ false
      → (b.credential_id == 0) ≡ false
      → lookup b.credential_id (entry_map (available entries pick.exclude_credential_ids) [])
        ≡ some e
      → elem b.credential_id pick.exclude_credential_ids ≡ false
      → dwell_active (some b.updated_at) selection.min_switch now ≡ true
      → (pick_entry holder rank finds_deleted selection pick now mono entries g).0 ≡ some e
  unfolding pick_entry sticky_binding sticky_entry
  pick_entry-stays entries g b e bound stays named listed allowed recent =
      let open_entries = available entries pick.exclude_credential_ids in
      let by_id = entry_map open_entries [] in
      let keeps : sticky_binding holder rank finds_deleted selection pick now mono g.bindings
          ≡ some b =
        rw (stays, sticky_binding) bound in
      let sticks : sticky_entry holder rank finds_deleted selection pick now mono by_id (some b)
          ≡ some e =
        rw (named, listed, allowed, recent, sticky_entry) refl in
      elim (Bool-cases (is_nil open_entries)) [
        | inl closed ↦
            ground (arith, listed, lookup-entry_map_nil b.credential_id open_entries closed)
        | inr opened ↦ rw (opened, keeps, sticks, pick_entry) refl
      ]

  drops_binding-stays :
      (bindings : Dict ℕ Binding)
      → pick.release_current ≡ false
      → drops_binding holder rank finds_deleted selection pick now mono bindings ≡ false
  unfolding drops_binding
  drops_binding-stays bindings stays = ground (arith, stays)

module _ (holder : ℕ → ℕ) (rank : ℕ → ℕ → ℕ) (finds_deleted : Bool) (selection : GatewaySelection)
    (selection_of : ProxyKey → GatewaySelection) (keys : List ProxyKey)
    (creds : List Credential) where
  abbrev pub resolved : Pick → ℕ → ℕ → List Entry → Gateway → Option Entry × Gateway
  resolved pick now mono =
      resolve_cp_credential holder rank finds_deleted selection pick now mono selection_of keys
        creds

  -- A gateway key stays on its account: after a call that returned an entry and did not write to a binding
  -- it had deleted, the next call for the same key within the dwell time returns the entry of the same
  -- credential, whatever the ranking and the book say, if the pool still has it, it is not excluded and the
  -- key is not to leave it.
  pub resolve_cp_credential_again :
      (pick next : Pick) (now later mono mono' : ℕ) (entries entries' : List Entry) (g : Gateway)
      (e e' : Entry)
      → (resolved pick now mono entries g).0 ≡ some e
      → (drops_binding holder rank finds_deleted selection pick now mono g.bindings
          && finds_deleted)
        ≡ false
      → next.proxy_key_id ≡ pick.proxy_key_id
      → next.release_current ≡ false
      → elem e.credential_id next.exclude_credential_ids ≡ false
      → lookup e.credential_id (entry_map (available entries' next.exclude_credential_ids) [])
        ≡ some e'
      → selection.min_switch ≢ 0
      → later < now + selection.min_switch
      → (resolved next later mono' entries' (resolved pick now mono entries g).1).0 ≡ some e'
  unfolding resolve_cp_credential dwell_active
  resolve_cp_credential_again pick next now later mono mono' entries entries' g e e' found kept same
        stays allowed listed dwells recent =
      let g' = restore_cp_seats holder selection_of keys creds now mono g in
      let after = (pick_entry holder rank finds_deleted selection pick now mono entries g').1 in
      let restored =
        restore_cp_seats-bindings holder rank finds_deleted selection pick now mono selection_of
          keys creds g in
      let restored' =
        restore_cp_seats-bindings holder rank finds_deleted selection next later mono' selection_of
          keys creds after in
      let taken =
        (pick_entry-found holder rank finds_deleted selection pick now mono entries g' e found).1 in
      let lost : (drops_binding holder rank finds_deleted selection pick now mono g'.bindings
            && finds_deleted)
          ≡ false =
        rw restored kept in
      let (b, here, is_e, at_now) =
        upsert_binding-bound holder rank finds_deleted selection pick now mono pick.proxy_key_id
          e.credential_id taken.0 g'.bindings in
      let bound : lookup next.proxy_key_id after.bindings ≡ some b =
        rw (same, taken.1, lost) here in
      let not_zero =
        (pick_entry-IsOpen holder rank finds_deleted selection pick now mono entries g' e
          found).1 in
      pick_entry-stays holder rank finds_deleted selection next later mono' entries'
        (restore_cp_seats holder selection_of keys creds later mono' after) b e'
        (rw restored' bound)
        (drops_binding-stays holder rank finds_deleted selection next later mono' _ stays)
        (rw is_e not_zero) (rw is_e listed) (rw is_e allowed)
        (rw at_now (ground (arith, dwells, recent)))
