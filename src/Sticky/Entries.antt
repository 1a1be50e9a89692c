-- ===== src/Sticky/Entries.antt =====
-- The entries of a pool that a pick may return.
use cursor_pulse.Base.{
  ℕ, ◌≡◌, refl, sym, ◌∙◌, Bool, true, false, not, ◌&&◌, List, [], ◌∷◌, any, none, some, arith, ◌==◌,
  ==_iff, is_nil, elem, inl, inr, Bool-cases, All, All-mono,
}
use cursor_pulse.Base.Dict.{Dict, lookup, insert, nat_eq, lookup-insert}
use cursor_pulse.Sticky.{Entry, Binding, entry_map, available}

abbrev pub IsNamed : (Entry → Type 0) → ℕ → Entry → Type 0
IsNamed P id e = P e × (e.credential_id ≡ id) × ((e.credential_id == 0) ≡ false)

-- An entry that the map gives under an id has that id, and what holds of all the entries.
pub lookup-entry_map :
    (P : Entry → Type 0) (entries : List Entry) (by_id : Dict ℕ Entry) (id : ℕ) (e : Entry)
    → All P entries
    → ((x : Entry) → lookup id by_id ≡ some x → IsNamed P id x)
    → lookup id (entry_map entries by_id) ≡ some e
    → IsNamed P id e
unfolding entry_map
lookup-entry_map P [] by_id id e all before found = before e found
lookup-entry_map P (x ∷ entries) by_id id e all before found =
    elim (Bool-cases (x.credential_id == 0)) [
      | inl unnamed ↦ lookup-entry_map P entries by_id id e all.1 before (rw unnamed at found)
      | inr named ↦
          lookup-entry_map P entries (insert x.credential_id x by_id) id e all.1
            (λ y here. elim (Bool-cases (id == x.credential_id)) [
              | inl same ↦
                  let at_x : some x ≡ some y =
                    rw (lookup-insert x.credential_id id x by_id, same) at here in
                  let is : x ≡ y = cc in
                  (
                    rw (sym is) all.0,
                    rw (sym is) (sym ((==_iff id x.credential_id).0 same)),
                    rw (sym is) named,
                  )
              | inr other ↦ before y (rw (lookup-insert x.credential_id id x by_id, other) at here)
            ])
            (rw named at found)
    ]

pub lookup-entry_map_nil :
    (id : ℕ) (entries : List Entry)
    → is_nil entries ≡ true
    → lookup id (entry_map entries []) ≡ none
unfolding entry_map
lookup-entry_map_nil id [] e = refl
lookup-entry_map_nil id (x ∷ entries) e = ground (arith, e)

pub lookup-insert_self :
    (key : ℕ) (b : Binding) (bindings : Dict ℕ Binding)
    → lookup key (insert key b bindings) ≡ some b
lookup-insert_self key b bindings =
    let same : (key == key) ≡ true = ground arith in lookup-insert key key b bindings ∙ rw same refl

-- What a pick may return: an entry of the pool with a key in clear that is not excluded.
abbrev pub IsOpen : List Entry → List ℕ → Entry → Type 0
IsOpen entries exclude e =
    (elem e.credential_id exclude ≡ false)
    × (e.has_key ≡ true)
    × (any (λ x. x.credential_id == e.credential_id && x.account_id == e.account_id) entries ≡ true)

abbrev pub lists : List Entry → Entry → Bool
lists entries e =
    any (λ x. x.credential_id == e.credential_id && x.account_id == e.account_id) entries

pub lists-All : (entries : List Entry) → All (λ e. lists entries e ≡ true) entries
lists-All [] = tt
lists-All (x ∷ entries) = (
  ground arith,
  All-mono (λ e. lists entries e ≡ true) (λ e. lists (x ∷ entries) e ≡ true)
      (λ e h. ground (arith, h)) entries (lists-All entries),
)

pub available-IsOpen :
    (entries todo : List Entry) (exclude : List ℕ)
    → All (λ e. lists entries e ≡ true) todo
    → All (IsOpen entries exclude) (available todo exclude)
unfolding available
available-IsOpen entries [] exclude all = tt
available-IsOpen entries (e ∷ todo) exclude all =
    elim (Bool-cases (not (elem e.credential_id exclude) && e.has_key)) [
      | inl is_open ↦
          rw is_open
            ((ground arith, ground arith, all.0), available-IsOpen entries todo exclude all.1)
      | inr closed ↦ rw closed (available-IsOpen entries todo exclude all.1)
    ]
