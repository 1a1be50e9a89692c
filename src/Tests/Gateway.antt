-- ===== src/Tests/Gateway.antt =====
-- A gateway key on a pool of two accounts.
use cursor_pulse.Base.{
  ℕ, ◌*◌, ◌+◌, ◌&&◌, ◌==◌, if◌then◌else◌, ◌≡◌, refl, true, false, List, [], ◌∷◌, Option, some, elem,
  arith,
}
use cursor_pulse.Base.Dict.{lookup, nat_eq}
use cursor_pulse.Base.Sorting.{sort_by, place}
use cursor_pulse.Seats.Book.{
  empty_book, second, expire, count_by_account, count_loop, reap_dead_boots, dead_boots,
}
use cursor_pulse.Seats.Choice.{
  choose, occupy_all, held, choose_seats, choose_limited, current_fits, first_free, full, others_on,
  accounts, set_defaults,
}
use cursor_pulse.Sticky.{Entry, GatewaySelection, Gateway, entry_map, available, ranked_request}
use cursor_pulse.Sticky.Resolve.{
  Pick, resolve_cp_credential, pick_entry, sticky_entry, sticky_binding, drops_binding,
  restore_cp_seats, rank_anew, settle, chosen_of, ranked_entries, release_seat, restore_loop,
}
use cursor_pulse.Sticky.Pool.{PoolRow, is_listed, list_cp_pool_entries, tier_pressure}
use cursor_pulse.Sticky.Usable.{resolve_cp_credential-IsUsable}
use cursor_pulse.Base.Text.{Text, codes, strip, lower}
use cursor_pulse.Keys.Store.{is_cp_vendor}
use cursor_pulse.Sticky.Again.{resolved, resolve_cp_credential_again}

abbrev entry : ℕ → Entry
entry id = record { credential_id = id; account_id = 10 * id; has_key = true }

abbrev pool : List Entry
pool = entry 1 ∷ entry 2 ∷ []

abbrev selection : GatewaySelection
selection = record { min_switch = 600 * second; max_concurrent_users = 2; concurrent_ttl = 0 }

abbrev pick : Pick
pick = record {
  proxy_key_id = 5;
  exclude_credential_ids = [];
  current_credential_id = 0;
  release_current = false;
  boot_id = 0;
}

abbrev idle : Gateway
idle = record { bindings = []; book = empty_book }

-- The second entry ranks first.
abbrev rank : ℕ → ℕ → ℕ
rank id load = if id == 2 then load else load + 9

abbrev asked : Pick → ℕ → ℕ → List Entry → Gateway → Option Entry × Gateway
asked = resolved (λ key. key) rank false selection (λ key. selection) [] []

first_pick : (asked pick 1_000 1_000 pool idle).0 ≡ some (entry 2)
unfolding resolve_cp_credential pick_entry available sticky_entry sticky_binding drops_binding
    restore_cp_seats empty_book rank_anew settle chosen_of choose choose_seats ranked_request
    choose_limited current_fits first_free ranked_entries place sort_by count_by_account count_loop
    expire reap_dead_boots dead_boots release_seat restore_loop entry_map full others_on accounts
    set_defaults occupy_all held
first_pick = refl

abbrev row : ℕ → ℕ → PoolRow
row id pct = record {
  credential_id = id;
  account_id = 10 * id;
  vendor_slug = codes "glm";
  vendor_is_active = true;
  cp_proxy_enabled = true;
  is_deleted = false;
  is_active = true;
  is_primary = true;
  bound_at = id;
  snapshot = some (record { total_pct = some pct; tiers = [] });
}

-- The third account is nearly used up.
abbrev rows : List PoolRow
rows = row 1 20 ∷ row 2 40 ∷ row 3 97 ∷ []

abbrev listed : Text → List PoolRow → List Entry
listed = list_cp_pool_entries (λ id. id) (λ id. true) (codes "secret")

two_are_listed : listed (codes " GLM") rows ≡ pool
unfolding list_cp_pool_entries is_cp_vendor tier_pressure sort_by place strip lower
two_are_listed = refl

second_is_picked : (asked pick 1_000 1_000 (listed (codes " GLM") rows) idle).0 ≡ some (entry 2)
second_is_picked = rw two_are_listed first_pick

resolve_cp_credential-IsUsable_example :
    (is_listed (lower (strip (codes " GLM"))) rows (entry 2) ≡ true)
    × (true ≡ true)
    × (elem 2 [] ≡ false)
resolve_cp_credential-IsUsable_example =
    resolve_cp_credential-IsUsable (λ id. id) (λ id. true) (codes "secret") (codes " GLM") rows
      (λ key. key) rank false selection pick 1_000 1_000 (λ key. selection) [] [] idle (entry 2)
      second_is_picked

not_lost :
    (drops_binding (λ key. key) rank false selection pick 1_000 1_000 idle.bindings && false)
    ≡ false
unfolding drops_binding
not_lost = refl

still_listed : lookup 2 (entry_map (available pool []) []) ≡ some (entry 2)
unfolding entry_map available
still_listed = refl

-- The next request finds the gateway as the first has left it, and remembers no credential.
resolve_cp_credential_again_example :
    (asked pick 9_000 9_000 pool (asked pick 1_000 1_000 pool idle).1).0 ≡ some (entry 2)
resolve_cp_credential_again_example =
    resolve_cp_credential_again (λ key. key) rank false selection (λ key. selection) [] [] pick pick
      1_000 9_000 1_000 9_000 pool pool idle (entry 2) (entry 2) first_pick not_lost refl refl refl
      still_listed (omega arith) (omega arith)
