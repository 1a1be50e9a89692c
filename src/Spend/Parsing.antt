-- ===== src/Spend/Parsing.antt =====
-- Reading rules: what `parse_spend_rules` accepts, and that it survives storage.
use cursor_pulse.Base.{
  ℕ, suc, ◌≤◌, ◌≡◌, ◌≢◌, refl, ap, true, false, List, [], ◌∷◌, map, some, arith, Bool-cases, inl,
  inr, All, length, ltb,
}
use cursor_pulse.Base.Text.{strip}
use cursor_pulse.Spend.Rule.{
  Period, five_hours, week, month, SpendPool, auto, api, total, SpendRule, RawRule, dict, ok,
  >>=-eq-ok, RuleKey, key_beq_iff, rule_key, seen_key, parse_item, parse_loop, parse_spend_rules,
  as_dict, read_stored, rules_from_json,
}

abbrev IsAboveFloor : SpendRule → Type 0
IsAboveFloor r = 100 ≤ r.limit_cents

-- No rule's key is in `seen` or repeats an earlier rule's.
abbrev NoClash : List RuleKey → List SpendRule → Type 0
NoClash seen [] = Unit
NoClash seen (r ∷ rules) = (seen_key (rule_key r) seen ≡ false) × NoClash (rule_key r ∷ seen) rules

-- One rule for each period and pool.
abbrev pub DistinctKeys : List SpendRule → Type 0
DistinctKeys [] = Unit
DistinctKeys (r ∷ rules) = All (λ s. rule_key s ≢ rule_key r) rules × DistinctKeys rules

parse_item-IsAboveFloor : (item : RawRule) (r : SpendRule) → parse_item item ≡ ok r → IsAboveFloor r
unfolding parse_item
parse_item-IsAboveFloor item r h = ground arith

parse_loop_sound :
    (items : List RawRule) (seen : List RuleKey) (rules : List SpendRule)
    → parse_loop items seen ≡ ok rules
    → All IsAboveFloor rules × NoClash seen rules × (length rules ≡ length items)
unfolding parse_loop
parse_loop_sound [] seen [] h = (tt, tt, refl)
parse_loop_sound [] seen (r ∷ rules) h = cc
parse_loop_sound (item ∷ items) seen rules h =
    let (r, rest, read) = >>=-eq-ok (parse_item item) _ h in
    elim (Bool-cases (seen_key (rule_key r) seen)) [
      | inl dup ↦ ground arith
      | inr fresh ↦
          let (rs, made, looped) =
            >>=-eq-ok (parse_loop items (rule_key r ∷ seen)) (λ rs. ok (r ∷ rs))
              (rw fresh at rest) in
          let (above, clear, long) = parse_loop_sound items (rule_key r ∷ seen) rs looped in
          let e : rules ≡ r ∷ rs = cc in
          rw e ((parse_item-IsAboveFloor item r read, above), (fresh, clear), ap suc long)
    ]

NoClash-fresh :
    (k : RuleKey) (seen : List RuleKey) (rules : List SpendRule)
    → NoClash seen rules
    → seen_key k seen ≡ true
    → All (λ s. rule_key s ≢ k) rules
NoClash-fresh k seen [] c h = tt
NoClash-fresh k seen (r ∷ rules) c h = (
  λ e. ground (arith, ap (λ (j : RuleKey). seen_key j seen) e),
  NoClash-fresh k (rule_key r ∷ seen) rules c.1 (ground arith),
)

NoClash-DistinctKeys :
    (seen : List RuleKey) (rules : List SpendRule) → NoClash seen rules → DistinctKeys rules
NoClash-DistinctKeys seen [] c = tt
NoClash-DistinctKeys seen (r ∷ rules) c = (
  NoClash-fresh (rule_key r) (rule_key r ∷ seen) rules c.1
      (ground (arith, key_beq_iff (rule_key r) (rule_key r))),
  NoClash-DistinctKeys (rule_key r ∷ seen) rules c.1,
)

module _ (cents : ℕ) (floor : 100 ≤ cents) where
  abbrev rule : Period → SpendPool → SpendRule
  rule p q = record { period = p; pool = q; limit_cents = cents }

  above : ltb cents 100 ≡ false
  above = ground arith

  read_stored-as_dict :
      (p : Period) (q : SpendPool) → read_stored (dict (as_dict (rule p q))) ≡ some (rule p q)
  unfolding read_stored as_dict strip
  read_stored-as_dict five_hours auto = rw above
  read_stored-as_dict five_hours api = rw above
  read_stored-as_dict five_hours total = rw above
  read_stored-as_dict week auto = rw above
  read_stored-as_dict week api = rw above
  read_stored-as_dict week total = rw above
  read_stored-as_dict month auto = rw above
  read_stored-as_dict month api = rw above
  read_stored-as_dict month total = rw above

  parse_item-as_dict :
      (p : Period) (q : SpendPool) → parse_item (as_dict (rule p q)) ≡ ok (rule p q)
  unfolding parse_item as_dict strip
  parse_item-as_dict five_hours auto = rw above
  parse_item-as_dict five_hours api = rw above
  parse_item-as_dict five_hours total = rw above
  parse_item-as_dict week auto = rw above
  parse_item-as_dict week api = rw above
  parse_item-as_dict week total = rw above
  parse_item-as_dict month auto = rw above
  parse_item-as_dict month api = rw above
  parse_item-as_dict month total = rw above

parse_loop-as_dict :
    (seen : List RuleKey) (rules : List SpendRule)
    → All IsAboveFloor rules
    → NoClash seen rules
    → parse_loop (map as_dict rules) seen ≡ ok rules
unfolding parse_loop
parse_loop-as_dict seen [] a c = refl
parse_loop-as_dict seen (r ∷ rules) a c = rw (
  parse_item-as_dict r.limit_cents a.0 r.period r.pool,
  c.0,
  parse_loop-as_dict (rule_key r ∷ seen) rules a.1 c.1,
)

rules_from_json-as_dict :
    (rules : List SpendRule)
    → All IsAboveFloor rules
    → rules_from_json (some (map (λ r. dict (as_dict r)) rules)) ≡ rules
unfolding rules_from_json
rules_from_json-as_dict [] a = refl
rules_from_json-as_dict (r ∷ rules) a = rw (
  read_stored-as_dict r.limit_cents a.0 r.period r.pool,
  rules_from_json,
  rules_from_json-as_dict rules a.1,
)

-- If `parse_spend_rules` accepts a list of items, then every rule has a limit of at least 100 cents,
-- no two rules share their period and pool, and there are as many rules as items.
pub parse_spend_rules_sound :
    (items : List RawRule) (rules : List SpendRule)
    → parse_spend_rules (some items) ≡ ok rules
    → All (λ r. 100 ≤ r.limit_cents) rules × DistinctKeys rules × (length rules ≡ length items)
unfolding parse_spend_rules
parse_spend_rules_sound items rules h =
    let (above, clear, long) = parse_loop_sound items [] rules h in
    (above, NoClash-DistinctKeys [] rules clear, long)

-- Rules that `parse_spend_rules` accepted come back unchanged from the JSON that they are stored as,
-- and are accepted again, unchanged, when that JSON is posted.
pub parse_spend_rules-as_dict :
    (items : List RawRule) (rules : List SpendRule)
    → parse_spend_rules (some items) ≡ ok rules
    → (rules_from_json (some (map (λ r. dict (as_dict r)) rules)) ≡ rules)
      × (parse_spend_rules (some (map as_dict rules)) ≡ ok rules)
unfolding parse_spend_rules
parse_spend_rules-as_dict items rules h =
    let (above, clear, _) = parse_loop_sound items [] rules h in
    (rules_from_json-as_dict rules above, parse_loop-as_dict [] rules above clear)
