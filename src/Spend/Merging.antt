-- ===== src/Spend/Merging.antt =====
-- Merging two sets of rules by the smaller limit.
use cursor_pulse.Base.{
  ℕ, ◌<◌, ◌≡◌, ◌↔◌, refl, ap, List, [], ◌∷◌, ◌++◌, map, Option, none, some, arith, Bool-cases, inl,
  inr, All, or_else, min,
}
use cursor_pulse.Base.Dict.{Dict, lookup, insert}
use cursor_pulse.Base.Sorting.{sort_by, All-sort_by, All-of_sort_by}
use cursor_pulse.Spend.Rule.{
  SpendRule, RuleKey, key_eq, key_beq, key_beq_iff, rule_key, merge_rule, merge_loop, item_rank,
  item_rule, min_merge_rules,
}

-- Spend by period and pool that no rule of the list stops.
abbrev pub Allows : (RuleKey → ℕ) → List SpendRule → Type 0
Allows used = All λ r. used (rule_key r) < r.limit_cents

module _ (used : RuleKey → ℕ) where
  abbrev Within : RuleKey × ℕ → Type 0
  Within (k, limit) = used k < limit

  -- Writing the smaller of the old limit, if any, and a new one.
  insert-min :
      (k : RuleKey) (limit m : ℕ) (old : Option ℕ) (d : Dict RuleKey ℕ)
      → lookup k d ≡ old
      → m ≡ min (or_else old limit) limit
      → All Within (insert k m d) ↔ (All Within d × (used k < limit))
  insert-min k limit m none [] e f = (λ h. (tt, omega arith), λ h. (omega arith, tt))
  insert-min k limit m (some v) [] e f = cc
  insert-min k limit m old ((j, v) ∷ d) e f = elim (Bool-cases (key_beq k j)) [
    | inl same ↦
        let at : k ≡ j = (key_beq_iff k j).0 same in
        let was : old ≡ some v = ground arith in
        let g : m ≡ min v limit = rw was at f in
        let u : used k ≡ used j = ap used at in
        rw same (λ h. ((omega arith, h.1), omega arith), λ h. (omega arith, h.0.1))
    | inr other ↦
        let ih = insert-min k limit m old d (ground arith) f in
        rw other (λ h. ((h.0, (ih.0 h.1).0), (ih.0 h.1).1), λ h. (h.0.0, ih.1 (h.0.1, h.1)))
  ]

  merge_loop-Within :
      (rules : List SpendRule) (d : Dict RuleKey ℕ)
      → All Within (merge_loop rules d) ↔ (All Within d × Allows used rules)
  unfolding merge_loop
  merge_loop-Within [] d = (λ h. (h, tt), λ h. h.0)
  merge_loop-Within (r ∷ rules) d =
      let step = insert-min (rule_key r) r.limit_cents _ (lookup (rule_key r) d) d refl refl in
      let ih = merge_loop-Within rules (merge_rule r d) in
      (
        (λ h. let (now, later) = ih.0 h in ((step.0 now).0, ((step.0 now).1, later))),
        λ h. ih.1 (step.1 (h.0, h.1.0), h.1.1),
      )

  Within-item_rule : (d : Dict RuleKey ℕ) → Allows used (map item_rule d) ↔ All Within d
  Within-item_rule [] = (λ h. tt, λ h. tt)
  Within-item_rule ((k, v) ∷ d) =
      let ih = Within-item_rule d in ((λ h. (h.0, ih.0 h.1)), (λ h. (h.0, ih.1 h.1)))

  Allows-append : (a b : List SpendRule) → Allows used (a ++ b) ↔ (Allows used a × Allows used b)
  Allows-append [] b = (λ h. (tt, h), λ h. h.1)
  Allows-append (r ∷ a) b =
      let ih = Allows-append a b in
      ((λ h. ((h.0, (ih.0 h.1).0), (ih.0 h.1).1)), λ h. (h.0.0, ih.1 (h.0.1, h.1)))

-- The merged rules let a spend through exactly when both sets of rules do, for every spend by period
-- and pool.
pub min_merge_rules_meet :
    (existing incoming : List SpendRule) (used : RuleKey → ℕ)
    → All (λ r. used (rule_key r) < r.limit_cents) (min_merge_rules existing incoming) ↔ (
        All (λ r. used (rule_key r) < r.limit_cents) existing
        × All (λ r. used (rule_key r) < r.limit_cents) incoming)
unfolding min_merge_rules
min_merge_rules_meet existing incoming used =
    let merged = merge_loop (existing ++ incoming) [] in
    let listed = Within-item_rule used (sort_by item_rank merged) in
    let looped = merge_loop-Within used (existing ++ incoming) [] in
    let split = Allows-append used existing incoming in
    (
      (λ h. split.0 (looped.0 (All-of_sort_by item_rank (Within used) merged (listed.0 h))).1),
      λ h. listed.1 (All-sort_by item_rank (Within used) merged (looped.1 (tt, split.1 h))),
    )
