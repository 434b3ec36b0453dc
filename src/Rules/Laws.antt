-- ===== src/Rules/Laws.antt =====
-- Which rule decides a branch.
use aezab.Prelude.{
  ◌≡◌, ◌⊎◌, inl, inr, refl, ap, String, string_eq, true, false, List, [], ◌∷◌, ◌++◌, All,
  Bool-cases,
}
use aezab.Prelude.Dict.{Dict}
use aezab.Value.{Value, null, Runtime}
use aezab.Rules.{Rule, matches, evaluate_rules}

module _ (py : Runtime) (values : Dict String Value) where
  -- The first rule that matches decides.
  pub record Decided (rules : List Rule) (target : Value) : Type 0 where
    pub before : List Rule
    pub rule : Rule
    pub after : List Rule
    pub split : rules ≡ before ++ (rule ∷ after)
    pub passed_over : All (λ r. matches py values r.condition ≡ false) before
    pub chosen : matches py values rule.condition ≡ true
    pub goes_to : target ≡ rule.goto_step

module _ (py : Runtime) (values : Dict String Value) where
  -- The result is the target of the first rule that matches, or `None` where no rule does.
  pub evaluate_rules_lem :
      (rules : List Rule)
      → Decided py values rules (evaluate_rules py rules values)
        ⊎ (All (λ r. matches py values r.condition ≡ false) rules
            × (evaluate_rules py rules values ≡ null))
  unfolding evaluate_rules
  evaluate_rules_lem [] = inr (tt, refl)
  evaluate_rules_lem (rule ∷ rules) = elim (Bool-cases (matches py values rule.condition)) [
    | inl y ↦ inl (record {
      before = [];
      rule = rule;
      after = rules;
      split = refl;
      passed_over = tt;
      chosen = y;
      goes_to = rw y;
    })
    | inr n ↦ elim (evaluate_rules_lem rules) [
      | inl d ↦ inl (record {
        before = rule ∷ d.before;
        rule = d.rule;
        after = d.after;
        split = ap (λ l. rule ∷ l) d.split;
        passed_over = (n, d.passed_over);
        chosen = d.chosen;
        goes_to = rw n d.goes_to;
      })
      | inr (all, e) ↦ inr ((n, all), rw n e)
    ]
  ]
