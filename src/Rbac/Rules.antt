-- ===== src/Rbac/Rules.antt =====
-- What a rule of a rules review allows.
use plumbing.Prelude.{
  String, str_eq, eq_iff, ltb, length, ◌≡◌, ◌⊎◌, inl, inr, refl, true, false, List, [], ◌∷◌, Any,
  arith, Bool-cases,
}
use plumbing.Rbac.{ResourceRule, UserCanTarget, string_slice_contains, rules_allow_target}

-- The word itself, or `*`, is listed.
abbrev pub Lists : String → List String → Type 0
Lists wanted words = Any (λ w. (w ≡ "*") ⊎ (w ≡ wanted)) words

-- A rule for resources of any name that lists the verb, the group and the resource.
pub record Allows (target : UserCanTarget) (rule : ResourceRule) : Type 0 where
  pub any_name : rule.resource_names ≡ []
  pub verb : Lists target.verb rule.verbs
  pub group : Lists target.group rule.api_groups
  pub resource : Lists target.resource rule.resources

string_slice_contains-Lists :
    (words : List String) (wanted : String)
    → string_slice_contains words wanted ≡ true
    → Lists wanted words
unfolding string_slice_contains
string_slice_contains-Lists [] wanted h = ground (arith, h)
string_slice_contains-Lists (w ∷ words) wanted h = elim (Bool-cases (str_eq w "*")) [
  | inl star ↦ inl (inl ((eq_iff w "*").0 star))
  | inr other ↦ elim (Bool-cases (str_eq w wanted)) [
    | inl same ↦ inl (inr ((eq_iff w wanted).0 same))
    | inr differ ↦ inr (string_slice_contains-Lists words wanted (ground (arith, h, other, differ)))
  ]
]

no_names : (names : List String) → ltb 0 (length names) ≡ false → names ≡ []
no_names [] h = refl
no_names (n ∷ names) h = ground (arith, h)

pub rules_allow_target-Allows :
    (rules : List ResourceRule) (target : UserCanTarget)
    → rules_allow_target rules target ≡ true
    → Any (Allows target) rules
unfolding rules_allow_target
rules_allow_target-Allows [] target h = ground (arith, h)
rules_allow_target-Allows (rule ∷ rules) target h =
    let later = rules_allow_target-Allows rules target in
    elim (Bool-cases (ltb 0 (length rule.resource_names))) [
      | inl named ↦ inr (later (ground (arith, h, named)))
      | inr any ↦ elim (Bool-cases (string_slice_contains rule.verbs target.verb)) [
        | inr v ↦ inr (later (ground (arith, h, any, v)))
        | inl v ↦ elim (Bool-cases (string_slice_contains rule.api_groups target.group)) [
          | inr g ↦ inr (later (ground (arith, h, any, v, g)))
          | inl g ↦ elim (Bool-cases (string_slice_contains rule.resources target.resource)) [
            | inr r ↦ inr (later (ground (arith, h, any, v, g, r)))
            | inl r ↦ inl (record {
              any_name = no_names rule.resource_names any;
              verb = string_slice_contains-Lists rule.verbs target.verb v;
              group = string_slice_contains-Lists rule.api_groups target.group g;
              resource = string_slice_contains-Lists rule.resources target.resource r;
            })
          ]
        ]
      ]
    ]
