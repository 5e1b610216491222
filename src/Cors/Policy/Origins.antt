-- ===== src/Cors/Policy/Origins.antt =====
-- Which origins the tables of `New` admit.
use mathlib.Core.List.{append-nil}
use mathlib.Core.Path.{subst}
use plumbing.Prelude.{
  Bool, true, false, ◌≡◌, refl, sym, ap, ◌∙◌, ◌↔◌, ◌⊎◌, inl, inr, ◌||◌, none, some, List, [], ◌∷◌,
  ◌++◌, any-append, Any, nat_eq, nat_eq_iff, if◌then◌else◌, arith, Bool-cases, Option-cases,
  List-cases,
}
use plumbing.Cors.{Wildcard, wildcard_match, same_bytes}
use plumbing.Cors.Wildcards.{
  wildcard_match_split, wildcard_match-append, same_bytes_lem, same_bytes_refl,
}
use plumbing.Cors.Policy.{
  Bytes, TextOps, star, Request, Options, OriginTable, no_origins, all_origins, split_star,
  with_origin, add_origins, origin_table, new, in_table, is_origin_allowed,
}

abbrev no_star : Bytes → Bool
no_star [] = true
no_star (b ∷ s) = if nat_eq b 42 then false else no_star s

-- A pattern without `*` admits itself; in another one the first `*` stands for any text.
pub data Admits (pattern origin : Bytes) : Type 0 where
  plain : no_star pattern ≡ true → pattern ≡ origin → Admits pattern origin
  wild :
      (before middle after : Bytes)
      → no_star before ≡ true
      → pattern ≡ before ++ 42 ∷ after
      → origin ≡ before ++ (middle ++ after)
      → Admits pattern origin

or_cases : (a b : Bool) → (a || b) ≡ true → (a ≡ true) ⊎ (b ≡ true)
or_cases true b h = inl refl
or_cases false b h = inr h

or_true : (a b : Bool) → (a ≡ true) ⊎ (b ≡ true) → (a || b) ≡ true
or_true a b h = ground (arith, h)

no_star-split_star : (s : Bytes) → no_star s ≡ true → split_star s ≡ none
unfolding split_star
no_star-split_star [] h = refl
no_star-split_star (b ∷ s) h = ground (arith, h, no_star-split_star s)

append-split_star :
    (before after : Bytes)
    → no_star before ≡ true
    → split_star (before ++ 42 ∷ after) ≡ some (record { prefix = before; suffix = after })
unfolding split_star
append-split_star [] after h = refl
append-split_star (b ∷ before) after h = ground (arith, h, append-split_star before after)

-- A text has no `*`, or a first one.
star_cases :
    (s : Bytes)
    → (no_star s ≡ true)
      ⊎ ((before : Bytes) × (after : Bytes) × (no_star before ≡ true) × (s ≡ before ++ 42 ∷ after))
star_cases [] = inl refl
star_cases (b ∷ s) = elim (Bool-cases (nat_eq b 42)) [
  | inl e ↦ inr ([], s, refl, ap (λ x. x ∷ s) ((nat_eq_iff b 42).0 e))
  | inr e ↦ elim (star_cases s) [
    | inl h ↦ inl (ground (arith, e, h))
    | inr (before, after, h, k) ↦ inr (b ∷ before, after, ground (arith, e, h), ap (λ x. b ∷ x) k)
  ]
]

same_bytes_iff : (s t : Bytes) → (same_bytes s t ≡ true) ↔ (s ≡ t)
same_bytes_iff s t = (same_bytes_lem s t, λ e. rw e (same_bytes_refl t))

in_table_plain :
    (pattern origin : Bytes) (t : OriginTable)
    → no_star pattern ≡ true
    → in_table (with_origin pattern t) origin ≡ (in_table t origin || same_bytes pattern origin)
unfolding in_table with_origin
in_table_plain pattern origin t h = ground (
  arith,
  no_star-split_star pattern h,
  any-append (λ o. same_bytes o origin) t.allowed_origins (pattern ∷ []),
)

in_table_wild :
    (pattern origin : Bytes) (w : Wildcard) (t : OriginTable)
    → split_star pattern ≡ some w
    → in_table (with_origin pattern t) origin ≡ (in_table t origin || wildcard_match w origin)
unfolding in_table with_origin
in_table_wild pattern origin w t h =
    ground (arith, h, any-append (λ v. wildcard_match v origin) t.allowed_w_origins (w ∷ []))

Admits_plain :
    (pattern origin : Bytes) → no_star pattern ≡ true → Admits pattern origin → pattern ≡ origin
Admits_plain pattern origin h (plain n e) = e
Admits_plain pattern origin h (wild before middle after n e k) =
    let split = ap split_star e ∙ append-split_star before after n in
    ground (arith, no_star-split_star pattern h, split)

wildcard_fields : (v w : Wildcard) → some v ≡ some w → (v.prefix ≡ w.prefix) × (v.suffix ≡ w.suffix)
wildcard_fields v w h = ground (arith, h)

Admits_wild :
    (pattern origin : Bytes) (w : Wildcard)
    → split_star pattern ≡ some w
    → Admits pattern origin
    → wildcard_match w origin ≡ true
Admits_wild pattern origin w h (plain n e) = ground (arith, h, no_star-split_star pattern n)
Admits_wild pattern origin w h (wild before middle after n e k) =
    let parts =
      wildcard_fields (record { prefix = before; suffix = after }) w
        (sym (append-split_star before after n) ∙ sym (ap split_star e) ∙ h) in
    let whole : origin ≡ w.prefix ++ (middle ++ w.suffix) =
      k ∙ ap (λ x. x ++ (middle ++ after)) parts.0 ∙ ap (λ x. w.prefix ++ (middle ++ x)) parts.1 in
    rw whole (wildcard_match-append w middle)

-- What one more origin adds to a table.
in_table-with_origin :
    (pattern origin : Bytes) (t : OriginTable)
    → (in_table (with_origin pattern t) origin ≡ true)
      ↔ ((in_table t origin ≡ true) ⊎ Admits pattern origin)
in_table-with_origin pattern origin t = elim (star_cases pattern) [
  | inl h ↦
      let same = in_table_plain pattern origin t h in
      let iff = same_bytes_iff pattern origin in
      (
        (λ e. elim (or_cases _ _ (sym same ∙ e)) [
          | inl old ↦ inl old
          | inr new ↦ inr (plain h (iff.0 new))
        ]),
        (λ c.
            same
            ∙ or_true _ _ (elim c [
              | inl old ↦ inl old
              | inr a ↦ inr (iff.1 (Admits_plain pattern origin h a))
            ])),
      )
  | inr (before, after, h, k) ↦
      let w : Wildcard = record { prefix = before; suffix = after } in
      let split : split_star pattern ≡ some w =
        ap split_star k ∙ append-split_star before after h in
      let same = in_table_wild pattern origin w t split in
      (
        (λ e. elim (or_cases _ _ (sym same ∙ e)) [
          | inl old ↦ inl old
          | inr new ↦
              let parts = wildcard_match_split w origin new in
              inr (wild before parts.0 after h k parts.1)
        ]),
        (λ c.
            same
            ∙ or_true _ _ (elim c [
              | inl old ↦ inl old
              | inr a ↦ inr (Admits_wild pattern origin w split a)
            ])),
      )
]

with_origin_all :
    (pattern : Bytes) (t : OriginTable)
    → (with_origin pattern t).allowed_origins_all ≡ t.allowed_origins_all
unfolding with_origin
with_origin_all pattern t = elim (Option-cases (split_star pattern)) [
  | inl e ↦ ground (arith, e)
  | inr (w, e) ↦ ground (arith, e)
]

star_Admits : (origin : Bytes) → Admits star origin
star_Admits origin = wild [] origin [] refl refl (sym (append-nil origin))

abbrev admitted : OriginTable → Bytes → Bool
admitted t origin = t.allowed_origins_all || in_table t origin

module _ (ops : TextOps) where
  add_origins-star :
      (o : Bytes) (patterns : List Bytes) (t : OriginTable)
      → same_bytes (ops.to_lower o) star ≡ true
      → add_origins ops (o ∷ patterns) t ≡ all_origins
  unfolding add_origins
  add_origins-star o patterns t e = rw e refl

  add_origins_next :
      (o : Bytes) (patterns : List Bytes) (t : OriginTable)
      → same_bytes (ops.to_lower o) star ≡ false
      → add_origins ops (o ∷ patterns) t ≡ add_origins ops patterns (with_origin (ops.to_lower o) t)
  unfolding add_origins
  add_origins_next o patterns t e = rw e refl

  add_origins_lem :
      (patterns : List Bytes) (t : OriginTable) (origin : Bytes)
      → t.allowed_origins_all ≡ false
      → (admitted (add_origins ops patterns t) origin ≡ true)
        ↔ ((in_table t origin ≡ true) ⊎ Any (λ o. Admits (ops.to_lower o) origin) patterns)
  unfolding add_origins
  add_origins_lem [] t origin h = (
    (λ e. inl (ground (arith, h, e))),
    λ c. elim c [ inl e ↦ ground (arith, e) | inr e ↦ elim e [ ] ],
  )
  add_origins_lem (o ∷ patterns) t origin h = elim (Bool-cases (same_bytes (ops.to_lower o) star)) [
    | inl e ↦
        let is_star : ops.to_lower o ≡ star = same_bytes_lem (ops.to_lower o) star e in
        (
          (λ k. inr (inl (rw is_star (star_Admits origin)))),
          (λ c. ap (λ x. admitted x origin) (add_origins-star o patterns t e)),
        )
    | inr e ↦
        let rest =
          add_origins_lem patterns (with_origin (ops.to_lower o) t) origin
            (with_origin_all (ops.to_lower o) t ∙ h) in
        let one = in_table-with_origin (ops.to_lower o) origin t in
        let same = ap (λ x. admitted x origin) (add_origins_next o patterns t e) in
        (
          (λ k. elim (rest.0 (sym same ∙ k)) [
            | inl now ↦ elim (one.0 now) [ inl old ↦ inl old | inr a ↦ inr (inl a) ]
            | inr later ↦ inr (inr later)
          ]),
          (λ c.
              same
              ∙ rest.1 (elim c [
                | inl old ↦ inl (one.1 (inl old))
                | inr d ↦ elim d [ inl a ↦ inl (one.1 (inr a)) | inr later ↦ inr later ]
              ])),
        )
  ]

  nothing_in_table : (origin : Bytes) → ¬ (in_table no_origins origin ≡ true)
  unfolding in_table
  nothing_in_table origin e = ground (arith, e)

  module _ {R : Type 0} where
    allowed_by_default :
        (options : Options R) (r : Request R) (origin : Bytes)
        → options.allow_origin_func ≡ none
        → options.allowed_origins ≡ []
        → is_origin_allowed ops (new ops options) r origin ≡ true
    unfolding is_origin_allowed new origin_table
    allowed_by_default options r origin h e = ground (arith, h, e)

    allowed_by_table :
        (options : Options R) (r : Request R) (origin o : Bytes) (rest : List Bytes)
        → options.allow_origin_func ≡ none
        → options.allowed_origins ≡ o ∷ rest
        → is_origin_allowed ops (new ops options) r origin
          ≡ admitted (add_origins ops (o ∷ rest) no_origins) (ops.to_lower origin)
    unfolding is_origin_allowed new origin_table
    allowed_by_table options r origin o rest h e = ground (arith, h, e)

    -- Without a function of its own, the handler that `New` makes admits an origin exactly if there are
    -- no patterns or one of them, in lower case, admits the origin in lower case.
    pub is_origin_allowed-new :
        (options : Options R) (r : Request R) (origin : Bytes)
        → options.allow_origin_func ≡ none
        → (is_origin_allowed ops (new ops options) r origin ≡ true) ↔ (
            (options.allowed_origins ≡ [])
            ⊎ Any (λ o. Admits (ops.to_lower o) (ops.to_lower origin)) options.allowed_origins)
    is_origin_allowed-new options r origin h = elim (List-cases options.allowed_origins) [
      | inl e ↦ ((λ k. inl e), λ c. allowed_by_default options r origin h e)
      | inr (o, rest, e) ↦
          let table = add_origins_lem (o ∷ rest) no_origins (ops.to_lower origin) refl in
          let same = allowed_by_table options r origin o rest h e in
          let Some : List Bytes → Type 0 =
            Any (λ o. Admits (ops.to_lower o) (ops.to_lower origin)) in
          (
            (λ k. elim (table.0 (sym same ∙ k)) [
              | inl now ↦ elim (nothing_in_table (ops.to_lower origin) now) [ ]
              | inr a ↦ inr (subst Some (sym e) a)
            ]),
            (λ c.
                same
                ∙ table.1 (
                    inr
                      (elim c [ inl empty ↦ ground (arith, e, empty) | inr a ↦ subst Some e a ]))),
          )
    ]
