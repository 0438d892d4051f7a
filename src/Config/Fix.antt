-- ===== src/Config/Fix.antt =====
-- What `fix_api` brings about.
use viam_cpp_sdk.Prelude.{
  ℕ, [], ◌∷◌, Bytes, codes, Bytes-discrete, ok, err, exception, k_general, ◌≡◌, ◌≢◌, refl, sym, ◌∙◌,
  ◌⊎◌, inl, inr, arith,
}
use viam_cpp_sdk.Config.{
  ResourceConfig, rdk, fix_namespace, fix_type, fix_subtype, check_names, fix_api,
}

abbrev pub component : Bytes
component = codes "component"

empty_or_not : (s : Bytes) → (s ≡ []) ⊎ ((x : ℕ) × (t : Bytes) × (s ≡ x ∷ t))
empty_or_not [] = inl refl
empty_or_not (x ∷ t) = inr (x, t, refl)

cons_ne : (x : ℕ) (t : Bytes) → x ∷ t ≢ []
cons_ne x t e = cc

module _ {A F : Type 0} where
  -- The names of a fixed configuration agree; each part that the API gives is kept, and where it
  -- gives none, what the configuration gives, or else the default: `rdk`, `component`, and none for a
  -- subtype. The name and the model are the same.
  pub record IsFixed (c r : ResourceConfig A F) : Type 0 where
    pub same_namespace : r.api.type_namespace ≡ r.namespace
    pub same_type : r.api.resource_subtype ≡ r.type
    pub some_namespace : r.namespace ≢ []
    pub kept_namespace :
        (r.namespace ≡ c.api.type_namespace)
        ⊎ ((c.api.type_namespace ≡ []) × (r.namespace ≡ c.namespace))
        ⊎ ((c.api.type_namespace ≡ []) × (c.namespace ≡ []) × (r.namespace ≡ rdk))
    pub kept_type :
        ((c.api.resource_type ≢ []) × (r.api.resource_type ≡ c.api.resource_type))
        ⊎ ((c.api.resource_type ≡ []) × (r.api.resource_type ≡ component))
    pub kept_api_subtype :
        (c.api.resource_subtype ≡ []) ⊎ (r.api.resource_subtype ≡ c.api.resource_subtype)
    pub kept_subtype : (r.type ≡ c.type) ⊎ ((c.type ≡ []) × (r.type ≡ c.api.resource_subtype))
    pub same_name : r.name ≡ c.name
    pub same_model : r.model ≡ c.model

  -- The API and the configuration give two different subtypes.
  abbrev pub Conflicts : ResourceConfig A F → Type 0
  Conflicts c = (c.api.resource_subtype ≢ []) × (c.type ≢ []) × (c.api.resource_subtype ≢ c.type)

  abbrev NamespaceFixed : ResourceConfig A F → ResourceConfig A F → Type 0
  NamespaceFixed c n =
      (n.api.type_namespace ≡ n.namespace)
      × (n.namespace ≢ [])
      × ((n.namespace ≡ c.api.type_namespace)
          ⊎ ((c.api.type_namespace ≡ []) × (n.namespace ≡ c.namespace))
          ⊎ ((c.api.type_namespace ≡ []) × (c.namespace ≡ []) × (n.namespace ≡ rdk)))
      × (n.api.resource_type ≡ c.api.resource_type)
      × (n.api.resource_subtype ≡ c.api.resource_subtype)
      × (n.type ≡ c.type)
      × (n.name ≡ c.name)
      × (n.model ≡ c.model)

  namespace_fixed : (c : ResourceConfig A F) → NamespaceFixed c (fix_namespace c)
  namespace_fixed c = elim (empty_or_not c.api.type_namespace) [
    | inl e ↦ elim (empty_or_not c.namespace) [
      | inl f ↦
          rw (e, f) (refl, cons_ne _ _, inr (inr (refl, refl, refl)), refl, refl, refl, refl, refl)
      | inr (x, t, f) ↦
          rw (e, f) (refl, cons_ne x t, inr (inl (refl, refl)), refl, refl, refl, refl, refl)
    ]
    | inr (x, t, e) ↦ rw e (refl, cons_ne x t, inl refl, refl, refl, refl, refl, refl)
  ]

  abbrev TypeFixed : ResourceConfig A F → ResourceConfig A F → Type 0
  TypeFixed c n =
      (n.api.type_namespace ≡ c.api.type_namespace)
      × (n.namespace ≡ c.namespace)
      × (((c.api.resource_type ≢ []) × (n.api.resource_type ≡ c.api.resource_type))
          ⊎ ((c.api.resource_type ≡ []) × (n.api.resource_type ≡ component)))
      × (n.api.resource_subtype ≡ c.api.resource_subtype)
      × (n.type ≡ c.type)
      × (n.name ≡ c.name)
      × (n.model ≡ c.model)

  type_fixed : (c : ResourceConfig A F) → TypeFixed c (fix_type c)
  type_fixed c = elim (empty_or_not c.api.resource_type) [
    | inl e ↦ rw e (refl, refl, inr (refl, refl), refl, refl, refl, refl)
    | inr (x, t, e) ↦ rw e (refl, refl, inl (cons_ne x t, refl), refl, refl, refl, refl)
  ]

  abbrev SubtypeFixed : ResourceConfig A F → ResourceConfig A F → Type 0
  SubtypeFixed c n =
      (n.api.type_namespace ≡ c.api.type_namespace)
      × (n.namespace ≡ c.namespace)
      × (n.api.resource_type ≡ c.api.resource_type)
      × (((n.api.resource_subtype ≡ n.type)
            × ((c.api.resource_subtype ≡ []) ⊎ (n.api.resource_subtype ≡ c.api.resource_subtype))
            × ((n.type ≡ c.type) ⊎ ((c.type ≡ []) × (n.type ≡ c.api.resource_subtype))))
          ⊎ (Conflicts c × (n.api.resource_subtype ≢ n.type)))
      × (n.name ≡ c.name)
      × (n.model ≡ c.model)

  subtype_fixed : (c : ResourceConfig A F) → SubtypeFixed c (fix_subtype c)
  subtype_fixed c = elim (empty_or_not c.api.resource_subtype) [
    | inl e ↦ rw e (refl, refl, refl, inl (refl, inl refl, inl refl), refl, refl)
    | inr (x, t, e) ↦ elim (empty_or_not c.type) [
      | inl f ↦ rw (e, f) (refl, refl, refl, inl (refl, inr refl, inr (refl, refl)), refl, refl)
      | inr (y, u, f) ↦ elim (Bytes-discrete c.api.resource_subtype c.type) [
        | yes h ↦ rw (e, f) (refl, refl, refl, inl (sym e ∙ h ∙ f, inr refl, inl refl), refl, refl)
        | no h ↦
            rw (e, f)
              (
                refl,
                refl,
                refl,
                inr ((cons_ne x t, cons_ne y u, λ k. h (e ∙ k ∙ sym f)), λ k. h (e ∙ k ∙ sym f)),
                refl,
                refl,
              )
      ]
    ]
  ]

  check_sound :
      (c : ResourceConfig A F)
      → c.api.type_namespace ≡ c.namespace
      → c.api.resource_subtype ≡ c.type
      → check_names c ≡ ok c
  check_sound c h k = ground (arith, h, k)

  check_fails :
      (c : ResourceConfig A F)
      → c.api.resource_subtype ≢ c.type
      → check_names c ≡ err (exception k_general)
  check_fails c h = ground (arith, h)

  -- What the three parts of `fix_api` do together.
  parts-IsFixed :
      (c n t s : ResourceConfig A F)
      → NamespaceFixed c n
      → TypeFixed n t
      → SubtypeFixed t s
      → ((s.api.type_namespace ≡ s.namespace) × (s.api.resource_subtype ≡ s.type) × IsFixed c s)
        ⊎ (Conflicts c × (s.api.resource_subtype ≢ s.type))
  parts-IsFixed c n t s (na, nb, nc, nd, ne, nf, ng, nh) (ta, tb, tc, td, te, tf, tg)
        (sa, sb, sc, sd, se, sf) =
      let agree = sa ∙ ta ∙ na ∙ sym (sb ∙ tb) in
      let ns = sb ∙ tb in
      elim sd [
        | inl (same, api_from, from) ↦ inl (
          agree,
          same,
          record {
            same_namespace = agree;
            same_type = same;
            some_namespace = λ e. nb (sym ns ∙ e);
            kept_namespace = elim nc [
              | inl e ↦ inl (ns ∙ e)
              | inr m ↦ elim m [
                | inl (e, f) ↦ inr (inl (e, ns ∙ f))
                | inr (e, f, g) ↦ inr (inr (e, f, ns ∙ g))
              ]
            ];
            kept_type = elim tc [
              | inl (p, q) ↦ inl ((λ e. p (nd ∙ e)), sc ∙ q ∙ nd)
              | inr (p, q) ↦ inr (sym nd ∙ p, sc ∙ q)
            ];
            kept_api_subtype = elim api_from [
              | inl e ↦ inl (sym (td ∙ ne) ∙ e)
              | inr e ↦ inr (e ∙ td ∙ ne)
            ];
            kept_subtype = elim from [
              | inl e ↦ inl (e ∙ te ∙ nf)
              | inr (e, f) ↦ inr (sym (te ∙ nf) ∙ e, f ∙ td ∙ ne)
            ];
            same_name = se ∙ tf ∙ ng;
            same_model = sf ∙ tg ∙ nh;
          },
        )
        | inr ((p, q, r), d) ↦ inr (
          ((λ e. p (td ∙ ne ∙ e)), (λ e. q (te ∙ nf ∙ e)), λ e. r (td ∙ ne ∙ e ∙ sym (te ∙ nf))),
          d,
        )
      ]

  IsFixed-agrees : (c r : ResourceConfig A F) → IsFixed c r → ¬ Conflicts c
  IsFixed-agrees c r x (p, q, d) = elim x.kept_api_subtype [
    | inl e ↦ p e
    | inr e ↦ elim x.kept_subtype [ inl f ↦ d (sym e ∙ x.same_type ∙ f) | inr (f, _) ↦ q f ]
  ]

  -- Where the API and the configuration give two different subtypes `fix_api` throws. Everywhere else
  -- it returns, and the names of the API and of the configuration agree then: every part that the API
  -- gives is kept, a namespace or a subtype that it does not give is that of the configuration, a
  -- namespace that neither gives is `rdk`, and a type that it does not give is `component`. The name
  -- and the model of the configuration are the same.
  pub fix_api_decides :
      (c : ResourceConfig A F)
      → ((¬ Conflicts c) × ((r : ResourceConfig A F) × (fix_api c ≡ ok r) × IsFixed c r))
        ⊎ (Conflicts c × (fix_api c ≡ err (exception k_general)))
  unfolding fix_api
  fix_api_decides c =
      let n = fix_namespace c in
      let t = fix_type n in
      let s = fix_subtype t in
      elim (parts-IsFixed c n t s (namespace_fixed c) (type_fixed n) (subtype_fixed t)) [
        | inl (h, k, f) ↦ inl (IsFixed-agrees c s f, (s, check_sound s h k, f))
        | inr (k, d) ↦ inr (k, check_fails s d)
      ]
