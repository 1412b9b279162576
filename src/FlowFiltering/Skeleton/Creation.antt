-- ===== src/FlowFiltering/Skeleton/Creation.antt =====
-- Dpdk-lab/flow_filtering/flow_skeleton.c: how rules are created.
use pwd_writeup.Base.{
  ℕ, List, [], ◌∷◌, ◌≡◌, ◌≢◌, refl, sym, subst, ◌∙◌, Bool, if◌then◌else◌, Option, none, some, arith,
}
use pwd_writeup.Flow.{
  Item, Action, Attr, ItemType, ActionType, flow_validate, flow_create, pattern_template_create,
  actions_template_create, async_create, pattern_types, action_types, blank_item, blank_action,
}
use pwd_writeup.Dpdk.{Env, event, History, flow}
use pwd_writeup.Dpdk.Monad.{M, call, next, Preserves, >>=-inv, ◌>>=◌, bind-Preserves, if-Preserves}
use pwd_writeup.Dpdk.Device.{Device, device}
use pwd_writeup.FlowFiltering.Snippets.{
  make_table, if_made, change, allocate, queue_actions, snippet_ipv4_flow_create_patterns,
  snippet_match_gre_create_patterns, snippet_mpls_create_patterns,
  snippet_re_route_to_kernel_create_patterns, snippet_re_route_to_kernel_create_actions,
  snippet_ipv4_flow_create_table, snippet_gre_flow_create_table, snippet_mpls_create_table,
  snippet_re_route_to_kernel_create_table,
}
use pwd_writeup.FlowFiltering.Snippets.Rules.{
  Name, Name.ipv4, Name.gre, Name.mpls, Name.re_route_to_kernel, snippet_of, intended_pattern,
  intended_actions, create_patterns-Fills, create_actions-Fills,
}
use pwd_writeup.FlowFiltering.Skeleton.{
  cleared, create_flow_non_template, create_flow_template, generate_flow_skeleton,
}

-- The types of the newest templates.
unfoldable pub template_pattern : History → Option (List ItemType)
template_pattern [] = none
template_pattern (event (flow p (pattern_template_create r items)) a ∷ h) = pattern_types items
template_pattern (event c a ∷ h) = template_pattern h

unfoldable pub template_actions : History → Option (List ActionType)
template_actions [] = none
template_actions (event (flow p (actions_template_create actions masks)) a ∷ h) =
    action_types actions
template_actions (event c a ∷ h) = template_actions h

-- The call just before found this rule valid.
abbrev pub IsValidated : ℕ → Attr → List Item → List Action → History → Type 0
IsValidated p attr items actions
      (event (flow q (flow_validate attr' items' actions')) (some u) ∷ h) =
    (q ≡ p) × (attr' ≡ attr) × (items' ≡ items) × (actions' ≡ actions)
IsValidated p attr items actions h = ⊥

-- Every rule that was created from templates has their items and actions, in number and order, and
-- every other was validated.
abbrev pub IsLawful : History → Type 0
IsLawful [] = Unit
IsLawful (event (flow p (async_create q t items actions)) a ∷ h) =
    (pattern_types items ≡ template_pattern h)
    × (action_types actions ≡ template_actions h)
    × IsLawful h
IsLawful (event (flow p (flow_create attr items actions)) a ∷ h) =
    IsValidated p attr items actions h × IsLawful h
IsLawful (event c a ∷ h) = IsLawful h

module _ (env : Env) (p : ℕ) where
  -- The answer of create_table is a table only if both templates of the snippet were made last.
  create_table_lem :
      (s : Name) (h h' : History) (t : ℕ)
      → s ≢ mpls
      → (snippet_of s).create_table env p h ≡ next (some t) h'
      → (template_pattern h' ≡ intended_pattern s) × (template_actions h' ≡ intended_actions s)
  unfolding snippet_ipv4_flow_create_table snippet_gre_flow_create_table
      snippet_re_route_to_kernel_create_table make_table template_pattern template_actions
      pattern_types action_types
  create_table_lem ipv4 h h' t d e = ground arith
  create_table_lem gre h h' t d e = absurd (ground arith)
  create_table_lem mpls h h' t d e = absurd (d refl)
  create_table_lem re_route_to_kernel h h' t d e = ground arith

  create_table-IsLawful : (s : Name) → Preserves IsLawful ((snippet_of s).create_table env p)
  unfolding snippet_ipv4_flow_create_table snippet_gre_flow_create_table snippet_mpls_create_table
      snippet_re_route_to_kernel_create_table make_table
  create_table-IsLawful ipv4 h h' a l e = ground (arith, l)
  create_table-IsLawful gre h h' a l e = ground (arith, l)
  create_table-IsLawful mpls h h' a l e = ground (arith, l)
  create_table-IsLawful re_route_to_kernel h h' a l e = ground (arith, l)

  non_template-IsLawful :
      (attr : Attr) (items : List Item) (actions : List Action)
      → Preserves IsLawful (create_flow_non_template env p attr items actions)
  unfolding create_flow_non_template
  non_template-IsLawful attr items actions h h' a l e = ground (arith, l)

  template-IsLawful :
      (s : Name) (items : List Item) (actions : List Action)
      → s ≢ mpls
      → pattern_types items ≡ intended_pattern s
      → action_types actions ≡ intended_actions s
      → Preserves IsLawful (create_flow_template env p (snippet_of s) items actions)
  unfolding create_flow_template
  template-IsLawful s items actions d i j h h' a l e =
      let (t, h₁, made, rest) = >>=-inv ((snippet_of s).create_table env p) create h a h' e in
      created t h₁ (create_table-IsLawful s h h₁ t l made) made rest
    where
      create : Option ℕ → M (Option ℕ)
      create t = if_made t λ x. call env (flow p (async_create 1 x items actions))

      created :
          (t : Option ℕ) (h₁ : History)
          → IsLawful h₁
          → (snippet_of s).create_table env p h ≡ next t h₁
          → create t h₁ ≡ next a h'
          → IsLawful h'
      created none h₁ l₁ made rest = ground (arith, l₁)
      created (some t) h₁ l₁ made rest =
          let (f, g) = create_table_lem s h h₁ t d made in
          let ended : event (flow p (async_create 1 t items actions))
                  (env.answer h₁ (flow p (async_create 1 t items actions)))
                ∷ h₁
              ≡ h' =
            cc in
          subst IsLawful ended (i ∙ sym f, j ∙ sym g, l₁)

  create_actions-IsLawful :
      (s : Name)
      → Preserves IsLawful
          ((snippet_of s).create_actions env (cleared blank_action (snippet_of s).max_action_num))
  unfolding queue_actions snippet_re_route_to_kernel_create_actions cleared change allocate
  create_actions-IsLawful ipv4 h h' a l e = ground (arith, l)
  create_actions-IsLawful gre h h' a l e = ground (arith, l)
  create_actions-IsLawful mpls h h' a l e = ground (arith, l)
  create_actions-IsLawful re_route_to_kernel h h' a l e = ground (arith, l)

  create_patterns-IsLawful :
      (s : Name)
      → Preserves IsLawful
          ((snippet_of s).create_patterns env (cleared blank_item (snippet_of s).max_pattern_num))
  unfolding snippet_ipv4_flow_create_patterns snippet_match_gre_create_patterns
      snippet_mpls_create_patterns snippet_re_route_to_kernel_create_patterns cleared change
      allocate
  create_patterns-IsLawful ipv4 h h' a l e = ground (arith, l)
  create_patterns-IsLawful gre h h' a l e = ground (arith, l)
  create_patterns-IsLawful mpls h h' a l e = ground (arith, l)
  create_patterns-IsLawful re_route_to_kernel h h' a l e = ground (arith, l)

-- If it holds before, then after a run of generate_flow_skeleton that goes on, with any snippet but the
-- MPLS one: a rule created from templates has the items and the actions of the newest templates, in
-- number and order, up to the END of both; any other was found valid in the call just before.
pub generate_flow_skeleton-IsLawful :
    (env : Env) (p : ℕ) (s : Name) (attr : Attr) (use_template_api : Bool) (h h' : History)
    (a : Option ℕ)
    → s ≢ mpls
    → IsLawful h
    → generate_flow_skeleton env p (snippet_of s) attr use_template_api h ≡ next a h'
    → IsLawful h'
unfolding generate_flow_skeleton
generate_flow_skeleton-IsLawful env p s attr use_template_api h h' a d l e =
    let (actions, h₁, first, rest) =
      >>=-inv
        ((snippet_of s).create_actions env (cleared blank_action (snippet_of s).max_action_num))
        with_actions h a h' e in
    let (patterns, h₂, second, last) =
      >>=-inv
        ((snippet_of s).create_patterns env (cleared blank_item (snippet_of s).max_pattern_num))
        (create actions) h₁ a h' rest in
    if-Preserves IsLawful use_template_api _ _
      (template-IsLawful env p s patterns actions d
        (create_patterns-Fills s env h₁ h₂ patterns second)
        (create_actions-Fills s env h h₁ actions first))
      (non_template-IsLawful env p attr patterns actions) h₂ h' a
      (create_patterns-IsLawful env p s h₁ h₂ patterns
        (create_actions-IsLawful env p s h h₁ actions l first) second)
      last
  where
    create : List Action → List Item → M (Option ℕ)
    create actions patterns =
        if use_template_api
        then create_flow_template env p (snippet_of s) patterns actions
        else create_flow_non_template env p attr patterns actions

    with_actions : List Action → M (Option ℕ)
    with_actions actions =
        (snippet_of s).create_patterns env (cleared blank_item (snippet_of s).max_pattern_num)
        >>= create actions

module _ (env : Env) (p q : ℕ) (d : Device) where
  abbrev Stays : History → Type 0
  Stays h = device q h ≡ d

  actions_keep :
      (s : Name)
      → Preserves Stays
          ((snippet_of s).create_actions env (cleared blank_action (snippet_of s).max_action_num))
  unfolding queue_actions snippet_re_route_to_kernel_create_actions cleared change allocate device
  actions_keep ipv4 h h' a c e = ground arith
  actions_keep gre h h' a c e = ground arith
  actions_keep mpls h h' a c e = ground arith
  actions_keep re_route_to_kernel h h' a c e = ground arith

  patterns_keep :
      (s : Name)
      → Preserves Stays
          ((snippet_of s).create_patterns env (cleared blank_item (snippet_of s).max_pattern_num))
  unfolding snippet_ipv4_flow_create_patterns snippet_match_gre_create_patterns
      snippet_mpls_create_patterns snippet_re_route_to_kernel_create_patterns cleared change
      allocate device
  patterns_keep ipv4 h h' a c e = ground arith
  patterns_keep gre h h' a c e = ground arith
  patterns_keep mpls h h' a c e = ground arith
  patterns_keep re_route_to_kernel h h' a c e = ground arith

  table_keeps : (s : Name) → Preserves Stays ((snippet_of s).create_table env p)
  unfolding snippet_ipv4_flow_create_table snippet_gre_flow_create_table snippet_mpls_create_table
      snippet_re_route_to_kernel_create_table make_table device
  table_keeps ipv4 h h' a c e = ground arith
  table_keeps gre h h' a c e = ground arith
  table_keeps mpls h h' a c e = ground arith
  table_keeps re_route_to_kernel h h' a c e = ground arith

  made_keeps :
      (t : Option ℕ) (items : List Item) (actions : List Action)
      → Preserves Stays (if_made t λ x. call env (flow p (async_create 1 x items actions)))
  unfolding device
  made_keeps none items actions h h' a c e = ground arith
  made_keeps (some x) items actions h h' a c e = ground arith

  non_template_keeps :
      (attr : Attr) (items : List Item) (actions : List Action)
      → Preserves Stays (create_flow_non_template env p attr items actions)
  unfolding create_flow_non_template device
  non_template_keeps attr items actions h h' a c e = ground arith

  -- Creating a rule leaves every port's state alone.
  pub generate_flow_skeleton-keeps :
      (s : Name) (attr : Attr) (use_template_api : Bool)
      → Preserves Stays (generate_flow_skeleton env p (snippet_of s) attr use_template_api)
  unfolding generate_flow_skeleton create_flow_template
  generate_flow_skeleton-keeps s attr use_template_api =
      bind-Preserves Stays _ _ (actions_keep s) λ actions.
        bind-Preserves Stays _ _ (patterns_keep s) λ patterns.
          if-Preserves Stays use_template_api
            (create_flow_template env p (snippet_of s) patterns actions)
            (create_flow_non_template env p attr patterns actions)
            (bind-Preserves Stays ((snippet_of s).create_table env p) _ (table_keeps s)
              λ t. made_keeps t patterns actions)
            (non_template_keeps attr patterns actions)
