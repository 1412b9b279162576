-- ===== src/FlowFiltering/Snippets/Rules.antt =====
-- Dpdk-lab/flow_filtering/snippets: the rules that the snippets fill in.
use pwd_writeup.Base.{List, [], ◌∷◌, ◌≡◌, refl, Bool, true, false, Option, none, some, arith}
use pwd_writeup.Flow.{
  Item, Action, ItemType, ActionType, item_eth, item_ipv4, item_gre, item_gre_option, action_queue,
  action_send_to_kernel, blank_item, blank_action, pattern_types, action_types,
}
use pwd_writeup.Dpdk.{Env, History, event, system, calloc}
use pwd_writeup.Dpdk.Monad.{M, next, back, quit, Outcome}
use pwd_writeup.FlowFiltering.Skeleton.{cleared}
use pwd_writeup.FlowFiltering.Snippets.{
  Snippet, snippet_match_ipv4, snippet_match_gre, snippet_match_mpls, snippet_re_route_to_kernel,
  change, allocate, queue_actions, snippet_ipv4_flow_create_patterns,
  snippet_match_gre_create_patterns, snippet_mpls_create_patterns,
  snippet_re_route_to_kernel_create_patterns, snippet_re_route_to_kernel_create_actions,
}

-- The snippets that a build can take.
pub data Name : Type 0 where
  ipv4 gre mpls re_route_to_kernel : Name

abbrev pub snippet_of : Name → Snippet
snippet_of ipv4 = snippet_match_ipv4
snippet_of gre = snippet_match_gre
snippet_of mpls = snippet_match_mpls
snippet_of re_route_to_kernel = snippet_re_route_to_kernel

-- The types that a rule is meant to have.
abbrev pub intended_pattern : Name → Option (List ItemType)
intended_pattern ipv4 = some (item_eth ∷ item_ipv4 ∷ [])
intended_pattern gre = some (item_eth ∷ item_ipv4 ∷ item_gre ∷ item_gre_option ∷ [])
intended_pattern mpls = none
intended_pattern re_route_to_kernel = some (item_eth ∷ [])

abbrev pub intended_actions : Name → Option (List ActionType)
intended_actions re_route_to_kernel = some (action_send_to_kernel ∷ [])
intended_actions s = some (action_queue ∷ [])

-- A run that goes on has filled the arrays in, and all writes were in bounds.
abbrev pub Fills :
    {A B : Type 0} → (List A → Option B) → Option B → (List A → M (List A)) → List A → Type 0
Fills {A} types wanted fill xs =
    (h h' : History) (ys : List A) → fill xs h ≡ next ys h' → types ys ≡ wanted

pub create_patterns-Fills :
    (s : Name) (env : Env)
    → Fills pattern_types
        (intended_pattern s)
        ((snippet_of s).create_patterns env)
        (cleared blank_item (snippet_of s).max_pattern_num)
unfolding snippet_ipv4_flow_create_patterns snippet_match_gre_create_patterns
    snippet_mpls_create_patterns snippet_re_route_to_kernel_create_patterns pattern_types cleared
    change allocate
create_patterns-Fills ipv4 env h h' ys e = ground arith
create_patterns-Fills gre env h h' ys e = ground arith
create_patterns-Fills mpls env h h' ys e = ground arith
create_patterns-Fills re_route_to_kernel env h h' ys e = ground arith

pub create_actions-Fills :
    (s : Name) (env : Env)
    → Fills action_types
        (intended_actions s)
        ((snippet_of s).create_actions env)
        (cleared blank_action (snippet_of s).max_action_num)
unfolding queue_actions snippet_re_route_to_kernel_create_actions action_types cleared change
    allocate
create_actions-Fills ipv4 env h h' ys e = ground arith
create_actions-Fills gre env h h' ys e = ground arith
create_actions-Fills mpls env h h' ys e = ground arith
create_actions-Fills re_route_to_kernel env h h' ys e = ground arith

goes_on : {A : Type 0} → Outcome A → Bool
goes_on (next a h) = true
goes_on (back r h) = false
goes_on (quit h) = false

goes_on_lem :
    {A : Type 0} (o : Outcome A) → goes_on o ≡ true → (a : A) × (h' : History) × (o ≡ next a h')
unfolding goes_on
goes_on_lem (next a h) e = (a, h, refl)
goes_on_lem (back r h) e = cc
goes_on_lem (quit h) e = cc

-- With memory every write is in bounds: the run goes on.
abbrev Goes : {A : Type 0} → (Env → List A → M (List A)) → List A → Type 0
Goes {A} fill xs =
    (env : Env) (h : History)
    → ((k : History) → env.answer k (system calloc) ≡ true)
    → (ys : List A) × (h' : History) × (fill env xs h ≡ next ys h')

create_patterns-Goes :
    (s : Name)
    → Goes (snippet_of s).create_patterns (cleared blank_item (snippet_of s).max_pattern_num)
unfolding snippet_ipv4_flow_create_patterns snippet_match_gre_create_patterns
    snippet_mpls_create_patterns snippet_re_route_to_kernel_create_patterns cleared change allocate
    goes_on
create_patterns-Goes ipv4 env h m =
    goes_on_lem
      ((snippet_of ipv4).create_patterns env (cleared blank_item (snippet_of ipv4).max_pattern_num)
        h)
      (rw (m h) (rw (m (event (system calloc) true ∷ h)) refl))
create_patterns-Goes gre env h m =
    goes_on_lem
      ((snippet_of gre).create_patterns env (cleared blank_item (snippet_of gre).max_pattern_num) h)
      (rw (m h) (rw (m (event (system calloc) true ∷ h)) refl))
create_patterns-Goes mpls env h m =
    goes_on_lem
      ((snippet_of mpls).create_patterns env (cleared blank_item (snippet_of mpls).max_pattern_num)
        h)
      (rw (m h) refl)
create_patterns-Goes re_route_to_kernel env h m =
    goes_on_lem
      ((snippet_of re_route_to_kernel).create_patterns env
        (cleared blank_item (snippet_of re_route_to_kernel).max_pattern_num) h)
      (refl)

create_actions-Goes :
    (s : Name)
    → Goes (snippet_of s).create_actions (cleared blank_action (snippet_of s).max_action_num)
unfolding queue_actions snippet_re_route_to_kernel_create_actions cleared change allocate goes_on
create_actions-Goes ipv4 env h m =
    goes_on_lem
      ((snippet_of ipv4).create_actions env (cleared blank_action (snippet_of ipv4).max_action_num)
        h)
      (rw (m h) refl)
create_actions-Goes gre env h m =
    goes_on_lem
      ((snippet_of gre).create_actions env (cleared blank_action (snippet_of gre).max_action_num) h)
      (rw (m h) refl)
create_actions-Goes mpls env h m =
    goes_on_lem
      ((snippet_of mpls).create_actions env (cleared blank_action (snippet_of mpls).max_action_num)
        h)
      (rw (m h) refl)
create_actions-Goes re_route_to_kernel env h m =
    goes_on_lem
      ((snippet_of re_route_to_kernel).create_actions env
        (cleared blank_action (snippet_of re_route_to_kernel).max_action_num) h)
      (refl)

-- If calloc never fails, every snippet fills the cleared arrays of its sizes without a write out of
-- bounds. The actions are the intended one and an END. The pattern has the intended types and an END,
-- but for the MPLS snippet, whose pattern has no END.
pub snippet_rules :
    (s : Name) (env : Env) (h : History)
    → ((k : History) → env.answer k (system calloc) ≡ true)
    → ((ys : List Item) × (h' : History) × ((snippet_of s).create_patterns env
            (cleared blank_item (snippet_of s).max_pattern_num)
            h
          ≡ next ys h')
        × (pattern_types ys ≡ intended_pattern s))
      × ((zs : List Action) × (h' : History) × ((snippet_of s).create_actions env
              (cleared blank_action (snippet_of s).max_action_num)
              h
            ≡ next zs h')
          × (action_types zs ≡ intended_actions s))
snippet_rules s env h m =
    let (ys, h₁, run₁) = create_patterns-Goes s env h m in
    let (zs, h₂, run₂) = create_actions-Goes s env h m in
    (
      (ys, h₁, run₁, create_patterns-Fills s env h h₁ ys run₁),
      (zs, h₂, run₂, create_actions-Fills s env h h₂ zs run₂),
    )
