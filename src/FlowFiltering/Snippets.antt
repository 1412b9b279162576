-- ===== src/FlowFiltering/Snippets.antt =====
-- Dpdk-lab/flow_filtering/snippets: the rules. A build takes one snippet, whose functions and sizes
-- flow_skeleton.c and main.c know by macros: the record `Snippet`. A write out of bounds, and one
-- through the NULL of a failed calloc, after which the source goes on, end the run.
pub mod Rules
use pwd_writeup.Base.{
  ℕ, ◌+◌, ◌*◌, ◌^◌, List, [], ◌∷◌, Bool, true, false, not, Option, none, some, get_elem?, set,
}
use pwd_writeup.Flow.{
  ItemType, item_end, item_eth, item_ipv4, item_udp, item_gre, item_gre_option, item_mpls, Match,
  match_ipv4, match_gre, match_gre_opt, match_mpls, Item, ActionType, action_end, action_queue,
  action_send_to_kernel, Action, Attr, pattern_template_create, actions_template_create,
  template_table_create, blank_item, blank_action,
}
use pwd_writeup.Dpdk.{Env, system, calloc, flow}
use pwd_writeup.Dpdk.Monad.{M, ◌>>=◌, ◌>>◌, call, pure, when, rte_exit}

-- The globals that snippet_init sets: `enable_promiscuous_mode`, `enable_flow_isolation`, `flow_attr`.
pub record Modes : Type 0 where
  pub promiscuous : Bool
  pub isolation : Bool
  pub attr : Attr

-- `array[i]` is changed by `f`.
unfoldable pub change : {A : Type 0} → ℕ → (A → A) → List A → M (List A)
change {A = A} i f xs = store (get_elem? xs i)
  where
    store : Option A → M (List A)
    store none = rte_exit
    store (some x) = pure (set xs i (f x))

abbrev pub item_type : ItemType → Item → Item
item_type t i = record i { type = t }

abbrev pub action_type : ActionType → Action → Action
action_type t a = record a { type = t }

abbrev pub of_type : ItemType → Item
of_type t = record { type = t; spec = none; mask = none }

-- What a build takes from a snippet: its init, MAX_PATTERN_NUM and MAX_ACTION_NUM, and its functions.
pub record Snippet : Type 0 where
  pub init : Modes → Modes
  pub max_pattern_num : ℕ
  pub max_action_num : ℕ
  pub create_actions : Env → List Action → M (List Action)
  pub create_patterns : Env → List Item → M (List Item)
  pub create_table : Env → ℕ → M (Option ℕ)

unfoldable pub init_default_snippet : Modes → Modes
init_default_snippet m = record {
  promiscuous = true;
  isolation = false;
  attr = record m.attr { ingress = 1 };
}

-- `calloc`, and the write through its result.
unfoldable pub allocate : Env → M (Unit {0})
allocate env = do made ← call env (system calloc); when (not made) rte_exit

-- The same action list in three snippets: to queue `index`.
unfoldable pub queue_actions : ℕ → Env → List Action → M (List Action)
unfolding allocate change
queue_actions index env action = do
  allocate env
  action ← change 0 (action_type action_queue) action
  action ← change 0 (λ a. record a { conf = some index }) action
  change 1 (action_type action_end) action

-- NULL is passed on.
abbrev pub if_made : Option ℕ → (ℕ → M (Option ℕ)) → M (Option ℕ)
if_made none k = pure none
if_made (some x) k = k x

-- From the templates to the table: the three tables differ in what they are made of.
unfoldable pub make_table :
    Env → ℕ → Bool → List Item → List Action → List Action → Attr → ℕ → M (Option ℕ)
make_table env port_id relaxed titems tactions masks attr nb_flows = do
  pt ← call env (flow port_id (pattern_template_create relaxed titems))
  let with_pattern : ℕ → M (Option ℕ) = λ p. do
    at ← call env (flow port_id (actions_template_create tactions masks))
    let with_actions : ℕ → M (Option ℕ) =
        λ a. call env (flow port_id (template_table_create attr nb_flows p a))
    if_made at with_actions
  if_made pt with_pattern

-- snippet_match_ipv4.c: frames for 192.168.1.1 go to queue 1. Addresses are in host order.
abbrev full_mask : ℕ
full_mask = 0xffffffff

unfoldable pub snippet_ipv4_flow_create_patterns : Env → List Item → M (List Item)
unfolding allocate change
snippet_ipv4_flow_create_patterns env patterns = do
  patterns ← change 0 (item_type item_eth) patterns
  patterns ← change 1 (item_type item_ipv4) patterns
  allocate env
  allocate env
  let ip_spec = match_ipv4 0 (192 * 2 ^ 24 + 168 * 2 ^ 16 + 1 * 2 ^ 8 + 1)
  let ip_mask = match_ipv4 0 full_mask
  patterns ← change 1 (λ i. record i { spec = some ip_spec; mask = some ip_mask }) patterns
  change 2 (item_type item_end) patterns

unfoldable pub snippet_ipv4_flow_create_table : Env → ℕ → M (Option ℕ)
unfolding make_table
snippet_ipv4_flow_create_table env port_id =
    let tactions = record { type = action_queue; conf = none } ∷ blank_action ∷ [] in
    make_table env port_id true
      (of_type item_eth
        ∷ record { type = item_ipv4; spec = none; mask = some (match_ipv4 0 full_mask) }
        ∷ blank_item
        ∷ [])
      tactions tactions (record { group = 0; ingress = 1 }) 1

abbrev pub snippet_match_ipv4 : Snippet
snippet_match_ipv4 = record {
  init = init_default_snippet;
  max_pattern_num = 3;
  max_action_num = 2;
  create_actions = queue_actions 1;
  create_patterns = snippet_ipv4_flow_create_patterns;
  create_table = snippet_ipv4_flow_create_table;
}

-- snippet_match_gre.c: GRE frames with a checksum option go to queue 1; it has no templates.
unfoldable pub snippet_match_gre_create_patterns : Env → List Item → M (List Item)
unfolding allocate change
snippet_match_gre_create_patterns env pattern = do
  allocate env
  allocate env
  let gre_opt_spec = match_gre_opt 0x11
  pattern ← change 0 (item_type item_eth) pattern
  pattern ← change 1 (item_type item_ipv4) pattern
  pattern ← change 2 (item_type item_gre) pattern
  pattern ← change 2 (λ i. record i { spec = some (match_gre 0x8000) }) pattern
  pattern ← change 3 (item_type item_gre_option) pattern
  pattern ← change 3 (λ i. record i { spec = some gre_opt_spec; mask = some gre_opt_spec }) pattern
  change 4 (item_type item_end) pattern

unfoldable pub snippet_gre_flow_create_table : Env → ℕ → M (Option ℕ)
snippet_gre_flow_create_table env port_id = pure none

abbrev pub snippet_match_gre : Snippet
snippet_match_gre = record {
  init = init_default_snippet;
  max_pattern_num = 5;
  max_action_num = 2;
  create_actions = queue_actions 1;
  create_patterns = snippet_match_gre_create_patterns;
  create_table = snippet_gre_flow_create_table;
}

-- snippet_match_mpls.c: frames with three MPLS labels go to queue UINT16_MAX.
unfoldable pub snippet_mpls_create_patterns : Env → List Item → M (List Item)
unfolding allocate change
snippet_mpls_create_patterns env pattern = do
  allocate env
  let mpls_item = match_mpls (0xab ∷ 0xcd ∷ 0xe1 ∷ [])
  pattern ← change 0 (item_type item_eth) pattern
  pattern ← change 1 (item_type item_ipv4) pattern
  pattern ← change 2 (item_type item_udp) pattern
  pattern ← change 3 (item_type item_mpls) pattern
  pattern ← change 4 (item_type item_mpls) pattern
  pattern ← change 5 (item_type item_mpls) pattern
  change 5 (λ i. record i { spec = some mpls_item }) pattern

unfoldable pub snippet_mpls_create_table : Env → ℕ → M (Option ℕ)
unfolding make_table
snippet_mpls_create_table env port_id =
    make_table env port_id false
      (of_type item_eth
        ∷ of_type item_ipv4
        ∷ of_type item_udp
        ∷ of_type item_mpls
        ∷ of_type item_mpls
        ∷ record {
          type = item_mpls;
          spec = none;
          mask = some (match_mpls (0xff ∷ 0xff ∷ 0xf1 ∷ []));
        }
        ∷ blank_item
        ∷ [])
      (record { type = action_queue; conf = some 0 } ∷ blank_action ∷ [])
      (record { type = action_queue; conf = some 0xffff } ∷ blank_action ∷ [])
      (record { group = 1; ingress = 1 }) 1000

abbrev pub snippet_match_mpls : Snippet
snippet_match_mpls = record {
  init = init_default_snippet;
  max_pattern_num = 6;
  max_action_num = 2;
  create_actions = queue_actions 0xffff;
  create_patterns = snippet_mpls_create_patterns;
  create_table = snippet_mpls_create_table;
}

-- snippet_re_route_to_kernel.c: all frames go to the kernel, from a port in isolated mode.
unfoldable pub snippet_init_re_route_to_kernel : Modes → Modes
snippet_init_re_route_to_kernel m = record {
  promiscuous = false;
  isolation = true;
  attr = record { group = 1; ingress = 1 };
}

unfoldable pub snippet_re_route_to_kernel_create_actions : Env → List Action → M (List Action)
unfolding change
snippet_re_route_to_kernel_create_actions env action = do
  action ← change 0 (action_type action_send_to_kernel) action
  change 1 (action_type action_end) action

unfoldable pub snippet_re_route_to_kernel_create_patterns : Env → List Item → M (List Item)
unfolding change
snippet_re_route_to_kernel_create_patterns env pattern = do
  pattern ← change 0 (item_type item_eth) pattern
  change 1 (item_type item_end) pattern

unfoldable pub snippet_re_route_to_kernel_create_table : Env → ℕ → M (Option ℕ)
unfolding make_table
snippet_re_route_to_kernel_create_table env port_id =
    let actions = record { type = action_send_to_kernel; conf = none } ∷ blank_action ∷ [] in
    make_table env port_id false (of_type item_eth ∷ blank_item ∷ []) actions actions
      (record { group = 1; ingress = 1 }) 10_000

abbrev pub snippet_re_route_to_kernel : Snippet
snippet_re_route_to_kernel = record {
  init = snippet_init_re_route_to_kernel;
  max_pattern_num = 2;
  max_action_num = 2;
  create_actions = snippet_re_route_to_kernel_create_actions;
  create_patterns = snippet_re_route_to_kernel_create_patterns;
  create_table = snippet_re_route_to_kernel_create_table;
}
