-- ===== src/FlowFiltering/Skeleton.antt =====
-- Dpdk-lab/flow_filtering/flow_skeleton.c: the rule is filled in by the snippet and created.
pub mod Creation
use Prim.Native.Nat.{zero, suc}
use pwd_writeup.Base.{ℕ, List, [], ◌∷◌, Bool, true, false, if◌then◌else◌, Option, none, some}
use pwd_writeup.Flow.{
  Item, Action, Attr, blank_item, blank_action, flow_validate, flow_create, async_create,
}
use pwd_writeup.Dpdk.{Env, flow}
use pwd_writeup.Dpdk.Monad.{M, ◌>>=◌, ◌>>◌, call, pure}
use pwd_writeup.FlowFiltering.Snippets.{Snippet, if_made}

-- `{0}`
unfoldable pub cleared : {A : Type 0} → A → ℕ → List A
cleared a zero = []
cleared a (suc n) = a ∷ cleared a n

module _ (env : Env) (port_id : ℕ) where
  -- NULL, unless the rule is valid.
  unfoldable pub create_flow_non_template : Attr → List Item → List Action → M (Option ℕ)
  create_flow_non_template flow_attr patterns actions = do
    valid ← call env (flow port_id (flow_validate flow_attr patterns actions))
    if_made valid λ _. call env (flow port_id (flow_create flow_attr patterns actions))

  -- NULL without a table. The flow queue is 1.
  unfoldable pub create_flow_template : Snippet → List Item → List Action → M (Option ℕ)
  create_flow_template snippet patterns actions = do
    table ← snippet.create_table env port_id
    if_made table λ t. call env (flow port_id (async_create 1 t patterns actions))

  unfoldable pub generate_flow_skeleton : Snippet → Attr → Bool → M (Option ℕ)
  unfolding cleared create_flow_template create_flow_non_template
  generate_flow_skeleton snippet flow_attr use_template_api = do
    actions ← snippet.create_actions env (cleared blank_action snippet.max_action_num)
    patterns ← snippet.create_patterns env (cleared blank_item snippet.max_pattern_num)
    if use_template_api
        then create_flow_template snippet patterns actions
        else create_flow_non_template flow_attr patterns actions
