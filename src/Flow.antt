-- ===== src/Flow.antt =====
-- The part of rte_flow's interface that Dpdk-lab/flow_filtering uses: a rule is a pattern of items and a
-- list of actions, each up to an END, whose type is 0, so that a cleared array is full of ENDs.
use pwd_writeup.Base.{ℕ, List, [], ◌∷◌, Bool, Option, none, some}

pub data ItemType : Type 0 where
  item_end item_eth item_ipv4 item_udp item_gre item_gre_option item_mpls : ItemType

-- The structures behind `spec` and `mask`, with the fields that the programs set.
pub data Match : Type 0 where
  match_ipv4 : (src dst : ℕ) → Match
  match_gre : (c_rsvd0_ver : ℕ) → Match
  match_gre_opt : (checksum : ℕ) → Match
  match_mpls : (label_tc_s : List ℕ) → Match

pub record Item : Type 0 where
  pub type : ItemType
  pub spec : Option Match
  pub mask : Option Match

pub data ActionType : Type 0 where
  action_end action_queue action_send_to_kernel : ActionType

-- `conf` is the index of the queue.
pub record Action : Type 0 where
  pub type : ActionType
  pub conf : Option ℕ

-- `struct rte_flow_attr`
pub record Attr : Type 0 where
  pub group : ℕ
  pub ingress : ℕ

-- The calls on a port. The answer is the handle, or none for NULL; of flow_validate, whether it
-- returned 0; of rte_errno, whether it is ENOTSUP.
pub data FlowCall : Type 0 where
  flow_validate flow_create : Attr → List Item → List Action → FlowCall
  pattern_template_create : Bool → List Item → FlowCall
  actions_template_create : List Action → List Action → FlowCall
  template_table_create : Attr → ℕ → ℕ → ℕ → FlowCall
  async_create : ℕ → ℕ → List Item → List Action → FlowCall
  errno_is_enotsup : FlowCall

-- A cleared array.
abbrev pub blank_item : Item
blank_item = record { type = item_end; spec = none; mask = none }

abbrev pub blank_action : Action
blank_action = record { type = action_end; conf = none }

-- The types of a pattern up to its END, if it has one.
unfoldable pub pattern_types : List Item → Option (List ItemType)
pattern_types [] = none
pattern_types (i ∷ is) = until i.type (pattern_types is)
  where
    until : ItemType → Option (List ItemType) → Option (List ItemType)
    until item_end rest = some []
    until t none = none
    until t (some ts) = some (t ∷ ts)

unfoldable pub action_types : List Action → Option (List ActionType)
action_types [] = none
action_types (a ∷ rest) = until a.type (action_types rest)
  where
    until : ActionType → Option (List ActionType) → Option (List ActionType)
    until action_end rest = some []
    until t none = none
    until t (some ts) = some (t ∷ ts)
