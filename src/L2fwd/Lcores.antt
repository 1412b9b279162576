-- ===== src/L2fwd/Lcores.antt =====
-- Dpdk-lab/multi_thread/l2fwd-single-thread/main.c: which lcore polls which port. RTE_MAX_LCORE and
-- rte_lcore_is_enabled are parameters.
pub mod Assigned
use Prim.Native.Nat.{zero, suc}
use pwd_writeup.Base.{
  ℕ, ◌+◌, List, [], ◌∷◌, ◌++◌, Bool, true, false, not, ◌||◌, ◌==◌, leb, if◌then◌else◌, Option, none,
  some, length,
}
use pwd_writeup.Base.Bits.{is_clear}

-- `rx_lcore_id`, the lcore of `qconf`, the receive ports of each lcore (`n_rx_port` is how many), and
-- `nb_lcores`.
pub record Assignment : Type 0 where
  pub rx_lcore_id : ℕ
  pub qconf : Option ℕ
  pub rx_port_list : ℕ → List ℕ
  pub nb_lcores : ℕ

abbrev pub unassigned : Assignment
unassigned = record { rx_lcore_id = 0; qconf = none; rx_port_list = λ i. []; nb_lcores = 0 }

module _ (max_lcore : ℕ) (is_enabled : ℕ → Bool) (rx_queue_per_lcore : ℕ) where
  -- The condition of the `while` loop.
  unfoldable pub passes_over : (ℕ → List ℕ) → ℕ → Bool
  passes_over lists id = not (is_enabled id) || (length (lists id) == rx_queue_per_lcore)

  -- The loop from lcore `id` on; `none` is rte_exit. `max_lcore` turns are enough.
  unfoldable pub seek : ℕ → (ℕ → List ℕ) → ℕ → Option ℕ
  unfolding passes_over
  seek zero lists id = none
  seek (suc fuel) lists id =
      let next = seek fuel lists (id + 1) in
      if passes_over lists id then (if leb max_lcore (id + 1) then none else next) else some id

  is_other : Option ℕ → ℕ → Bool
  is_other none id = true
  is_other (some q) id = not (q == id)

  -- The port is added to the list of lcore `id`.
  unfoldable pub bind : Assignment → ℕ → ℕ → Assignment
  unfolding is_other
  bind a id portid = record {
    rx_lcore_id = id;
    qconf = some id;
    rx_port_list = λ i. if i == id then a.rx_port_list i ++ (portid ∷ []) else a.rx_port_list i;
    nb_lcores = if is_other a.qconf id then a.nb_lcores + 1 else a.nb_lcores;
  }

  unfoldable pub bound : Option ℕ → (ℕ → Option Assignment) → Option Assignment
  bound (some id) next = next id
  bound none next = none

  -- The loop over the ports.
  unfoldable pub assign : ℕ → List ℕ → Assignment → Option Assignment
  unfolding bind bound
  assign mask [] a = some a
  assign mask (portid ∷ rest) a =
      if is_clear mask portid
      then assign mask rest a
      else bound (seek max_lcore a.rx_port_list a.rx_lcore_id)
          (λ id. assign mask rest (bind a id portid))
