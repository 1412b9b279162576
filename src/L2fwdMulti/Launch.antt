-- ===== src/L2fwdMulti/Launch.antt =====
-- Dpdk-lab/multi_thread/l2fwd-multi-thread/main.c, main: the rings, and which lcore is launched for
-- what. rte_get_next_lcore and RTE_MAX_LCORE are parameters; `n_rx_port` is the length of an lcore's
-- list. The wait for the lcores and the close of the ports are the text of the single-threaded
-- program (shutdown of L2fwd/Start).
pub mod Visits
pub mod Counts
pub mod Roles
use Prim.Native.Nat.{zero, suc}
use pwd_writeup.Base.{
  ℕ, ◌+◌, ℤ, List, [], ◌∷◌, Bool, true, false, not, ◌&&◌, ◌||◌, ◌==◌, ltb, if◌then◌else◌, length,
  range,
}
use pwd_writeup.Dpdk.{Env, Task, crypto, forwarding, system, ring_create, remote_launch}
use pwd_writeup.Dpdk.Monad.{M, ◌>>=◌, ◌>>◌, call, pure, when, each, rte_exit}
use pwd_writeup.L2fwd.Args.{Numbers}
use pwd_writeup.L2fwd.Start.{Machine, shutdown}
use pwd_writeup.L2fwdMulti.Worker.{rx_to_crypto, crypto_to_tx}

-- MAX_CRYPTO_WORKERS
abbrev pub max_crypto_workers : ℕ
max_crypto_workers = 8

-- The values of `l` in `for (l = …; l != RTE_MAX_LCORE; l = rte_get_next_lcore(l, 1, 0))`, from one
-- value on. `max_lcore` turns are enough.
unfoldable pub visits : (ℕ → ℕ) → ℕ → ℕ → ℕ → List ℕ
visits next_lcore max_lcore zero l = []
visits next_lcore max_lcore (suc fuel) l =
    let rest = visits next_lcore max_lcore fuel (next_lcore l) in
    if l == max_lcore then [] else l ∷ rest

-- The lcores that poll no port: `crypto_lcores` up to `nb_crypto_lcores`.
unfoldable pub choose_crypto : (ℕ → List ℕ) → List ℕ → List ℕ
choose_crypto rx_port_list [] = []
choose_crypto rx_port_list (l ∷ ls) =
    let rest = choose_crypto rx_port_list ls in
    if length (rx_port_list l) == 0 then l ∷ rest else rest

-- The search for an lcore in `crypto_lcores`.
unfoldable pub is_crypto : List ℕ → ℕ → Bool
is_crypto [] l = false
is_crypto (c ∷ cs) l = (l == c) || is_crypto cs l

module _ (env : Env) where
  unfoldable pub create_ring_pair : ℕ → M (Unit {0})
  create_ring_pair i = do
    made ← call env (system (ring_create (rx_to_crypto i)))
    when (not made) rte_exit
    made ← call env (system (ring_create (crypto_to_tx i)))
    when (not made) rte_exit

  unfoldable pub create_rings : M (Unit {0})
  unfolding create_ring_pair
  create_rings = each (range max_crypto_workers) create_ring_pair

  -- The launch of the workers, from worker `i` on. A launch that fails is only printed.
  unfoldable pub launch_crypto : ℕ → List ℕ → M (Unit {0})
  launch_crypto i [] = pure tt
  launch_crypto i (l ∷ ls) = do
    r ← call env (system (remote_launch (crypto i) l))
    launch_crypto (suc i) ls

  -- The launch of the others that poll ports.
  unfoldable pub launch_forwarding : (ℕ → List ℕ) → List ℕ → ℕ → M (Unit {0})
  unfolding is_crypto
  launch_forwarding rx_port_list crypto_lcores l =
      when (not (is_crypto crypto_lcores l) && not (length (rx_port_list l) == 0))
        do r ← call env (system (remote_launch forwarding l)); pure tt

  -- From the rings to the launch of the last lcore; the answer is `crypto_lcores`.
  unfoldable pub launch_lcores : (ℕ → List ℕ) → List ℕ → M (List ℕ)
  unfolding create_rings launch_crypto launch_forwarding choose_crypto
  launch_lcores rx_port_list visited = do
    create_rings
    let crypto_lcores = choose_crypto rx_port_list visited
    launch_crypto 0 crypto_lcores
    each visited (launch_forwarding rx_port_list crypto_lcores)
    pure crypto_lcores

  -- The main lcore forwards too, in `main_loop`, where it polls ports; then main waits for the others
  -- and closes the ports of `mask`.
  unfoldable pub run_lcores : Numbers → Machine → (ℕ → List ℕ) → List ℕ → ℕ → M (Unit {0}) → ℕ → M ℤ
  unfolding launch_lcores is_crypto
  run_lcores lib machine rx_port_list visited main_core main_loop mask = do
    crypto_lcores ← launch_lcores rx_port_list visited
    when (not (is_crypto crypto_lcores main_core) && ltb 0 (length (rx_port_list main_core)))
        main_loop
    shutdown env lib machine mask
