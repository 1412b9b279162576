-- ===== src/L2fwdMulti/Sender/Grouping.antt =====
-- Dpdk-lab/multi_thread/l2fwd-multi-thread/main.c: the rows that the frames are put in.
use pwd_writeup.Base.{
  ℕ, ◌+◌, ◌≤◌, ◌<◌, List, [], ◌∷◌, ◌++◌, ◌≡◌, refl, sym, ap, ◌∙◌, false, ◌==◌, if◌then◌else◌,
  Bool-cases, inl, inr, length, length-append, arith,
}
use mathlib.Core.List.{append_assoc, append-nil}
use pwd_writeup.Dpdk.{Mbuf, Env, History, event, pktmbuf_free}
use pwd_writeup.Dpdk.Monad.{next}
use pwd_writeup.L2fwdMulti.Sender.{Groups, no_frames, fits, append_to, group}

-- The frames for one port, in their order.
unfoldable pub frames_for : ℕ → List Mbuf → List Mbuf
frames_for dst [] = []
frames_for dst (m ∷ ms) = let rest = frames_for dst ms in if dst == m.port then m ∷ rest else rest

module _ (env : Env) where
  -- Rows with room for all frames.
  abbrev HasRoom : Groups → List Mbuf → Type 0
  HasRoom g ms = (dst : ℕ) → length (g dst) + length ms ≤ 32

  append_to-HasRoom :
      (g : Groups) (m : Mbuf) (ms : List Mbuf) → HasRoom g (m ∷ ms) → HasRoom (append_to g m) ms
  unfolding append_to
  append_to-HasRoom g m ms room dst = elim (Bool-cases (dst == m.port)) [
    | inl same ↦ rw same (omega (arith, room dst, length-append (g dst) (m ∷ [])))
    | inr other ↦ rw other (omega (arith, room dst))
  ]

  -- The row after a frame was put in it.
  append_to-frames_for :
      (g : Groups) (m : Mbuf) (ms : List Mbuf) (dst : ℕ)
      → append_to g m dst ++ frames_for dst ms ≡ g dst ++ frames_for dst (m ∷ ms)
  unfolding append_to frames_for
  append_to-frames_for g m ms dst = elim (Bool-cases (dst == m.port)) [
    | inl same ↦ rw same (append_assoc (g dst) (m ∷ []) (frames_for dst ms))
    | inr other ↦ rw other refl
  ]

  -- A frame for which there is no row is for no port in range.
  stray-frames_for :
      (g : Groups) (m : Mbuf) (ms : List Mbuf) (dst : ℕ)
      → HasRoom g (m ∷ ms)
      → dst < 32
      → fits g m ≡ false
      → frames_for dst (m ∷ ms) ≡ frames_for dst ms
  unfolding fits frames_for
  stray-frames_for g m ms dst room small out = ground (arith, room m.port)

  group_lem :
      (ms : List Mbuf) (g : Groups) (h : History) (dst : ℕ)
      → HasRoom g ms
      → dst < 32
      → (g' : Groups) × (h' : History) × (group env ms g h ≡ next g' h')
        × (g' dst ≡ g dst ++ frames_for dst ms)
  unfolding group frames_for
  group_lem [] g h dst room small = (g, h, refl, sym (append-nil (g dst)))
  group_lem (m ∷ ms) g h dst room small = elim (Bool-cases (fits g m)) [
    | inl put ↦
        let (g', h', run, row) =
          group_lem ms (append_to g m) h dst (append_to-HasRoom g m ms room) small in
        (g', h', rw put run, row ∙ append_to-frames_for g m ms dst)
    | inr out ↦
        let (g', h', run, row) =
          group_lem ms g (event (pktmbuf_free m) tt ∷ h) dst (λ i. omega (arith, room i)) small in
        (
          g',
          h',
          rw out run,
          row ∙ ap (λ r. g dst ++ r) (sym (stray-frames_for g m ms dst room small out)),
        )
  ]

  -- Of a burst of at most 32 frames, row `dst` gets exactly the frames for port `dst`, in the order in
  -- which they came. The test of `port_counts` never turns one away.
  pub group-frames_for :
      (ms : List Mbuf) (h : History) (dst : ℕ)
      → length ms ≤ 32
      → dst < 32
      → (g' : Groups) × (h' : History) × (group env ms no_frames h ≡ next g' h')
        × (g' dst ≡ frames_for dst ms)
  group-frames_for ms h dst few small = group_lem ms no_frames h dst (λ i. omega arith) small
