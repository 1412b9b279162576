-- ===== src/L2fwd/Start/Closing.antt =====
-- Dpdk-lab/multi_thread/l2fwd-single-thread/main.c, main: the loop that closes the ports.
use pwd_writeup.Base.{
  ℕ, ◌+◌, ℤ, pos, List, [], ◌∷◌, ◌≡◌, ◌≢◌, refl, sym, subst, ap, ◌∙◌, Bool, true, false, ◌==◌,
  if◌then◌else◌, All, All_zip, Distinct, arith,
}
use pwd_writeup.Base.Bits.{is_clear}
use pwd_writeup.Dpdk.{Env, event, History, dev_stop, dev_close}
use pwd_writeup.Dpdk.Monad.{final, next, call, Preserves, ◌>>=◌, if-Preserves}
use pwd_writeup.Dpdk.Device.{Device, device, running, shut}
use pwd_writeup.L2fwd.Args.{Numbers}
use pwd_writeup.L2fwd.Ports.{enabled_ports}
use pwd_writeup.L2fwd.Start.{Machine, close_ports}

-- How often port `p` was closed.
unfoldable pub closes : ℕ → History → ℕ
closes p [] = 0
closes p (event (dev_close i) ret ∷ h) = (if p == i then 1 else 0) + closes p h
closes p (event c a ∷ h) = closes p h

-- What the last stop of port `p` answered.
unfoldable pub last_stop : ℕ → History → ℤ
last_stop p [] = pos 0
last_stop p (event (dev_stop i) ret ∷ h) = let rest = last_stop p h in if p == i then ret else rest
last_stop p (event c a ∷ h) = last_stop p h

-- What the stop of the last of the ports answered, and `ret` without ports.
abbrev pub last_answer : List ℕ → ℤ → History → ℤ
last_answer [] ret h = ret
last_answer (p ∷ ps) ret h = last_answer ps (last_stop p h) h

abbrev pub times : ℕ → List ℕ → ℕ
times p [] = 0
times p (q ∷ qs) = (if p == q then 1 else 0) + times p qs

-- It went down, and was closed once in all, after a stop; a stop that failed leaves it closed while it runs.
abbrev pub IsDown : Bool → History → ℕ → Type 0
IsDown on h p = device p h ≡ shut 1 1 on (last_stop p h)

-- What `close_ports_lem` says of a loop over these ports.
abbrev pub Closed : Bool → List ℕ → ℤ → History → ℤ → History → Type 0
Closed on enabled ret h r h' =
    All (IsDown on h') enabled
    × ((q : ℕ) → closes q h' ≡ closes q h + times q enabled)
    × (r ≡ last_answer enabled ret h')

All-enabled : (P : ℕ → Type 0) (mask : ℕ) (ps : List ℕ) → All P ps → All P (enabled_ports mask ps)
unfolding enabled_ports
All-enabled P mask [] a = tt
All-enabled P mask (p ∷ ps) a = either (is_clear mask p) (All-enabled P mask ps a.1)
  where
    either :
        (b : Bool)
        → All P (enabled_ports mask ps)
        → All P (if b then enabled_ports mask ps else p ∷ enabled_ports mask ps)
    either true e = e
    either false e = (a.0, e)

module _ (env : Env) (lib : Numbers) (machine : Machine) where
  -- A port after its stop and close, and any other port.
  stopped :
      (on : Bool) (p : ℕ) (x y : ℤ) (h : History)
      → device p h ≡ running 1 1 on
      → IsDown on (event (dev_close p) y ∷ event (dev_stop p) x ∷ h) p
  unfolding device last_stop
  stopped on p x y h c = ground (arith, c)

  answered :
      (p : ℕ) (x y : ℤ) (h : History)
      → last_stop p (event (dev_close p) y ∷ event (dev_stop p) x ∷ h) ≡ x
  unfolding last_stop
  answered p x y h = ground arith

  counted :
      (q p : ℕ) (x y : ℤ) (h : History) (n : ℕ)
      → closes q (event (dev_close p) y ∷ event (dev_stop p) x ∷ h) + n
        ≡ closes q h + ((if q == p then 1 else 0) + n)
  unfolding closes
  counted q p x y h n = omega arith

  apart :
      (q p : ℕ) (x y : ℤ) (h : History)
      → q ≢ p
      → let h₂ = event (dev_close p) y ∷ event (dev_stop p) x ∷ h in
        (device q h₂ ≡ device q h) × (last_stop q h₂ ≡ last_stop q h)
  unfolding device last_stop
  apart q p x y h n = ground (arith, n)

  -- What the loop does with the other ports.
  elsewhere :
      (mask q : ℕ) (ps : List ℕ) (ret : ℤ) (d : Device) (s : ℤ)
      → All (λ p. q ≢ p) ps
      → Preserves
          (λ h. (device q h ≡ d) × (last_stop q h ≡ s))
          (close_ports env lib machine mask ps ret)
  unfolding close_ports
  elsewhere mask q [] ret d s a =
      λ h h' r c e. subst (λ h. (device q h ≡ d) × (last_stop q h ≡ s)) (ap final e) c
  elsewhere mask q (p ∷ ps) ret d s a =
      if-Preserves (λ h. (device q h ≡ d) × (last_stop q h ≡ s)) (is_clear mask p)
        (close_ports env lib machine mask ps ret) _ (elsewhere mask q ps ret d s a.1)
        (λ h h' r c e.
          let (same, same_stop) = apart q p (env.answer h (dev_stop p)) _ h a.0 in
          elsewhere mask q ps (env.answer h (dev_stop p)) d s a.1 _ h' r
            (same ∙ c.0, same_stop ∙ c.1) e)

  abbrev Later : Bool → ℕ → List ℕ → ℤ → History → Type 0
  Later on mask ps r h' =
      (ret : ℤ) (h : History)
      → All (λ p. device p h ≡ running 1 1 on) (enabled_ports mask ps)
      → close_ports env lib machine mask ps ret h ≡ next r h'
      → Closed on (enabled_ports mask ps) ret h r h'

  pub close_ports_lem :
      (on : Bool) (mask : ℕ) (ps : List ℕ) (ret r : ℤ) (h h' : History)
      → Distinct ps
      → All (λ p. device p h ≡ running 1 1 on) (enabled_ports mask ps)
      → close_ports env lib machine mask ps ret h ≡ next r h'
      → Closed on (enabled_ports mask ps) ret h r h'
  unfolding close_ports enabled_ports
  close_ports_lem on mask [] ret r h h' d up e =
      (tt, (λ q. rw (sym (ap final e)) (omega arith)), sym (value r e))
    where
      value : (r : ℤ) → next ret h ≡ next r h' → ret ≡ r
      value r e = ground (arith, e)
  close_ports_lem on mask (p ∷ ps) ret r h h' d up e =
      either (λ ret' h₁ up₁ e₁. close_ports_lem on mask ps ret' r h₁ h' d.1 up₁ e₁)
        (is_clear mask p) up e
    where
      x : ℤ
      x = env.answer h (dev_stop p)

      h₁ : History
      h₁ = event (dev_stop p) x ∷ h

      y : ℤ
      y = env.answer h₁ (dev_close p)

      h₂ : History
      h₂ = event (dev_close p) y ∷ h₁

      one :
          Later on mask ps r h'
          → All (λ p. device p h ≡ running 1 1 on) (p ∷ enabled_ports mask ps)
          → close_ports env lib machine mask ps x h₂ ≡ next r h'
          → Closed on (p ∷ enabled_ports mask ps) ret h r h'
      one later (up_p, up) e =
          let others =
            All_zip (λ q. p ≢ q) (λ q. device q h ≡ running 1 1 on)
              (λ q. device q h₂ ≡ running 1 1 on) (enabled_ports mask ps)
              (λ q n was. (apart q p x y h (λ e. n (sym e))).0 ∙ was)
              (All-enabled (λ q. p ≢ q) mask ps d.0) up in
          let (down, counts, code) = later x h₂ others e in
          let (still, same) =
            elsewhere mask p ps x _ _ d.0 h₂ h' r (stopped on p x y h up_p, refl) e in
          (
            (rw same still, down),
            (λ q. counts q ∙ counted q p x y h (times q (enabled_ports mask ps))),
            code
                ∙ ap (λ z. last_answer (enabled_ports mask ps) z h')
                    (sym (same ∙ answered p x y h)),
          )

      either :
          Later on mask ps r h'
          → (b : Bool)
          → All
              (λ p. device p h ≡ running 1 1 on)
              (if b then enabled_ports mask ps else p ∷ enabled_ports mask ps)
          → (if b
                then close_ports env lib machine mask ps ret
                else (call env (dev_stop p) >>= λ ret'.
                    call env (dev_close p) >>= λ closing. close_ports env lib machine mask ps ret'))
              h
            ≡ next r h'
          → Closed on (if b then enabled_ports mask ps else p ∷ enabled_ports mask ps) ret h r h'
      either later true up e = later ret h up e
      either later false up e = one later up e
