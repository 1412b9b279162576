-- ===== src/Dpdk/Log.antt =====
-- The calls of several threads in one order, for the programs whose lcores or processes work on shared
-- rings.
use pwd_writeup.Base.{ℕ, List, [], ◌∷◌, ◌++◌, ◌≡◌, refl, false, ◌⊎◌, ◌==◌, if◌then◌else◌}
use pwd_writeup.Dpdk.{Event, History}

abbrev pub Among : {A : Type 0} → A → List A → Type 0
Among x [] = ⊥
Among x (y ∷ ys) = (x ≡ y) ⊎ Among x ys

-- The calls of all threads, newest first.
abbrev pub Log : Type 0
Log = List (ℕ × Event)

unfoldable pub calls_of : ℕ → Log → History
calls_of i [] = []
calls_of i ((j, e) ∷ l) = let rest = calls_of i l in if i == j then e ∷ rest else rest

-- The calls of one thread.
abbrev pub by : ℕ → History → Log
by i [] = []
by i (e ∷ h) = (i, e) ∷ by i h

pub not_by :
    (i j : ℕ) (h : History) (l : Log) → (i == j) ≡ false → calls_of i (by j h ++ l) ≡ calls_of i l
unfolding calls_of
not_by i j [] l other = refl
not_by i j (e ∷ h) l other = rw other (not_by i j h l other)

pub not_by_end : (i j : ℕ) (h : History) → (i == j) ≡ false → calls_of i (by j h) ≡ []
unfolding calls_of
not_by_end i j [] other = refl
not_by_end i j (e ∷ h) other = rw other (not_by_end i j h other)
