-- ===== src/Prelude/Options.antt =====
-- Chains of optional results. The name of the bind is also that of the error results, so a module
-- takes it from here.
use mathlib.Core.Option.{Option, none, some}

infixl 1 ◌>>=◌
abbrev pub ◌>>=◌ {ℓ κ} : {A : Type ℓ} {B : Type κ} → Option A → (A → Option B) → Option B
none >>= k = none
some a >>= k = k a
