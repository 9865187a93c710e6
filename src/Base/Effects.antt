-- ===== src/Base/Effects.antt =====
-- Functions that read and change a state and may fail: none stands for FALSE or NULL, with the error in
-- the state. Models no code of the repository by itself.
use mathlib.Core.Option.{Option, none, some}

-- `if (!f (…, error)) return FALSE;`
abbrev pub proceed : {W A B : Type 0} → (A → W → W × Option B) → W × Option A → W × Option B
proceed next (w, none) = (w, none)
proceed next (w, some a) = next a w

infixl 5 ◌>>=◌ ◌>>◌
unfoldable pub ◌>>=◌ :
    {W A B : Type 0} → (W → W × Option A) → (A → W → W × Option B) → W → W × Option B
◌>>=◌ m next w = proceed next (m w)

unfoldable pub ◌>>◌ :
    {W B : Type 0} → (W → W × Option (Unit {0})) → (W → W × Option B) → W → W × Option B
unfolding ◌>>=◌
m >> rest = m >>= λ _. rest

unfoldable pub pure : {W A : Type 0} → A → W → W × Option A
pure a w = (w, some a)
