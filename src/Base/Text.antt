-- ===== src/Base/Text.antt =====
-- What the program does with texts: length in characters, `lower`, and the order of identifiers.
use Prim.Native.Nat.{ℕ, ◌+◌, compare, Ordering}
use Prim.Native.Char.{code}
use Prim.Native.String.{String, count}
use mathlib.Core.Bool.{Bool, true, false, ◌&&◌}
use mathlib.Core.List.{List, [], ◌∷◌, map}
use mathlib.Core.Logic.{◌⊎◌, inl, inr}
use mathlib.Core.Path.{◌≡◌, refl}
use native.Mathlib.Omega.{arith}
use tool_permission_enforcer.Base.Equality.{leb, if◌then◌else◌}

-- `len(s)`
unfoldable pub len : String → ℕ
len s = count s

-- The code points of a text.
abbrev pub codes : String → List ℕ
codes String.[] = []
codes (String.◌∷◌ c s) = code c ∷ codes s

-- `s.lower()` on the ASCII letters. No other letter of Unicode becomes one of `bearer`.
unfoldable pub lower : List ℕ → List ℕ
lower = map (λ c. if leb b'A' c && leb c b'Z' then c + 32 else c)

abbrev pub leb_codes : List ℕ → List ℕ → Bool
leb_codes [] ys = true
leb_codes (x ∷ xs) [] = false
leb_codes (x ∷ xs) (y ∷ ys) = elim (compare x y) [
  | Ordering.lt ↦ true
  | Ordering.eq ↦ leb_codes xs ys
  | Ordering.gt ↦ false
]

-- The order in which the database sorts identifiers, by code points.
unfoldable pub leb_text : String → String → Bool
leb_text s t = leb_codes (codes s) (codes t)

leb_codes-total : (xs ys : List ℕ) → (leb_codes xs ys ≡ true) ⊎ (leb_codes ys xs ≡ true)
leb_codes-total [] ys = inl refl
leb_codes-total (x ∷ xs) [] = inr refl
leb_codes-total (x ∷ xs) (y ∷ ys) = elim (leb_codes-total xs ys) [
  | inl le ↦ ground arith
  | inr ge ↦ ground arith
]

pub leb_text-total : (s t : String) → (leb_text s t ≡ true) ⊎ (leb_text t s ≡ true)
unfolding leb_text
leb_text-total s t = leb_codes-total (codes s) (codes t)
