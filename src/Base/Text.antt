-- ===== src/Base/Text.antt =====
-- Go strings as lists of bytes, and the functions of package strings that the code calls.
use Prim.Native.Nat.{ℕ, zero, suc}
use Prim.Native.Char.{code}
use Prim.Native.String.{String}
use mathlib.Core.List.{List, [], ◌∷◌}
use mathlib.Core.Option
use mathlib.Core.Option.{Option, none, some}
use hyperliquid_go.Base.Test.{nat_beq, if◌then◌else◌}

abbrev pub Str : Type 0
Str = List ℕ

-- The bytes of an ASCII literal.
abbrev pub codes : String → Str
codes (String.◌∷◌ letter letters) = code letter ∷ codes letters
codes String.[] = []

-- `strings.Index(s, c)` for one byte; `none` is -1.
unfoldable pub index_of : Str → ℕ → Option ℕ
index_of [] c = none
index_of (x ∷ s) c =
    let rest = index_of s c in if nat_beq x c then some 0 else Option.map (λ i. suc i) rest

-- `s[:i]` and `s[i:]`
unfoldable pub take : ℕ → Str → Str
take zero s = []
take (suc i) [] = []
take (suc i) (x ∷ s) = x ∷ take i s

unfoldable pub drop : ℕ → Str → Str
drop zero s = s
drop (suc i) [] = []
drop (suc i) (x ∷ s) = drop i s

-- `strings.Split(s, sep)` for one byte.
unfoldable pub split : ℕ → Str → List Str
split sep [] = [] ∷ []
split sep (x ∷ s) =
    let parts = split sep s in
    if nat_beq x sep then [] ∷ parts else elim parts [ [] ↦ (x ∷ []) ∷ [] | p ∷ ps ↦ (x ∷ p) ∷ ps ]
