-- ===== src/Py/Edit.antt =====
-- `s in t` and `t.replace(s, u, 1)`, on texts as character codes.
pub mod Laws
use minebtx.Prelude.{
  ℕ, String, Bool, true, false, ◌&&◌, ◌||◌, List, [], ◌∷◌, ◌++◌, ◌==◌, if◌then◌else◌,
}
use minebtx.Py.Text.{codes}

-- `"\n".join(...)`
abbrev pub lines : List String → List ℕ
lines [] = []
lines (s ∷ []) = codes s
lines (s ∷ t ∷ ss) = codes s ++ b'\n' ∷ lines (t ∷ ss)

-- `t.startswith(s)`
abbrev pub begins : List ℕ → List ℕ → Bool
begins t [] = true
begins [] (d ∷ s) = false
begins (c ∷ t) (d ∷ s) = (c == d) && begins t s

-- `s in t`
abbrev pub contains : List ℕ → List ℕ → Bool
contains [] s = begins [] s
contains (c ∷ t) s = begins (c ∷ t) s || contains t s

-- The text behind a prefix of the length of `s`.
abbrev behind : List ℕ → List ℕ → List ℕ
behind t [] = t
behind [] (d ∷ s) = []
behind (c ∷ t) (d ∷ s) = behind t s

-- `t.replace(s, u, 1)`
unfoldable pub replace_first : List ℕ → List ℕ → List ℕ → List ℕ
replace_first [] s u = if begins [] s then u else []
replace_first (c ∷ t) s u =
    let rest = c ∷ replace_first t s u in if begins (c ∷ t) s then u ++ behind (c ∷ t) s else rest
