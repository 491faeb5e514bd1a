-- ===== src/Base/Texts.antt =====
-- Free text as its code points.
use Prim.Native.Nat.{ℕ}
use mathlib.Core.Bool.{Bool, ◌&&◌, ◌||◌}
use mathlib.Core.List.{List}
use scp_harness.Base.Tests.{◌==◌, leb}
use scp_harness.Base.Lists.{all}

abbrev pub Text : Type 0
Text = List ℕ

-- unicode.IsSpace
unfoldable pub is_space : ℕ → Bool
is_space c =
    (leb 9 c && leb c 13)
    || (c == 32)
    || (c == 0x85)
    || (c == 0xa0)
    || (c == 0x1680)
    || (leb 0x2000 c && leb c 0x200a)
    || (c == 0x2028)
    || (c == 0x2029)
    || (c == 0x202f)
    || (c == 0x205f)
    || (c == 0x3000)

-- `strings.TrimSpace(s) == ""`: trimming leaves nothing exactly when every character is a space.
unfoldable pub blank : Text → Bool
unfolding is_space
blank = all is_space
