-- ===== src/Release/Texts.antt =====
-- The comparison of digests in src/update.rs.
use Prim.Native.Char.{code}
use singbox_sub_me.Prelude.{ℕ, ◌+◌, String, Bool, true, false, ◌&&◌, leb, ◌==◌, if◌then◌else◌}

-- `to_ascii_lowercase` of one character, by its code
abbrev lower : ℕ → ℕ
lower c = if leb 65 c && leb c 90 then c + 32 else c

unfoldable pub eq_ignore_ascii_case : String → String → Bool
eq_ignore_ascii_case String.[] String.[] = true
eq_ignore_ascii_case (String.◌∷◌ c s) (String.◌∷◌ d t) =
    lower (code c) == lower (code d) && eq_ignore_ascii_case s t
eq_ignore_ascii_case _ _ = false
