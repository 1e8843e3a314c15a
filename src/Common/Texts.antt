-- ===== src/Common/Texts.antt =====
-- Python's operations on texts that the code uses to read a reference.
use Prim.Native.Nat.{◌+◌}
use Prim.Native.String.{String, len, slice, find}
use mathlib.Core.Bool.{Bool}
use text.Mathlib.Text.{starts_with}
use praxis_ai_agent_platform.Common.Tests.{ltb, if◌then◌else◌}

-- `s.startswith("$")` and `s[1:]`
unfoldable pub is_reference : String → Bool
is_reference s = starts_with s "$"

unfoldable pub after_dollar : String → String
after_dollar s = slice s 1 (len s)

-- `s.partition(".")`, without the separator: what stands before and after the first dot
unfoldable pub partition_dot : String → String × String
partition_dot s =
    let at = find s "." in
    if ltb at (len s) then (slice s 0 at, slice s (at + 1) (len s)) else (s, "")
