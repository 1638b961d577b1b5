-- ===== src/Base/Text.antt =====
-- Python's `str` methods on the native texts.
use Prim.Native.Nat.{◌+◌}
use Prim.Native.String.{String, len, find, slice}
use mathlib.Core.Bool.{Bool}
use netspy.Base.Tests.{leb, if◌then◌else◌}

-- mark in s
unfoldable pub has_mark : String → String → Bool
has_mark mark s = leb (find s mark) (len s)

-- s.partition(mark)[0]
unfoldable pub before : String → String → String
unfolding has_mark
before mark s = if has_mark mark s then slice s 0 (find s mark) else s

-- s.partition(mark)[2]
unfoldable pub after : String → String → String
unfolding has_mark
after mark s = if has_mark mark s then slice s (find s mark + len mark) (len s) else ""

-- s.split(mark, 1)[-1]
unfoldable pub last_part : String → String → String
unfolding has_mark
last_part mark s = if has_mark mark s then slice s (find s mark + len mark) (len s) else s
