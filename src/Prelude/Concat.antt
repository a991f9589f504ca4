-- ===== src/Prelude/Concat.antt =====
-- Texts put together.
use Prim.Native.String.{String, ◌++◌}

infixr 55 ◌+ₛ◌
abbrev pub ◌+ₛ◌ : String → String → String
s +ₛ t = s ++ t
