-- ===== src/Symbols.antt =====
-- `compat_symbols` of sicada/src/symbol_table.rs. Of a table it reads only the digest of its
-- entries, the MD5 checksum of an outside library, so a table stands here as that digest.
use sicada.Prelude.{ℕ, Bool, true, Option, none, some, ◌==◌}

pub record SymbolTable : Type 0 where
  pub labeled_check_sum : ℕ

unfoldable pub compat_symbols : Option SymbolTable → Option SymbolTable → Bool
compat_symbols none syms2 = true
compat_symbols (some s1) none = true
compat_symbols (some s1) (some s2) = s1.labeled_check_sum == s2.labeled_check_sum
