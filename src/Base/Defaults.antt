-- ===== src/Base/Defaults.antt =====
-- The defaults that a configuration's `resolved` fills in.
use s3pgstore.Base.{ℕ, zero, suc, Bytes, [], ◌∷◌}
use s3pgstore.Base.Int.{ℤ, pos, negsuc}

abbrev pub or_default : Bytes → Bytes → Bytes
or_default [] default = default
or_default (c ∷ s) default = c ∷ s

abbrev pub positive_or : ℤ → ℕ → ℕ
positive_or (pos zero) default = default
positive_or (pos (suc n)) default = suc n
positive_or (negsuc n) default = default
