-- ===== src/Toml/Format.antt =====
-- A textual format of serde (toml, serde_json), as a parameter.
use rustprobe.Common.{◌≡◌, Option, some}
use rustprobe.Toml.Text.{Text}

-- `to_string` and `from_str` of a format, for one type.
pub record Format (A : Type 0) : Type 0 where
  pub to_string : A → Option Text
  pub from_str : Text → Option A

-- What is written is read back.
pub record IsFormat {A : Type 0} (f : Format A) : Type 0 where
  pub writes : (a : A) → (s : Text) × (f.to_string a ≡ some s)
  pub reads : (a : A) (s : Text) → f.to_string a ≡ some s → f.from_str s ≡ some a
