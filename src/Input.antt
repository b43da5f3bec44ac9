-- ===== src/Input.antt =====
-- hypervisor/src/corpus.rs: the type `InputFile`.
use Prim.Native.String.{String}
use hypervisor_101_in_rust.Prelude.{ℕ, List}

-- A `String` that names an input. The name that `format!("{}_{}", …)` builds is kept as its parts.
pub data Name : Type 0 where
  file_name : String → Name
  numbered : Name → ℕ → Name

pub record InputFile : Type 0 where
  pub bytes : List ℕ
  pub name : Name
