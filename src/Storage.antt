-- ===== src/Storage.antt =====
-- src/storage.rs: owned or memory-mapped elements.
use yurine.Prelude.{List, Bool, true, false}

pub data Storage {ℓ} (A : Type ℓ) : Type ℓ where
  owned mapped : List A → Storage A

unfoldable pub as_slice {ℓ} : {A : Type ℓ} → Storage A → List A
as_slice (owned values) = values
as_slice (mapped values) = values

unfoldable pub is_mapped {ℓ} : {A : Type ℓ} → Storage A → Bool
is_mapped (owned _) = false
is_mapped (mapped _) = true
