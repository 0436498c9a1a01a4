-- ===== src/Cloud/Bodies.antt =====
-- What backend/minio/minio.go and backend/s3/s3.go ask of a body to find its size.
use sharp_store.Prelude.{[], ℕ, ◌-◌, if◌then◌else◌, leb}
use sharp_store.Prelude.Integers.{ℤ, pos, negsuc}
use sharp_store.Errors.{Error, Outcome, Result, wrap}

-- The methods of a body: Len, which gives a number; Seek, with the current offset, the end, and how
-- the way back to the current offset ends; or none of these.
pub data Kind : Type 0 where
  sized : ℕ → Kind
  seeker : Result ℕ → Result ℕ → Outcome → Kind
  stream : Kind

-- `end - current`
unfoldable pub distance : ℕ → ℕ → ℤ
distance end current = if leb current end then pos (end - current) else negsuc (current - end - 1)

abbrev pub restore_error : Error → Error
restore_error e = wrap e "restore upload reader position: %w" []
