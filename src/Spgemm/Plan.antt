-- ===== src/Spgemm/Plan.antt =====
-- The buckets and the buffers of src/ops/spgemm.cpp.
use cwapper.Base.{
  ℕ, suc, ◌+◌, ◌*◌, ℤ, pos, List, [], ◌∷◌, Option, none, some, le_ℤ, pos_part, if◌then◌else◌,
}
use cwapper.Spsm.Layout.{align_up}

-- A row of at most `max_work` products, or entries, is served by a table of `cap` slots.
pub record Bucket : Type 0 where
  pub max_work : ℕ
  pub cap : ℕ
  pub block : ℕ
  pub warps : ℕ

abbrev bucket : ℕ → ℕ → ℕ → ℕ → Bucket
bucket w c b n = record { max_work = w; cap = c; block = b; warps = n }

abbrev pub buckets : List Bucket
buckets =
    bucket 48 64 32 2
    ∷ bucket 192 256 32 2
    ∷ bucket 768 1024 128 4
    ∷ bucket 3072 4096 512 8
    ∷ bucket 6144 8192 1024 16
    ∷ []

abbrev pub fill_buckets : List Bucket
fill_buckets = bucket 6 8 8 1 ∷ bucket 12 16 16 1 ∷ buckets

unfoldable pub pick_bucket : List Bucket → ℤ → Option Bucket
pick_bucket [] need = none
pick_bucket (b ∷ rest) need =
    let next = pick_bucket rest need in if le_ℤ need (pos b.max_work) then some b else next

-- The bytes of an int32 for each of `rows` rows, aligned.
unfoldable pub rows_bytes : ℤ → ℕ
unfolding align_up
rows_bytes rows = align_up (pos_part rows * 4)

unfoldable pub buffer1_bytes : ℤ → ℤ → ℕ
unfolding align_up rows_bytes
buffer1_bytes rows nnz_a = rows_bytes rows + align_up (pos_part nnz_a * 4)

unfoldable pub buffer2_bytes : ℤ → ℕ
unfolding align_up rows_bytes
buffer2_bytes rows = rows_bytes rows * 2 + align_up (suc (pos_part rows) * 4)
