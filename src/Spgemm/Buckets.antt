-- ===== src/Spgemm/Buckets.antt =====
-- The choice of a hash table in src/ops/spgemm.cpp.
use cwapper.Base.{
  ℕ, ◌*◌, ◌≡◌, ◌≤◌, ◌<◌, inl, inr, refl, arith, pos, List, [], ◌∷◌, ◌++◌, Option, none, some, All,
  le_ℤ, Bool-cases,
}
use cwapper.Spgemm.Plan.{Bucket, buckets, fill_buckets, pick_bucket}

-- `b` is the first bucket of the table that serves the need.
pub record IsFirst (table : List Bucket) (need : ℕ) (b : Bucket) : Type 0 where
  pub before : List Bucket
  pub after : List Bucket
  pub split : table ≡ before ++ (b ∷ after)
  pub served : need ≤ b.max_work
  pub skipped : All (λ c. c.max_work < need) before

-- What a search of a table finds.
abbrev pub IsChoice : List Bucket → ℕ → Option Bucket → Type 0
IsChoice table need (some b) = IsFirst table need b
IsChoice table need none = All (λ c. c.max_work < need) table

step-IsChoice :
    (c : Bucket) (rest : List Bucket) (need : ℕ) (o : Option Bucket)
    → c.max_work < need
    → IsChoice rest need o
    → IsChoice (c ∷ rest) need o
step-IsChoice c rest need (some b) h f = record {
  before = c ∷ f.before;
  after = f.after;
  split = cc;
  served = f.served;
  skipped = (h, f.skipped);
}
step-IsChoice c rest need none h f = (h, f)

-- pick_bucket finds the first bucket of any table that serves the need, and nothing only if no bucket
-- of the table serves it.
pick_bucket-IsChoice :
    (table : List Bucket) (need : ℕ) → IsChoice table need (pick_bucket table (pos need))
unfolding pick_bucket
pick_bucket-IsChoice [] need = tt
pick_bucket-IsChoice (c ∷ rest) need = elim (Bool-cases (le_ℤ (pos need) (pos c.max_work))) [
  | inl e ↦
      rw (e)
        (record { before = []; after = rest; split = refl; served = ground arith; skipped = tt })
  | inr e ↦ rw (e) (step-IsChoice c rest need _ (ground arith) (pick_bucket-IsChoice rest need))
]

-- A need that is served is 6144 at most and fills a table of the bucket to three quarters at most; one
-- that is not served is larger than 6144.
abbrev pub HasRoom : ℕ → Option Bucket → Type 0
HasRoom need (some b) = (need ≤ 6144) × (4 * need ≤ 3 * b.cap)
HasRoom need none = 6144 < need

-- In both tables the search has an answer exactly for a need of 6144 at most, and the hash table of
-- the answer is then at most three quarters full.
pub pick_bucket-HasRoom :
    (need : ℕ)
    → HasRoom need (pick_bucket buckets (pos need))
      × HasRoom need (pick_bucket fill_buckets (pos need))
unfolding pick_bucket
pick_bucket-HasRoom need = (ground arith, ground arith)
