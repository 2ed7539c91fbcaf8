-- ===== src/Spmm/Shape.antt =====
-- The launch shapes of src/ops/spmm.cpp.
use cwapper.Base.{
  ℕ, ◌*◌, ◌/◌, ℤ, pos, Bool, true, false, ◌&&◌, ◌||◌, List, [], ◌∷◌, leb, lt_ℤ, le_ℤ, max, min,
  max_ℤ, quot_ℤ, pos_part, if◌then◌else◌,
}
use cwapper.Types.{DataType, r_64f, c_64f}
use cwapper.Exec.{pure, ◌>>=◌}
use cwapper.Machine.{Machine, Op}
use cwapper.Adaptor.{warp_size, max_threads_per_multiprocessor}

pub record LaunchConfig : Type 0 where
  pub block_n : ℕ
  pub block_nnz : ℕ
  pub num_warps : ℕ
  pub num_stages : ℕ

-- (warp_size, factor)
unfoldable pub select_warp_and_factor : ℤ → ℕ × ℕ
select_warp_and_factor n =
    if lt_ℤ (pos 64) n
    then (32, 4)
    else if lt_ℤ (pos 32) n
    then (32, 2)
    else if lt_ℤ (pos 16) n
    then (32, 1)
    else if lt_ℤ (pos 8) n
    then (16, 1)
    else if lt_ℤ (pos 4) n
    then (8, 1)
    else (4, 1)

abbrev pub candidates : List ℕ
candidates = 1 ∷ 2 ∷ 4 ∷ 8 ∷ 16 ∷ []

-- The loop over the candidates: the last one that fits is chosen.
unfoldable pub choose : ℕ → ℕ → ℕ → List ℕ → ℕ
choose cap desired chosen [] = chosen
choose cap desired chosen (c ∷ rest) =
    choose cap desired (if leb c cap && leb c (max 1 desired) then c else chosen) rest

-- The cap of clip_num_warps, from the two figures of the device.
unfoldable pub warp_cap : ℤ → ℤ → ℕ
warp_cap device_warp threads_per_mp =
    let warp = pos_part (max_ℤ (pos 1) device_warp) in
    min 16 (min (max 1 (1024 / warp)) (pos_part (max_ℤ (pos 1) (quot_ℤ threads_per_mp warp))))

abbrev pub is_double : DataType → Bool
is_double r_64f = true
is_double c_64f = true
is_double _ = false

-- The warps that resolve_launch asks for.
unfoldable pub desired_warps : Bool → ℤ → ℤ → ℕ → ℕ
desired_warps wide n longest block_n =
    let first =
      if le_ℤ n (pos 16)
      then 1
      else if le_ℤ n (pos 32)
      then 2
      else if le_ℤ n (pos 64)
      then 4
      else if le_ℤ (pos 512) longest
      then 8
      else 4 in
    let second = if leb 128 block_n then max first 4 else first in
    let third = if le_ℤ (pos 1024) longest && lt_ℤ (pos 32) n then max second 8 else second in
    min third (if wide then 8 else 16)

unfoldable pub stages : Bool → ℤ → ℤ → ℕ → ℕ
stages wide n longest block_n =
    if lt_ℤ (pos 64) n || leb 128 block_n
    then 1
    else if wide && le_ℤ (pos 512) longest
    then 1
    else 2

module _ (m : Machine) where
  unfoldable pub clip_num_warps : ℕ → Op m ℕ
  unfolding choose warp_cap
  clip_num_warps desired = do
    warp ← warp_size m
    threads ← max_threads_per_multiprocessor m
    pure (choose (warp_cap warp threads) desired 1 candidates)

  unfoldable pub resolve_launch : DataType → ℤ → ℤ → Op m LaunchConfig
  unfolding select_warp_and_factor desired_warps stages
  resolve_launch compute_type n longest = do
    let (warp, factor) = select_warp_and_factor n
    let block_n = warp * factor
    warps ← clip_num_warps (desired_warps (is_double compute_type) n longest block_n)
    pure (record {
      block_n = block_n;
      block_nnz = warp;
      num_warps = warps;
      num_stages = stages (is_double compute_type) n longest block_n;
    })

  unfoldable pub resolve_coo_launch : ℤ → Op m LaunchConfig
  unfolding select_warp_and_factor
  resolve_coo_launch n = do
    let (warp, factor) = select_warp_and_factor n
    device_warp ← warp_size m
    pure (record {
      block_n = warp * factor;
      block_nnz = 4;
      num_warps = max 1 (warp * factor / pos_part (max_ℤ (pos 1) device_warp));
      num_stages = 3;
    })
