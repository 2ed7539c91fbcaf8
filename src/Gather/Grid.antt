-- ===== src/Gather/Grid.antt =====
-- The grids of src/ops/gather_scatter.cpp.
use cwapper.Base.{ℕ, ◌*◌, ◌+◌, ◌≤◌, ◌<◌, ℤ, pos, ◌≤ℤ◌, arith, pos_part, tiles, tiles_pos}
use cwapper.Descr.{SpVecDescr}
use cwapper.Launch.{agrees}
use cwapper.Machine.{Machine}
use cwapper.Gather.{max_programs, gather_grid, block_size, request, build_signature}
use cwapper.Launch.{Agrees}

-- The cap is positive whatever the device says of itself.
max_programs-positive : (sm threads warp : ℤ) → pos 1 ≤ℤ max_programs sm threads warp
unfolding max_programs
max_programs-positive sm threads warp = ground arith

-- The tiles cover the elements, and one tile less would not.
tiles-cover :
    (n : ℕ)
    → (n ≤ 256 * pos_part (tiles (pos n) 256)) × (256 * pos_part (tiles (pos n) 256) < n + 256)
tiles-cover n = rw (tiles_pos) (ground arith)

-- A gather of n > 0 elements: at least one program and at most one per tile, whatever the device
-- says of itself. The tiles, one program for each in a scatter, cover the
-- elements, and one tile less would not.
gather_grid-max_programs :
    (n : ℕ) (sm threads warp : ℤ)
    → 0 < n
    → (pos 1 ≤ℤ gather_grid (pos n) (max_programs sm threads warp))
      × (gather_grid (pos n) (max_programs sm threads warp) ≤ℤ tiles (pos n) block_size)
      × (n ≤ block_size * pos_part (tiles (pos n) block_size))
      × (block_size * pos_part (tiles (pos n) block_size) < n + block_size)
unfolding gather_grid
gather_grid-max_programs n sm threads warp h =
    let cap = max_programs-positive sm threads warp in
    let e = tiles_pos n 256 in let cover = tiles-cover n in ground arith

-- The arguments of a gather or a scatter kernel, of any vector, are those that its signature
-- announces.
pub request-Agrees :
    (m : Machine) (stream : ℕ) (kernel : Prim.Native.String.String) (dst src : ℕ) (x : SpVecDescr)
    (grid : ℤ)
    → Agrees (request m stream kernel dst src x grid)
unfolding request build_signature agrees
request-Agrees m stream kernel dst src x grid = ground arith
