-- ===== src/Lib.antt =====
-- A model of cwapper, a C library of sparse linear algebra whose operators launch Triton kernels.
--
-- A caller makes a handle and descriptors of matrices and vectors, then calls an operator. An
-- operator checks its arguments, reads the scalars, derives what it needs from the index arrays on
-- the device, and launches one or more kernels with a signature, a grid and arguments. What is
-- modelled is all of that up to the kernel: no kernel's arithmetic is in the repository's C++.
--
-- Files, and the code that they are about:
--   Types      the enumerations of include/flagsparse.h and src/core/dtype.cpp
--   Descr      the objects behind the handles, src/core/internal.hpp
--   Exec       functions that return a status and change state on the way; its children have the
--              rules for invariants (Keeps), for what checks accept (Accepts), for what is left
--              behind (Leaves)
--   Launch     a kernel request: the signature as a list of items, the arguments, the grid
--   Machine    what the library runs on, and the state: objects at their addresses, out parameters,
--              device memory, the adaptor's statics, and the launches made so far
--   Adaptor    src/adaptor/backend/_template.inc
--   Jit        src/core/jit.cpp: launch, and the report of a failure on the handle (run_launch)
--   Meta       src/core/csr_meta.cpp
--   Scalars    read_scalar of the operators
--   Prologue   src/core/prologue.cpp
--   Create     src/api/descriptors.cpp; Create/Dense has the dense and the sparse vectors
--   Handle     src/api/context.cpp
--   Spmv       src/ops/spmv.cpp: Checks, Routes (one request per kernel), and the entry points
--   Gather     src/ops/gather_scatter.cpp
--   Spsv       src/ops/spsv.cpp: Checks, Routes, and the phases
--   Strides    how src/ops/spmm.cpp, sddmm.cpp and spsm.cpp walk a dense operand
--   Spmm       src/ops/spmm.cpp: Checks, Shape (the launch shapes), and the two routes
--   Sddmm      src/ops/sddmm.cpp: Checks, and the two launches
--   Spsm       src/ops/spsm.cpp: Checks, Layout (the scratch), Requests, and the phases
--   Spgemm     src/ops/spgemm.cpp: Checks, Plan (buckets and buffers), Host (the loops on the
--              host), Hash (the launch), Steps, and the three calls
--   Frame      rules for invariants over the parts that every operator uses
--   Library    the operators of src/ops called in any order
--   Floats     the arithmetic of double on the host
--   Market     ctest/mmio.hpp and tools/mmio.hpp: Text reads a line, Market the file
--   Harness    what the programs of ctest share: Buffer (DeviceBuffer), Matrix and Solve (the host
--              matrices and the oracles), Random and Sell (the random matrices), Half, Values and
--              Operands (conversions, sizes, tolerances, uploads), Corpus (ctest/corpus.cpp) and
--              Row and Report (BenchReport)
--   Base       tests, lists, integers and machine words that the others share
--   Tests      a machine with a byte array as memory, and runs on it
--
-- State. A pointer is a number, 0 for nullptr. `State` maps addresses to the objects that live
-- there; a function of the code that returns a status is a function from a state to a result and a
-- state, and `if (Status s = f()) return s;` is a bind. What an early return leaves written stays
-- written. An int64_t is an integer. A cast of a size or an index to int32_t keeps its wrap-around
-- (to_i32, to_word), in src and in the row offsets and row indices of ctest, as do the cast of a grid
-- extent to unsigned int, the products of block counts and block sizes in SpMV (to_i64), and the
-- size_t arithmetic of the scratch of SpSM; a theorem about them says for which sizes it holds. The
-- column indices of ctest's matrices are below an extent that an int32_t holds, and their casts are
-- left out. Other sums and products of 64-bit extents, such as rows + 1, are taken without a bound:
-- they are sizes of arrays that exist.
--
-- The tests of the repository meet the library where the reader's arrays and the harness's triangle
-- pass the library's column check, where the row indices written out for a matrix pass its row check,
-- and where a device buffer is made with the adaptor's allocation and copies.
--
-- Parameters. The arithmetic of double with its literals and its reading of a decimal is a record
-- (Doubles), as are the random generator (Generator) and what a benchmark calls (Subject: the
-- operator, the check, the vendor and the clock). The driver, libtriton_jit with its kernels, the file
-- system, the environment and the conversions between float and double are fields of `Machine`. Where a theorem needs the driver's
-- copies to behave as memory, it has the hypothesis `IsMemory`, and Tests/Bench has a machine for
-- which that is proved. Following a null or dangling pointer is outside the model.
--
-- Fuel. The loops that double up to a bound (a slice size, the k of SDDMM, the right-hand sides of
-- SpSM) run on fuel: as many rounds as the bound, which is enough, since each round adds 1 at least.
-- The loop that counts the halvings of the rows runs on as many rounds as there are rows, and 2 ^ n
-- exceeds n. The loop that normalises a subnormal half has ten rounds, one for each bit. Every
-- other loop is recursion on a list or a count.
--
-- Arrays on the host. An index read from the device stands in a list; the code follows offsets into
-- it without a check, and an offset outside the array is outside the model. std::sort is an insertion
-- sort, which keeps the order of equal keys where std::sort leaves it open; the theorem on the sums of
-- repeated cells is for every order that it may leave.
--
-- Not modelled: the macros that name a vendor's driver, the exception guard at the C boundary,
-- src/api/pending.cpp, in which no entry point is left, the Python shims of flagsparse_codegen,
-- the dense copy that random_sell_lower keeps, the text of the JSON files of ctest/common.cpp but for
-- its escapes and counts, the tables of variants of ctest/sweep.hpp, and the programs of ctest and
-- tools, which call the library and the harness.
pub mod Base
pub mod Types
pub mod Exec
pub mod Descr
pub mod Launch
pub mod Machine
pub mod Adaptor
pub mod Jit
pub mod Meta
pub mod Scalars
pub mod Prologue
pub mod Create
pub mod Handle
pub mod Spmv
pub mod Gather
pub mod Spsv
pub mod Strides
pub mod Spmm
pub mod Sddmm
pub mod Spsm
pub mod Spgemm
pub mod Frame
pub mod Floats
pub mod Market
pub mod Harness
pub mod Library
pub mod Tests
