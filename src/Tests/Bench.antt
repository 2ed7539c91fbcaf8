-- ===== src/Tests/Bench.antt =====
-- A machine for the tests: its memory is an array of bytes, and every call of the driver succeeds.
use cwapper.Base.{
  ℕ, zero, suc, ◌≤◌, ◌≡◌, refl, sym, ap, ◌∙◌, arith, pos, true, List, [], ◌∷◌, some, none, length,
  replicate, ◌==◌, if◌then◌else◌,
}
use cwapper.Types.{csr, coo}
use cwapper.Descr.{SpMatDescr, DnVecDescr, new_context, new_spmat, new_dnvec, new_spsv}
use cwapper.Machine.{Machine, State, update}
use cwapper.Machine.Memory.{IsMemory}
use cwapper.Meta.{words32}

unfoldable pub store : ℕ → List ℕ → (ℕ → ℕ) → ℕ → ℕ
store p [] memory q = memory q
store p (b ∷ bs) memory q = let rest = store (suc p) bs memory q in if p == q then b else rest

unfoldable pub load : ℕ → ℕ → (ℕ → ℕ) → List ℕ
load p zero memory = []
load p (suc n) memory = memory p ∷ load (suc p) n memory

load-≡ : (n p : ℕ) (f g : ℕ → ℕ) → ((q : ℕ) → p ≤ q → f q ≡ g q) → load p n f ≡ load p n g
unfolding load
load-≡ zero p f g h = refl
load-≡ (suc n) p f g h =
    let here = h p (ground arith) in
    let rest = load-≡ n (suc p) f g (λ q le. h q (ground arith)) in cc

store_above :
    (p b q : ℕ) (bs : List ℕ) (memory : ℕ → ℕ)
    → suc p ≤ q
    → store p (b ∷ bs) memory q ≡ store (suc p) bs memory q
unfolding store
store_above p b q bs memory h = ground arith

store_here : (p b : ℕ) (bs : List ℕ) (memory : ℕ → ℕ) → store p (b ∷ bs) memory p ≡ b
unfolding store
store_here p b bs memory = ground arith

load-store :
    (p : ℕ) (bytes : List ℕ) (memory : ℕ → ℕ) → load p (length bytes) (store p bytes memory) ≡ bytes
unfolding load
load-store p [] memory = refl
load-store p (b ∷ bs) memory =
    let rest =
      load-≡ (length bs) (suc p) (store p (b ∷ bs) memory) (store (suc p) bs memory)
        (λ q h. store_above p b q bs memory h)
      ∙ load-store (suc p) bs memory in
    let first = store_here p b bs memory in cc

length-load : (p n : ℕ) (memory : ℕ → ℕ) → length (load p n memory) ≡ n
unfolding load
length-load p zero memory = refl
length-load p (suc n) memory = ap suc (length-load (suc p) n memory)

abbrev pub bench : Machine
bench = record {
  Mem = ℕ → ℕ;
  copy_in = λ p bytes memory. some (store p bytes memory);
  copy_out = λ p n memory. some (load p n memory);
  fill = λ p v n memory. some (store p (replicate n v) memory);
  allocate = λ n memory. some (12288, memory);
  release = λ p memory. memory;
  init_ok = true;
  device_count = some (pos 1);
  device_get_ok = true;
  architecture = "sm_90";
  retain_ok = true;
  set_current_ok = true;
  attribute = λ a. some (pos 64);
  execute = λ r memory. none;
  executed = λ r memory. memory;
  file_exists = λ p. true;
  join_path = λ a b. b;
  env_codegen_path = none;
  baked_codegen_dir = "codegen";
  float_at = λ p i. p;
  double_at = λ p i. p;
  widen = λ x. x;
  narrow = λ x. x;
}

written-back :
    (p : ℕ) (bytes : List ℕ) (before after : ℕ → ℕ)
    → some (store p bytes before) ≡ some after
    → some (load p (length bytes) after) ≡ some bytes
written-back p bytes before after h =
    let same : store p bytes before ≡ after = some_inj _ _ h in
    ap some (ap (load p (length bytes)) (sym same) ∙ load-store p bytes before)
  where
    some_inj : (f g : ℕ → ℕ) → some f ≡ some g → f ≡ g
    some_inj f g e = cc

read_length :
    (p n : ℕ) (memory : ℕ → ℕ) (bytes : List ℕ)
    → some (load p n memory) ≡ some bytes
    → length bytes ≡ n
read_length p n memory bytes h = ap length (sym (some_inj _ _ h)) ∙ length-load p n memory
  where
    some_inj : (f g : List ℕ) → some f ≡ some g → f ≡ g
    some_inj f g e = cc

pub bench-IsMemory : IsMemory bench
bench-IsMemory = record { copy_out-copy_in = written-back; length-copy_out = read_length }

-- [[a, b], [0, c]] in CSR, and the same in COO.
abbrev pub two_rows : SpMatDescr
two_rows = record new_spmat {
  format = csr;
  rows = pos 2;
  cols = pos 2;
  nnz = pos 3;
  offsets = 1000;
  indices = 2000;
  values = 3000;
}

abbrev pub two_rows_coo : SpMatDescr
two_rows_coo = record new_spmat {
  format = coo;
  rows = pos 2;
  cols = pos 2;
  nnz = pos 3;
  row_ind = 4000;
  indices = 2000;
  values = 3000;
}

abbrev pub two : ℕ → DnVecDescr
two p = record new_dnvec { size = pos 2; values = p }

-- The objects at 1 to 9, and the index arrays in memory.
abbrev pub start : State (ℕ → ℕ)
start = record {
  contexts = update (λ p. none) 1 (some new_context);
  mats = update (update (λ p. none) 2 (some two_rows)) 3 (some two_rows_coo);
  dnmats = λ p. none;
  dnvecs = update (update (λ p. none) 4 (some (two 5000))) 5 (some (two 6000));
  spvecs = λ p. none;
  spsvs = update (λ p. none) 6 (some new_spsv);
  spsms = λ p. none;
  spgemms = λ p. none;
  cells = λ p. 0;
  mem =
      store 1000 (words32 (0 ∷ 2 ∷ 3 ∷ []))
        (store 2000 (words32 (0 ∷ 1 ∷ 1 ∷ [])) (store 4000 (words32 (0 ∷ 0 ∷ 1 ∷ [])) (λ p. 0)));
  init_done = true;
  device_ready = true;
  device_arch = "sm_90";
  launches = [];
}
