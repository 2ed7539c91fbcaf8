-- ===== src/Harness/Corpus.antt =====
-- The matrices of a sweep (ctest/corpus.cpp). What the file system gives is a parameter: whether the
-- variable is set, whether the directory can be listed, and the .mtx files in it in their order.
use cwapper.Base.{
  ℕ, suc, ◌+◌, ◌≡◌, ◌⊎◌, inl, inr, refl, sym, ◌∙◌, ap, arith, ℤ, pos, Bool, true, false, List, [],
  ◌∷◌, ◌++◌, String, Option, length,
}
use cwapper.Floats.{Doubles}
use cwapper.Harness.Random.{Generator, random_csr}
use cwapper.Market.{Csr, Outcome, threw, returned, read_csr}

-- A path with its stem, and the lines of the file, `none` where it does not open.
pub record File : Type 0 where
  pub path : String
  pub stem : String
  pub lines : Option (List (List ℕ))

pub record CorpusEntry (V : Type 0) : Type 0 where
  pub name : String
  pub path : String
  pub rows : ℤ
  pub cols : ℤ
  pub nnz : ℤ
  pub indptr : List ℤ
  pub indices : List ℕ
  pub values : List V

-- `failures` has the name of each; its text is that of the exception.
pub record Loaded (V : Type 0) : Type 0 where
  pub entries : List (CorpusEntry V)
  pub failures : List String
  pub real : Bool

pub data Directory : Type 0 where
  unset : Directory
  unreadable : Directory
  listed : List File → Directory

module _ (d : Doubles) (g : Generator d.V) where
  abbrev synthetic : String → ℕ → String → ℕ → CorpusEntry d.V
  synthetic name n density seed =
      let a = random_csr d g n n (d.literal density) seed in
      record {
        name = name;
        path = "(synthetic)";
        rows = pos a.rows;
        cols = pos a.cols;
        nnz = pos a.nnz;
        indptr = a.indptr;
        indices = a.indices;
        values = a.values;
      }

  unfoldable pub add_synthetic : Loaded d.V → Loaded d.V
  add_synthetic out = record out {
    entries =
        out.entries
        ++ synthetic "synthetic_8k_d0.001" 8192 "0.001" 12345
          ∷ synthetic "synthetic_32k_d0.0005" 32768 "0.0005" 12346
          ∷ synthetic "synthetic_128k_d0.0001" 131072 "0.0001" 12347
          ∷ [];
  }

module _ (d : Doubles) (allocates : ℕ → Bool) where
  abbrev entry_of : File → Csr d.V → CorpusEntry d.V
  entry_of f m = record {
    name = f.stem;
    path = f.path;
    rows = m.rows;
    cols = m.cols;
    nnz = m.nnz;
    indptr = m.indptr;
    indices = m.indices;
    values = m.values;
  }

  -- What a file adds in front of what the later ones do.
  abbrev with_file : File → Outcome d.V → Loaded d.V → Loaded d.V
  with_file f threw rest = record rest { failures = f.stem ∷ rest.failures }
  with_file f (returned m) rest = record rest { entries = entry_of f m ∷ rest.entries }

  -- The loop over the files.
  unfoldable pub load_files : List File → Loaded d.V
  load_files [] = record { entries = []; failures = []; real = false }
  load_files (f ∷ files) = with_file f (read_csr d allocates f.lines) (load_files files)

  abbrev or_synthetic : Generator d.V → List (CorpusEntry d.V) → Loaded d.V → Loaded d.V
  or_synthetic g [] out = add_synthetic d g out
  or_synthetic g (e ∷ es) out = record out { real = true }

  unfoldable pub load_once : Generator d.V → Directory → Loaded d.V
  unfolding load_files add_synthetic
  load_once g unset = add_synthetic d g (record { entries = []; failures = []; real = false })
  load_once g unreadable = add_synthetic d g (record { entries = []; failures = []; real = false })
  load_once g (listed files) = or_synthetic g (load_files files).entries (load_files files)

  abbrev name_if : Outcome d.V → String → List String → List String
  name_if threw stem rest = stem ∷ rest
  name_if (returned m) stem rest = rest

  -- The files whose reading throws.
  abbrev pub thrown : List File → List String
  thrown [] = []
  thrown (f ∷ files) = name_if (read_csr d allocates f.lines) f.stem (thrown files)

  load_files-thrown :
      (files : List File)
      → ((load_files files).failures ≡ thrown files)
        × (length (load_files files).entries + length (load_files files).failures ≡ length files)
        × ((load_files files).real ≡ false)
  unfolding load_files
  load_files-thrown [] = (refl, ground arith, refl)
  load_files-thrown (f ∷ files) =
      added (read_csr d allocates f.lines) (load_files files) (thrown files)
        (load_files-thrown files)
    where
      added :
          (o : Outcome d.V) (rest : Loaded d.V) (names : List String)
          → (rest.failures ≡ names)
            × (length rest.entries + length rest.failures ≡ length files)
            × (rest.real ≡ false)
          → ((with_file f o rest).failures ≡ name_if o f.stem names)
            × (length (with_file f o rest).entries + length (with_file f o rest).failures
                ≡ suc (length files))
            × ((with_file f o rest).real ≡ false)
      added threw rest names h = (ap (λ ns. f.stem ∷ ns) h.0, omega (arith, h.1), h.2)
      added (returned m) rest names h = (h.0, omega (arith, h.1), h.2)

  -- In the corpus of a directory, the failures are exactly the files whose reading throws. Where the
  -- corpus is real, it has as many entries as the directory has other files: one that read_csr refuses
  -- with an error text counts as an entry.
  pub load_once-thrown :
      (g : Generator d.V) (files : List File)
      → ((load_once g (listed files)).failures ≡ thrown files)
        × (((load_once g (listed files)).real ≡ false)
            ⊎ (length (load_once g (listed files)).entries + length (thrown files) ≡ length files))
  unfolding load_once add_synthetic
  load_once-thrown g files =
      settled (load_files files).entries (load_files files) refl (load_files-thrown files)
    where
      settled :
          (es : List (CorpusEntry d.V)) (out : Loaded d.V)
          → out.entries ≡ es
          → (out.failures ≡ thrown files)
            × (length out.entries + length out.failures ≡ length files)
            × (out.real ≡ false)
          → ((or_synthetic g es out).failures ≡ thrown files)
            × (((or_synthetic g es out).real ≡ false)
                ⊎ (length (or_synthetic g es out).entries + length (thrown files) ≡ length files))
      settled [] out e h = (h.0, inl h.2)
      settled (x ∷ es) out e h =
          (h.0, inr (sym (ap (λ ns. length out.entries + length ns) h.0) ∙ h.1))
