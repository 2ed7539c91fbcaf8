-- ===== src/Launch.antt =====
-- src/core/jit.hpp: the arguments of a kernel launch, and the request that reaches libtriton_jit.
-- The code builds the signature as text, item by item with commas between; here it is the list of
-- items, and `render` gives the text.
use Prim.Native.String.{◌++◌ as str_append}
use cwapper.Base.{
  ℕ, zero, suc, ◌/◌, ◌%◌, ℤ, pos, negsuc, String, List, [], ◌∷◌, ◌≡◌, Bool, true, false, ◌&&◌, ltb,
  if◌then◌else◌,
}
use cwapper.Types.{Scalar, fp32, fp64, i32, i64, spelling}

-- jit::Arg. A float or a double is its bit pattern.
pub data Arg : Type 0 where
  device_ptr : ℕ → Arg
  arg_i32 arg_i64 : ℤ → Arg
  arg_f32 arg_f64 : ℕ → Arg

-- "*T:16" is a pointer, "T" a scalar, and anything else is a constexpr literal.
pub data SigItem : Type 0 where
  pointer scalar : Scalar → SigItem
  number : ℤ → SigItem
  flag : Bool → SigItem
  text : String → SigItem

-- One request: what jit::launch hands to launch_with_raw_args.
pub record Launch : Type 0 where
  pub module_path : String
  pub kernel_name : String
  pub signature : List SigItem
  pub stream : ℕ
  pub grid_x : ℤ
  pub grid_y : ℤ
  pub grid_z : ℤ
  pub num_warps : ℕ
  pub num_stages : ℕ
  pub args : List Arg

-- An argument of the kind that a runtime item of the signature announces.
abbrev pub fits : SigItem → Arg → Bool
fits (pointer t) (device_ptr p) = true
fits (scalar i32) (arg_i32 v) = true
fits (scalar i64) (arg_i64 v) = true
fits (scalar fp32) (arg_f32 v) = true
fits (scalar fp64) (arg_f64 v) = true
fits _ _ = false

-- The arguments are those of the signature's pointers and scalars, in order; a constexpr literal
-- takes no argument.
unfoldable pub agrees : List SigItem → List Arg → Bool
agrees [] [] = true
agrees [] (a ∷ rest) = false
agrees (number n ∷ items) rest = agrees items rest
agrees (flag b ∷ items) rest = agrees items rest
agrees (text s ∷ items) rest = agrees items rest
agrees (pointer t ∷ items) [] = false
agrees (pointer t ∷ items) (a ∷ rest) = fits (pointer t) a && agrees items rest
agrees (scalar t ∷ items) [] = false
agrees (scalar t ∷ items) (a ∷ rest) = fits (scalar t) a && agrees items rest

abbrev pub Agrees : Launch → Type 0
Agrees r = agrees r.signature r.args ≡ true

-- std::to_string: an int64_t has at most 19 digits.
digit : ℕ → String
digit zero = "0"
digit (suc zero) = "1"
digit (suc (suc zero)) = "2"
digit (suc (suc (suc zero))) = "3"
digit (suc (suc (suc (suc zero)))) = "4"
digit (suc (suc (suc (suc (suc zero))))) = "5"
digit (suc (suc (suc (suc (suc (suc zero)))))) = "6"
digit (suc (suc (suc (suc (suc (suc (suc zero))))))) = "7"
digit (suc (suc (suc (suc (suc (suc (suc (suc zero)))))))) = "8"
digit _ = "9"

digits_of : ℕ → ℕ → String
digits_of zero n = ""
digits_of (suc f) n =
    let rest = digits_of f (n / 10) in
    if ltb n 10 then digit n else str_append rest (digit (n % 10))

decimal : ℕ → String
unfolding digits_of digit
decimal = digits_of 20

pub render_item : SigItem → String
render_item (pointer t) = str_append "*" (str_append (spelling t) ":16")
render_item (scalar t) = spelling t
render_item (number (pos n)) = decimal n
render_item (number (negsuc n)) = str_append "-" (decimal (suc n))
render_item (flag true) = "True"
render_item (flag false) = "False"
render_item (text s) = s

-- The items with commas between.
unfoldable pub render : List SigItem → String
unfolding render_item decimal
render [] = ""
render (x ∷ []) = render_item x
render (x ∷ y ∷ rest) = str_append (render_item x) (str_append "," (render (y ∷ rest)))
