-- ===== src/Types/Sizes.antt =====
-- What src/core/dtype.cpp's tables have to do with one another.
use cwapper.Base.{◌≡◌, ◌*◌, arith, if◌then◌else◌, true, false, ◌↔◌}
use cwapper.Types.{DataType, dtype_size, component_dtype, is_complex, triton_dtype, is_unspelled}

-- A complex scalar is two components, and every other type is its own component: the element size
-- is the size of the component, twice over exactly for a complex type. A component is never
-- complex, and has a Triton spelling exactly if the type has a size.
dtype_size-component :
    (t : DataType)
    → (dtype_size t ≡ (if is_complex t then 2 else 1) * dtype_size (component_dtype t))
      × (is_complex (component_dtype t) ≡ false)
      × ((is_unspelled (triton_dtype (component_dtype t)) ≡ true) ↔ (dtype_size t ≡ 0))
unfolding dtype_size component_dtype is_complex triton_dtype
dtype_size-component t = ground arith
