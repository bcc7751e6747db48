-- ===== src/Crc32/Base.antt =====
-- The base pointer of hwip/crc32/hw-model/src/crc32_hw_model.cpp: a global that
-- deepspan_crc32_set_shm_base sets and COMPUTE reads, both under its mutex, so that the calls of
-- all threads have an order.
use deepspan.Common.{ℕ, ◌≡◌, refl, ap, ◌∙◌, Option, none, some, List, [], ◌∷◌, ◌++◌}
use deepspan.Crc32.{
  Dispatched, rc_zero, rc_minus_one, op_compute, op_get_poly, poly, dispatch, dispatch_compute,
}

-- The DMA bytes of the page that a base pointer is of, `none` for null.
abbrev pub Base : Type 0
Base = Option (List ℕ)

-- g_shm_base of a library that was just loaded.
abbrev pub initial : Base
initial = none

pub data Call : Type 0 where
  set_shm_base : Base → Call
  dispatching : ℕ → ℕ → ℕ → Call

unfoldable pub after : Base → Call → Base
after base (set_shm_base base') = base'
after base (dispatching opcode arg0 arg1) = base

-- What the dispatches among the calls return, in their order.
unfoldable pub returns : Base → List Call → List (Option Dispatched)
unfolding after
returns base [] = []
returns base (set_shm_base base' ∷ calls) = returns base' calls
returns base (dispatching opcode arg0 arg1 ∷ calls) =
    dispatch base opcode arg0 arg1 ∷ returns base calls

unfoldable pub latest : Base → List Call → Base
unfolding after
latest base [] = base
latest base (c ∷ calls) = latest (after base c) calls

-- A dispatch works on the page that was set last, whoever set it, and what other dispatches have
-- done before makes no difference to it.
pub returns-append :
    (base : Base) (calls : List Call) (opcode arg0 arg1 : ℕ)
    → returns base (calls ++ dispatching opcode arg0 arg1 ∷ [])
      ≡ returns base calls ++ dispatch (latest base calls) opcode arg0 arg1 ∷ []
unfolding returns latest after
returns-append base [] opcode arg0 arg1 = refl
returns-append base (set_shm_base base' ∷ calls) opcode arg0 arg1 =
    returns-append base' calls opcode arg0 arg1
returns-append base (dispatching o a b ∷ calls) opcode arg0 arg1 =
    ap (λ xs. dispatch base o a b ∷ xs) (returns-append base calls opcode arg0 arg1)

-- Before any page is set, or after null was, COMPUTE of any length fails, of zero too, and
-- GET_POLY gives the polynomial.
pub returns-null :
    (base : Base) (calls : List Call) (arg0 arg1 : ℕ)
    → latest base calls ≡ none
    → (returns base (calls ++ dispatching op_compute arg0 arg1 ∷ [])
        ≡ returns base calls ++ some (record { rc = rc_minus_one; r0 = 0; r1 = 0 }) ∷ [])
      × (returns base (calls ++ dispatching op_get_poly arg0 arg1 ∷ [])
          ≡ returns base calls ++ some (record { rc = rc_zero; r0 = poly; r1 = 0 }) ∷ [])
unfolding dispatch dispatch_compute
returns-null base calls arg0 arg1 e = (
  returns-append base calls op_compute arg0 arg1
      ∙ ap (λ b. returns base calls ++ dispatch b op_compute arg0 arg1 ∷ []) e,
  returns-append base calls op_get_poly arg0 arg1,
)
