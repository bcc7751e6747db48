-- ===== src/Shm/Access.antt =====
-- Accesses to the registers by their byte offsets, as the plugins, the server and the firmware make
-- them, beside the members of `RegMap` that the hw-model uses for the same bytes.
use deepspan.Common.{
  ℕ, zero, suc, ◌+◌, ◌*◌, ◌/◌, ◌%◌, ◌^◌, ◌<◌, ◌≤◌, ◌≡◌, ◌≢◌, ◌⊎◌, inl, inr, refl, sym, subst, ◌∙◌,
  Option, none, some, List, [], ◌∷◌, length, get_or, set, length-set, arith,
}
use deepspan.Shm.{RegMap}
use deepspan.Shm.Layout.{
  Reg, ctrl, status, irq_status, irq_enable, version, capabilities, cmd_opcode, cmd_arg0, cmd_arg1,
  cmd_flags, result_status, result_data0, result_data1, struct_offset, Part, offset_in,
  offset_in-struct_offset, struct_offset-apart, struct_offset-total,
}

-- A little-endian uint32_t load and store.
unfoldable pub load32 : ℕ → List ℕ → ℕ
load32 o bytes =
    get_or bytes o 0
    + 2 ^ 8 * get_or bytes (o + 1) 0
    + 2 ^ 16 * get_or bytes (o + 2) 0
    + 2 ^ 24 * get_or bytes (o + 3) 0

unfoldable pub store32 : ℕ → ℕ → List ℕ → List ℕ
store32 o v bytes =
    set (set (set (set bytes o (v % 256)) (o + 1) (v / 2 ^ 8 % 256)) (o + 2) (v / 2 ^ 16 % 256))
      (o + 3) (v / 2 ^ 24 % 256)

unfoldable pub get : Reg → RegMap → ℕ
get ctrl m = m.ctrl
get status m = m.status
get irq_status m = m.irq_status
get irq_enable m = m.irq_enable
get version m = m.version
get capabilities m = m.capabilities
get cmd_opcode m = m.cmd_opcode
get cmd_arg0 m = m.cmd_arg0
get cmd_arg1 m = m.cmd_arg1
get cmd_flags m = m.cmd_flags
get result_status m = m.result_status
get result_data0 m = m.result_data0
get result_data1 m = m.result_data1

unfoldable pub put : Reg → ℕ → RegMap → RegMap
put ctrl v m = record m { ctrl = v }
put status v m = record m { status = v }
put irq_status v m = record m { irq_status = v }
put irq_enable v m = record m { irq_enable = v }
put version v m = record m { version = v }
put capabilities v m = record m { capabilities = v }
put cmd_opcode v m = record m { cmd_opcode = v }
put cmd_arg0 v m = record m { cmd_arg0 = v }
put cmd_arg1 v m = record m { cmd_arg1 = v }
put cmd_flags v m = record m { cmd_flags = v }
put result_status v m = record m { result_status = v }
put result_data0 v m = record m { result_data0 = v }
put result_data1 v m = record m { result_data1 = v }

word_at : Option ℕ → List ℕ → ℕ
word_at none bytes = 0
word_at (some o) bytes = load32 o bytes

-- The member of the struct that lies on the bytes.
pub member : Reg → List ℕ → ℕ
member r bytes = word_at (struct_offset r) bytes

-- The struct that lies on the bytes.
pub regs_of : List ℕ → RegMap
regs_of bytes = record {
  ctrl = member ctrl bytes;
  status = member status bytes;
  irq_status = member irq_status bytes;
  irq_enable = member irq_enable bytes;
  version = member version bytes;
  capabilities = member capabilities bytes;
  cmd_opcode = member cmd_opcode bytes;
  cmd_arg0 = member cmd_arg0 bytes;
  cmd_arg1 = member cmd_arg1 bytes;
  cmd_flags = member cmd_flags bytes;
  result_status = member result_status bytes;
  result_data0 = member result_data0 bytes;
  result_data1 = member result_data1 bytes;
}

get_or-set : (xs : List ℕ) (i v : ℕ) → i < length xs → get_or (set xs i v) i 0 ≡ v
get_or-set [] i v h = absurd (omega arith)
get_or-set (x ∷ xs) zero v h = refl
get_or-set (x ∷ xs) (suc i) v h = get_or-set xs i v (omega arith)

get_or-set_other : (xs : List ℕ) (i j v : ℕ) → i ≢ j → get_or (set xs i v) j 0 ≡ get_or xs j 0
get_or-set_other [] i j v h = refl
get_or-set_other (x ∷ xs) zero zero v h = absurd (h refl)
get_or-set_other (x ∷ xs) zero (suc j) v h = refl
get_or-set_other (x ∷ xs) (suc i) zero v h = refl
get_or-set_other (x ∷ xs) (suc i) (suc j) v h =
    get_or-set_other xs i j v (λ e. h (omega (arith, e)))

module _ (o v : ℕ) (bytes : List ℕ) where
  b1 : List ℕ
  b1 = set bytes o (v % 256)

  b2 : List ℕ
  b2 = set b1 (o + 1) (v / 2 ^ 8 % 256)

  b3 : List ℕ
  b3 = set b2 (o + 2) (v / 2 ^ 16 % 256)

  store32-other :
      (i : ℕ) → (i < o) ⊎ (o + 4 ≤ i) → get_or (store32 o v bytes) i 0 ≡ get_or bytes i 0
  unfolding store32 b1 b2 b3
  store32-other i h =
      get_or-set_other b3 (o + 3) i _ (λ e. omega arith)
      ∙ get_or-set_other b2 (o + 2) i _ (λ e. omega arith)
      ∙ get_or-set_other b1 (o + 1) i _ (λ e. omega arith)
      ∙ get_or-set_other bytes o i _ (λ e. omega arith)

  load32-store32_other :
      (q : ℕ) → (o + 4 ≤ q) ⊎ (q + 4 ≤ o) → load32 q (store32 o v bytes) ≡ load32 q bytes
  unfolding load32
  load32-store32_other q h = omega (
    arith,
    store32-other q (ground arith),
    store32-other (q + 1) (ground arith),
    store32-other (q + 2) (ground arith),
    store32-other (q + 3) (ground arith),
  )

  load32-store32 : v < 2 ^ 32 → o + 4 ≤ length bytes → load32 o (store32 o v bytes) ≡ v
  unfolding load32 store32 b1 b2 b3
  load32-store32 h l =
      let l1 = length-set bytes o (v % 256) in
      let l2 = length-set b1 (o + 1) (v / 2 ^ 8 % 256) in
      let l3 = length-set b2 (o + 2) (v / 2 ^ 16 % 256) in
      let x0 =
        get_or-set_other b3 (o + 3) o (v / 2 ^ 24 % 256) (λ e. omega arith)
        ∙ get_or-set_other b2 (o + 2) o (v / 2 ^ 16 % 256) (λ e. omega arith)
        ∙ get_or-set_other b1 (o + 1) o (v / 2 ^ 8 % 256) (λ e. omega arith)
        ∙ get_or-set bytes o (v % 256) (omega arith) in
      let x1 =
        get_or-set_other b3 (o + 3) (o + 1) (v / 2 ^ 24 % 256) (λ e. omega arith)
        ∙ get_or-set_other b2 (o + 2) (o + 1) (v / 2 ^ 16 % 256) (λ e. omega arith)
        ∙ get_or-set b1 (o + 1) (v / 2 ^ 8 % 256) (omega arith) in
      let x2 =
        get_or-set_other b3 (o + 3) (o + 2) (v / 2 ^ 24 % 256) (λ e. omega arith)
        ∙ get_or-set b2 (o + 2) (v / 2 ^ 16 % 256) (omega arith) in
      let x3 = get_or-set b3 (o + 3) (v / 2 ^ 24 % 256) (omega arith) in
      omega (arith, x0, x1, x2, x3)

get-regs_of : (j : Reg) (bytes : List ℕ) → get j (regs_of bytes) ≡ member j bytes
unfolding get regs_of
get-regs_of j bytes = ground arith

get-put : (r : Reg) (v : ℕ) (m : RegMap) → get r (put r v m) ≡ v
unfolding get put
get-put r v m = ground arith

get-put_other : (r j : Reg) (v : ℕ) (m : RegMap) → r ≢ j → get j (put r v m) ≡ get j m
unfolding get put
get-put_other r j v m h = ground arith

RegMap-ext : (x y : RegMap) → ((j : Reg) → get j x ≡ get j y) → x ≡ y
unfolding get
RegMap-ext x y h = ground (
  arith,
  h ctrl,
  h status,
  h irq_status,
  h irq_enable,
  h version,
  h capabilities,
  h cmd_opcode,
  h cmd_arg0,
  h cmd_arg1,
  h cmd_flags,
  h result_status,
  h result_data0,
  h result_data1,
)

member-load32 :
    (r : Reg) (o : ℕ) (bytes : List ℕ) → struct_offset r ≡ some o → member r bytes ≡ load32 o bytes
unfolding member word_at
member-load32 r o bytes e = rw e refl

-- A member after a store to one: the value if it is that one, and else what it was.
get-store32 :
    (r j : Reg) (o q v : ℕ) (bytes : List ℕ)
    → struct_offset r ≡ some o
    → struct_offset j ≡ some q
    → v < 2 ^ 32
    → 0x200 ≤ length bytes
    → get j (regs_of (store32 o v bytes)) ≡ get j (put r v (regs_of bytes))
get-store32 r j o q v bytes e f h l =
    let (inside, apart) = struct_offset-apart r j o q e f in
    get-regs_of j (store32 o v bytes) ∙ elim apart [
      | inl same ↦
          subst (λ (i : Reg). member i (store32 o v bytes) ≡ get i (put r v (regs_of bytes))) same
            (member-load32 r o (store32 o v bytes) e
              ∙ load32-store32 o v bytes h (omega (arith, inside))
              ∙ sym (get-put r v (regs_of bytes)))
      | inr (differ, other) ↦
          member-load32 j q (store32 o v bytes) f
          ∙ load32-store32_other o v bytes q other
          ∙ sym (member-load32 j q bytes f)
          ∙ sym (get-regs_of j bytes)
          ∙ sym (get-put_other r j v (regs_of bytes) differ)
    ]

-- Every part that has an offset for a register, be it one of the six generated headers, a driver of
-- the firmware, the kernel's header or the server: a 32-bit load at the offset gives the member of
-- that name of the struct that the hw-model lays over the same bytes, and a store there sets that
-- member and leaves the twelve others, in a page that has room for the struct.
pub access_agrees :
    (p : Part) (r : Reg) (o v : ℕ) (bytes : List ℕ)
    → offset_in p r ≡ some o
    → v < 2 ^ 32
    → 0x200 ≤ length bytes
    → (load32 o bytes ≡ get r (regs_of bytes))
      × (regs_of (store32 o v bytes) ≡ put r v (regs_of bytes))
access_agrees p r o v bytes e h l =
    let at : struct_offset r ≡ some o = offset_in-struct_offset p r o e in
    (
      sym (member-load32 r o bytes at) ∙ sym (get-regs_of r bytes),
      RegMap-ext (regs_of (store32 o v bytes)) (put r v (regs_of bytes))
          (λ j. let (q, f) = struct_offset-total j in get-store32 r j o q v bytes at f h l),
    )
