-- ===== src/Plugin/Mapping.antt =====
-- The constructor and destructor that accel_plugin.cpp and crc32_plugin.cpp in hwip/ share: the
-- device's page is opened and mapped. `index` is what `parse_index` makes of the device id.
use deepspan.Common.{ℕ, ◌+◌, ◌-◌, ◌≡◌, refl, ap, ◌∙◌, Bool, true, false, Option, none, some, arith}
use deepspan.Shm.{Page}
use deepspan.Server.Registry.{ℤ, pos, negsuc}

-- Open descriptors and mappings.
pub record Held : Type 0 where
  pub fds : ℕ
  pub maps : ℕ

-- A descriptor of -1 is `false`, a null `shm_base_` is `none`.
pub record Mapping : Type 0 where
  pub shm_fd : Bool
  pub shm_base : Option Page

pub data Constructed : Type 0 where
  throws : Constructed
  makes : Mapping → Constructed

-- From the mmap on; a failure closes the descriptor and throws.
unfoldable pub construct_map : Held → Option Page → Held × Constructed
construct_map k none = (record k { fds = k.fds - 1 }, throws)
construct_map k (some p) =
    (record k { maps = k.maps + 1 }, makes (record { shm_fd = true; shm_base = some p }))

-- `opens` is whether shm_open finds the page, and `mapped` what mmap gives.
unfoldable pub construct : Held → ℤ → Bool → Option Page → Held × Constructed
construct k (negsuc i) opens mapped = (k, throws)
construct k (pos i) false mapped = (k, makes (record { shm_fd = false; shm_base = none }))
construct k (pos i) true mapped = construct_map (record k { fds = k.fds + 1 }) mapped

unfoldable pub unmap : Held → Option Page → Held
unmap k none = k
unmap k (some p) = record k { maps = k.maps - 1 }

unfoldable pub close_shm : Held → Bool → Held
close_shm k false = k
close_shm k true = record k { fds = k.fds - 1 }

unfoldable pub destruct : Held → Mapping → Held
destruct k m = close_shm (unmap k m.shm_base) m.shm_fd

-- What is held when the object, if there is one, has gone.
unfoldable pub after_life : Held × Constructed → Held
after_life (k, throws) = k
after_life (k, makes m) = destruct k m

-- A plugin whose constructor throws holds nothing, and one that is made and destroyed releases
-- all it took, whether its page was there or not.
pub construct_releases :
    (k : Held) (index : ℤ) (opens : Bool) (mapped : Option Page)
    → after_life (construct k index opens mapped) ≡ k
unfolding after_life construct construct_map destruct unmap close_shm
construct_releases k (negsuc i) opens mapped = refl
construct_releases k (pos i) false mapped = refl
construct_releases k (pos i) true none = ap (λ (n : ℕ). record k { fds = n }) (omega arith)
construct_releases k (pos i) true (some p) =
    ap (λ (n : ℕ). record { fds = n; maps = k.maps + 1 - 1 }) (omega arith)
    ∙ ap (λ (n : ℕ). record { fds = k.fds; maps = n }) (omega arith)
