-- ===== src/Kernel/Crypto.antt =====
-- kernel/drivers/deepspan/deepspan_crc32_shash.c: the algorithm's descriptor, and the module that
-- registers it. What the crypto API holds is the list of the algorithms that are registered; what
-- crypto_register_shash answers is given.
use deepspan.Common.{ℕ, zero, suc, ◌≡◌, refl, List, [], ◌∷◌, length}
use deepspan.Common.Bytes.{le32}
use deepspan.Userlib.AsyncClient.{ℤ, pos, negsuc}
use deepspan.Server.StrMap.{Str, cmp, equal}
use deepspan.Plugin.Object.{bytes_of}
use deepspan.Kernel.Shash.{Ctx, digestsize, final}

-- struct shash_alg, without its callbacks.
pub record ShashAlg : Type 0 where
  pub digestsize : ℕ
  pub descsize : ℕ
  pub cra_name : Str
  pub cra_driver_name : Str
  pub cra_priority : ℕ
  pub cra_blocksize : ℕ

-- sizeof(struct deepspan_crc32_ctx) is 4.
abbrev pub deepspan_crc32_alg : ShashAlg
deepspan_crc32_alg = record {
  digestsize = digestsize;
  descsize = 4;
  cra_name = bytes_of "crc32";
  cra_driver_name = bytes_of "crc32-deepspan";
  cra_priority = 200;
  cra_blocksize = 1;
}

-- An answer other than 0 is an error, and nothing is registered.
unfoldable pub mod_init : List ShashAlg → ℤ → List ShashAlg × ℤ
mod_init algs (pos zero) = (deepspan_crc32_alg ∷ algs, pos 0)
mod_init algs (pos (suc n)) = (algs, pos (suc n))
mod_init algs (negsuc n) = (algs, negsuc n)

unfoldable pub without : Str → List ShashAlg → List ShashAlg
without driver [] = []
without driver (a ∷ algs) =
    let rest = without driver algs in
    elim (cmp a.cra_driver_name driver) [ equal ↦ algs | _ ↦ a ∷ rest ]

unfoldable pub mod_exit : List ShashAlg → List ShashAlg
mod_exit algs = without deepspan_crc32_alg.cra_driver_name algs

-- Loading the module and unloading it leaves the algorithms that were registered before, and a
-- failed registration leaves them too; what `final` writes fills a digest of the registered size.
pub mod_init-exit :
    (algs : List ShashAlg) (ctx : Ctx)
    → (mod_exit (mod_init algs (pos 0)).0 ≡ algs)
      × ((n : ℕ) → mod_init algs (negsuc n) ≡ (algs, negsuc n))
      × (length (final ctx) ≡ deepspan_crc32_alg.digestsize)
unfolding mod_exit mod_init without cmp final le32
mod_init-exit algs ctx = (refl, λ n. refl, refl)
