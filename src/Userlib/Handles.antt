-- ===== src/Userlib/Handles.antt =====
-- Whole pools: device_pool.cpp's DevicePool::create, which opens a device and a ring for each path.
pub mod Leaks
pub mod Outcome
use deepspan.Common.{
  ℕ, zero, suc, ◌+◌, ◌<◌, ◌≡◌, refl, sym, ap, ◌∙◌, Bool, true, false, if◌then◌else◌, ◌==◌, ltb,
  Option, none, some, List, [], ◌∷◌, ◌++◌, length, arith,
}
use deepspan.Userlib.AsyncClient.{
  Error, Expected, unexpected, expected, unsupported_kernel_version, io_error, device_open_failed,
  iouring_setup_failed,
}
use deepspan.Userlib.Device.{
  Os, Answers, DeepspanDevice, AsyncClient, open_device, destroy_device, create_client,
  destroy_client, remove,
}

pub record Entry : Type 0 where
  pub device : DeepspanDevice
  pub client : AsyncClient
  pub in_use : Bool

-- ~vector<Entry>: of each entry first the client goes, then the device.
unfoldable pub destroy_entries : Os → List Entry → Os
destroy_entries os [] = os
destroy_entries os (e ∷ es) =
    destroy_entries (destroy_device (destroy_client os e.client) e.device) es

unfoldable pub add_client :
    Os × Expected AsyncClient → DeepspanDevice → List Entry → Os × Expected (List Entry)
add_client (os, unexpected e) dev entries =
    (destroy_entries (destroy_device os dev) entries, unexpected e)
add_client (os, expected client) dev entries =
    (os, expected (entries ++ record { device = dev; client = client; in_use = false } ∷ []))

-- The body of the loop: a failure returns, which destroys the locals.
unfoldable pub add_entry :
    Answers → Os × Expected DeepspanDevice → List Entry → Os × Expected (List Entry)
add_entry a (os, unexpected e) entries = (destroy_entries os entries, unexpected e)
add_entry a (os, expected dev) entries = add_client (create_client os a dev) dev entries

-- A failure ends the loop.
unfoldable pub next :
    Os × Expected (List Entry)
    → (Os → List Entry → Os × Expected (List Entry))
    → Os × Expected (List Entry)
next (os, unexpected e) continue = (os, unexpected e)
next (os, expected entries) continue = continue os entries

-- The loop over the paths, each with what the kernel answers for it.
unfoldable pub create_loop : Os → List Answers → List Entry → Os × Expected (List Entry)
create_loop os [] entries = (os, expected entries)
create_loop os (a ∷ answers) entries =
    next (add_entry a (open_device os a) entries)
      (λ (os' : Os) (entries' : List Entry). create_loop os' answers entries')

unfoldable pub create : Os → List Answers → Os × Expected (List Entry)
create os answers = create_loop os answers []
