-- ===== src/Tests/Server.antt =====
-- A registry with one plugin, and a reset of the device of the plugin tests.
use deepspan.Common.{arith, ◌≡◌, ◌↔◌, refl, ◌++◌, true, false, none, some, [], ◌∷◌}
use deepspan.Server.StrMap.{Str}
use deepspan.Server.Registry.{
  pos, threw, returned, Submitter, SubmitterFactory, Registry, register_type, slash,
}
use deepspan.Server.HwipService.{list_devices, parse_device_id, is_empty}
use deepspan.Server.HwipService.Parse.{has_slash, parse_device_id_iff}
use deepspan.Server.Listing.{empty, registered, All, Agrees, listed_devices_agree}
use deepspan.Shm.Ctrl.{has_reset, set_reset}
use deepspan.HwModel.{default_handler, hw_steps}
use deepspan.Server.Mgmt.{reset_device, reset_stays}
use deepspan.Shm.{Page}
use deepspan.Tests.Plugin.{idle_hw, zero_page}
use deepspan.Server.Plugins.{
  Handles, unload_plugin, matching, others, last_or, dlclose, unload_plugin-last,
}

-- "ab"
abbrev ab : Str
ab = 97 ∷ 98 ∷ []

abbrev ready_device : Submitter
ready_device = record {
  submit = λ opcode bytes. returned (record { request_id = ab; response_data = bytes });
  device_state = returned (pos 2);
}

-- The indices of one digit have a device.
abbrev factory : SubmitterFactory
factory (a ∷ b ∷ s ∷ i ∷ []) = returned (some ready_device)
factory _ = threw []

abbrev one_plugin : Registry
one_plugin = register_type (record { factories = [] }) ab factory

listed_devices_agree_example : All (Agrees one_plugin) (list_devices one_plugin)
listed_devices_agree_example =
    listed_devices_agree (registered ab factory empty (unfold has_slash in refl) refl)

parse_device_id_iff_example : (parse_device_id (ab ++ slash ∷ 48 ∷ []) ≡ some (ab, 48 ∷ [])) ↔ (
    (ab ++ slash ∷ 48 ∷ [] ≡ ab ++ slash ∷ 48 ∷ [])
    × (has_slash ab ≡ false)
    × (is_empty ab ≡ false)
    × (is_empty (48 ∷ []) ≡ false))
parse_device_id_iff_example = parse_device_id_iff (ab ++ slash ∷ 48 ∷ []) ab (48 ∷ [])

abbrev reset_page : Page
reset_page = record zero_page { regs = record zero_page.regs { ctrl = set_reset 0 } }

reset_stays_example :
    has_reset (hw_steps default_handler 1000 (record idle_hw { page = reset_page })).page.regs.ctrl
    ≡ true
reset_stays_example =
    reset_stays default_handler idle_hw reset_page 1000 (omega arith) (unfold reset_device in refl)

-- The paths "ab." and "lab.", both loaded.
abbrev two_plugins : Handles
two_plugins = (97 ∷ 98 ∷ 46 ∷ [], 7) ∷ (108 ∷ 97 ∷ 98 ∷ 46 ∷ [], 8) ∷ []

unload_plugin-last_example :
    unload_plugin ab two_plugins
    ≡ (others ab two_plugins, dlclose (last_or none (matching ab two_plugins)))
unload_plugin-last_example = unload_plugin-last ab two_plugins
