-- ===== src/Tests/Rpc.antt =====
-- One crc32 device: the hw-model of the plugin tests under the first name.
use deepspan.Common.{
  ℕ, ◌+◌, ◌*◌, ◌%◌, ◌^◌, ◌≡◌, refl, inr, [], ◌∷◌, ◌++◌, take, arith, List, some, none, Option, ltb,
}
use deepspan.Crc32.{op_compute}
use deepspan.Crc32.Serial.{serial_crc32}
use deepspan.Crc32.Handler.{crc32_handler, crc32_handler_unknown}
use deepspan.Plugin.{pack_response, dma_max_len, crc32_prepare, fixed_args}
use deepspan.Plugin.Object.{
  World, Kind, Backing, absent, backed, accel, crc32, type_name, class_name, bytes_of, shm_name,
  registrar, prepare,
}
use deepspan.Server.StrMap.{Str, cmp, equal, find, insert}
use deepspan.Server.Decimal.{decimal, to_decimal, parse_device_index-to_decimal}
use deepspan.Server.DeviceIndex.{parse_device_index}
use deepspan.Server.Registry.{Registry, dev_id, pos, slash}
use deepspan.Server.HwipService.{ok, internal, submit_request, list_devices}
use deepspan.Server.Rpc.{submit_request-errors}
use deepspan.Server.Rpc.Response.{IsTimely, submit_request-reply}
use deepspan.Server.Rpc.Compute.{submit_request-compute}
use deepspan.Server.Rpc.{IsLoaded}
use deepspan.Server.Rpc.Loading.{
  PluginEvent, loads, unloads, after, handle_of, load, dlopen, unload, close_all,
}
use deepspan.Server.Rpc.Loading
use deepspan.Server.Rpc.Loading.Counting.{factory_if, after-registered, never_unloaded}
use deepspan.Server.Plugins
use deepspan.Server.Plugins.{
  load_plugin, unload_plugin, unload_loop, unload_entry, contains, is_prefix, last_or, matching,
}
use deepspan.Server.Rpc.Listed.{shown, list_devices-shown}
use deepspan.Tests.Plugin.{idle_hw, idle_hw-Waits, writes, works}

abbrev one_page : Str → Backing
one_page name = elim (cmp name (shm_name 0)) [ equal ↦ backed idle_hw | _ ↦ absent ]

abbrev one_device : World
one_device = record { found = one_page; handler = crc32_handler; turns = writes ++ works }

abbrev no_plugins : Registry
no_plugins = record { factories = [] }

-- The libraries at "a.so" and "c.so".
abbrev libraries : Str → Option Kind
libraries path = elim (cmp path (bytes_of "a.so")) [
  | equal ↦ some accel
  | _ ↦ elim (cmp path (bytes_of "c.so")) [ equal ↦ some crc32 | _ ↦ none ]
]

-- Both plugins are loaded, and what is called "a" is closed and loaded again.
abbrev both : List PluginEvent
both =
    loads (bytes_of "a.so")
    ∷ unloads (bytes_of "a")
    ∷ loads (bytes_of "c.so")
    ∷ loads (bytes_of "a.so")
    ∷ []

abbrev loaded : Registry
loaded = (after one_device libraries both).registry

found_c : find (bytes_of "c.so") (after one_device libraries both).handles ≡ some (handle_of crc32)
unfolding find after load load_plugin dlopen unload unload_plugin unload_loop unload_entry contains
    is_prefix cmp insert close_all Loading.dlclose Plugins.dlclose
found_c = refl

found_a : find (bytes_of "a.so") (after one_device libraries both).handles ≡ some (handle_of accel)
unfolding find after load load_plugin dlopen unload unload_plugin unload_loop unload_entry contains
    is_prefix cmp insert close_all Loading.dlclose Plugins.dlclose
found_a = refl

library_a : libraries (bytes_of "a.so") ≡ some accel
unfolding cmp
library_a = refl

after-registered_example :
    let s = after one_device libraries both in
    (find (type_name crc32) s.registry.factories
      ≡ factory_if (ltb 0 (s.opens crc32)) one_device crc32)
    × ((path : Str)
        → find path s.handles ≡ some (handle_of crc32)
        → IsLoaded one_device crc32 s.registry)
    × ((path : Str)
        → libraries path ≡ some crc32
        → find path (after one_device libraries (loads path ∷ both)).handles
          ≡ some (handle_of crc32))
    × ((ty : Str)
        → last_or none (matching ty s.handles) ≡ some (handle_of crc32)
        → s.opens crc32 ≡ 1
        → find (type_name crc32) (after one_device libraries (unloads ty ∷ both)).registry.factories
          ≡ none)
after-registered_example = after-registered one_device libraries both crc32

both-crc32 : IsLoaded one_device crc32 loaded
both-crc32 = (after-registered one_device libraries both crc32).1 (bytes_of "c.so") found_c

both-accel : IsLoaded one_device accel loaded
both-accel = (after-registered one_device libraries both accel).1 (bytes_of "a.so") found_a

-- "a.so" is loaded twice, and then "a" is unloaded three times.
abbrev three_unloads : List PluginEvent
three_unloads = unloads (bytes_of "a") ∷ unloads (bytes_of "a") ∷ unloads (bytes_of "a") ∷ []

never_unloaded_example :
    IsLoaded one_device accel
      (after one_device libraries
        (three_unloads ++ loads (bytes_of "a.so") ∷ loads (bytes_of "a.so") ∷ [])).registry
never_unloaded_example =
    never_unloaded one_device libraries three_unloads [] (bytes_of "a.so") accel library_a

abbrev hash : Str → ℕ
hash [] = 0
hash (c ∷ s) = 31 * hash s + c

one_device-IsTimely : IsTimely one_device
one_device-IsTimely = record {
  writing = writes;
  working = works;
  whole = refl;
  writes = omega arith;
  works = omega arith;
  polls = omega arith;
}

first_found : one_device.found (shm_name 0) ≡ backed idle_hw
unfolding cmp shm_name decimal to_decimal
first_found = refl

second_absent : one_device.found (shm_name 1) ≡ absent
unfolding cmp shm_name decimal to_decimal
second_absent = refl

submit_request-compute_example :
    submit_request hash loaded (dev_id (type_name crc32) 0) op_compute (bytes_of "123456789")
    ≡ ok (
      hash (dev_id (type_name crc32) 0 ++ bytes_of "-1") % 2 ^ 32,
      pack_response (serial_crc32 (take dma_max_len (bytes_of "123456789"))) 0,
    )
submit_request-compute_example =
    submit_request-compute hash loaded one_device 0 idle_hw (bytes_of "123456789") both-crc32
      (omega arith) first_found refl one_device-IsTimely idle_hw-Waits (ground arith)

submit_request-errors_example :
    submit_request hash loaded (dev_id (type_name accel) 1) 1 []
    ≡ internal (class_name accel ++ bytes_of ": SHM not mapped for " ++ dev_id (type_name accel) 1)
submit_request-errors_example =
    (submit_request-errors hash loaded one_device accel 1 [] both-accel).0 1 (omega arith)
      second_absent

list_devices-shown_example :
    list_devices (registrar one_device crc32 no_plugins) ≡ shown crc32 (λ i. idle_hw) 1 0
list_devices-shown_example =
    list_devices-shown one_device crc32 (λ i. idle_hw) 1 (omega arith) (first_found, tt)
      (inr second_absent)

refused :
    let (c, p) = prepare crc32 9 [] idle_hw.page in
    crc32_handler p.dma c.opcode c.arg0 c.arg1 ≡ some (record { status = 1; data0 = 0; data1 = 0 })
unfolding prepare crc32_prepare fixed_args
refused = crc32_handler_unknown idle_hw.page.dma 9 0 0 (omega arith) (omega arith)

-- An opcode that the crc32 dispatch refuses with status 1.
submit_request-reply_example :
    submit_request hash loaded (dev_id (type_name crc32) 0) 9 []
    ≡ ok (
      hash (dev_id (type_name crc32) 0 ++ bytes_of "-" ++ to_decimal 9) % 2 ^ 32,
      pack_response 0 0,
    )
submit_request-reply_example =
    submit_request-reply hash loaded one_device crc32 0 9 idle_hw []
      (record { status = 1; data0 = 0; data1 = 0 }) both-crc32 (omega arith) first_found
      one_device-IsTimely idle_hw-Waits refused

parse_device_index-to_decimal_example :
    parse_device_index (bytes_of "crc32" ++ slash ∷ to_decimal 2_147_483_647) ≡ pos 2_147_483_647
parse_device_index-to_decimal_example =
    parse_device_index-to_decimal (bytes_of "crc32") 2_147_483_647 (omega arith)
