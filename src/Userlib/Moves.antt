-- ===== src/Userlib/Moves.antt =====
-- The move constructors and assignments of device.cpp and async_client.cpp in runtime/userlib/src,
-- on the objects of a process. An object is told by its place in a list, so that an assignment can
-- be one of an object to itself.
pub mod Once
use deepspan.Common.{
  ℕ, zero, suc, ◌+◌, ◌≡◌, ◌≢◌, refl, Bool, true, false, ◌==◌, if◌then◌else◌, Option, none, some,
  List, [], ◌∷◌, ◌++◌, set, arith,
}
use deepspan.Userlib.Device.{
  Os, DeepspanDevice, AsyncClient, close_if, destroy_device, queue_exit, destroy_client,
}
use deepspan.Userlib.Handles.Leaks.{
  held, count, Balance, destroy_device-Balance, destroy_client-Balance,
}

pub record Objects : Type 0 where
  pub os : Os
  pub devices : List DeepspanDevice
  pub clients : List AsyncClient

abbrev pub moved_device : DeepspanDevice
moved_device = record { fd = none; kernel_uapi_version = 0 }

-- The moved-from client keeps its copy of the ring, no longer initialized.
abbrev pub moved_client : AsyncClient
moved_client = record { ring = none; device_fd = none }

module _ {A : Type 0} where
  -- `none` where there is no such object.
  unfoldable pub object_at : ℕ → List A → Option A
  object_at i [] = none
  object_at zero (x ∷ xs) = some x
  object_at (suc i) (x ∷ xs) = object_at i xs

-- The constructor's new object stands last.
unfoldable pub construct_device : ℕ → Option DeepspanDevice → Objects → Objects
construct_device other none s = s
construct_device other (some d) s = record s {
  devices = set s.devices other moved_device ++ d ∷ [];
}

unfoldable pub move_device : ℕ → Objects → Objects
move_device other s = construct_device other (object_at other s.devices) s

-- The body of operator=, on two different objects.
unfoldable pub replace_device :
    ℕ → ℕ → Option DeepspanDevice → Option DeepspanDevice → Objects → Objects
replace_device this other (some d) (some e) s = record s {
  os = close_if s.os d.fd;
  devices = set (set s.devices this e) other moved_device;
}
replace_device this other _ _ s = s

unfoldable pub assign_device : ℕ → ℕ → Objects → Objects
assign_device this other s =
    if this == other
    then s
    else replace_device this other (object_at this s.devices) (object_at other s.devices) s

unfoldable pub construct_client : ℕ → Option AsyncClient → Objects → Objects
construct_client other none s = s
construct_client other (some c) s = record s {
  clients = set s.clients other moved_client ++ c ∷ [];
}

unfoldable pub move_client : ℕ → Objects → Objects
move_client other s = construct_client other (object_at other s.clients) s

unfoldable pub replace_client : ℕ → ℕ → Option AsyncClient → Option AsyncClient → Objects → Objects
replace_client this other (some c) (some d) s = record s {
  os = queue_exit s.os c.ring;
  clients = set (set s.clients this d) other moved_client;
}
replace_client this other _ _ s = s

unfoldable pub assign_client : ℕ → ℕ → Objects → Objects
assign_client this other s =
    if this == other
    then s
    else replace_client this other (object_at this s.clients) (object_at other s.clients) s

pub data Move : Type 0 where
  constructs_device constructs_client : ℕ → Move
  assigns_device assigns_client : ℕ → ℕ → Move

unfoldable pub move : Objects → Move → Objects
move s (constructs_device other) = move_device other s
move s (constructs_client other) = move_client other s
move s (assigns_device this other) = assign_device this other s
move s (assigns_client this other) = assign_client this other s

unfoldable pub run : Objects → List Move → Objects
run s [] = s
run s (m ∷ ms) = run (move s m) ms

-- The end of every object's life.
unfoldable pub destroy_devices : Os → List DeepspanDevice → Os
destroy_devices os [] = os
destroy_devices os (d ∷ ds) = destroy_devices (destroy_device os d) ds

unfoldable pub destroy_clients : Os → List AsyncClient → Os
destroy_clients os [] = os
destroy_clients os (c ∷ cs) = destroy_clients (destroy_client os c) cs

unfoldable pub destroy_objects : Objects → Os
destroy_objects s = destroy_devices (destroy_clients s.os s.clients) s.devices
