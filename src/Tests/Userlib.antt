-- ===== src/Tests/Userlib.antt =====
-- Three completions, and two paths of which the second cannot be opened.
use deepspan.Common.{arith, Option, ℕ, ◌≡◌, refl, ◌+◌, true, false, none, some, List, [], ◌∷◌}
use deepspan.Userlib.AsyncClient.{
  ℤ, pos, negsuc, io_error, device_open_failed, submit_failed, unexpected, expected, Callback,
  completion, submit_and_wait,
}
use deepspan.Userlib.AsyncClient.Reap.{last, submit_and_wait-last}
use deepspan.Userlib.Device.{
  Os, Answers, open_device, opened, query_version, accepted, create_client, client_on, queue_init,
  close_if, close, queue_exit, remove,
}
use deepspan.Userlib.Device.{destroy_device, destroy_client}
use deepspan.Userlib.Sync.{open_node, submit_sync, deepspan_fops, open_node-fails}
use deepspan.Userlib.Moves.{
  Objects, Move, constructs_device, constructs_client, assigns_device, assigns_client,
  assign_device, assign_client, run, destroy_objects,
}
use deepspan.Userlib.Moves.Once.{IsHeld, total, moves_keep}
use deepspan.Userlib.Handles.Leaks.{count}
use deepspan.Userlib.Handles.{
  Entry, create, create_loop, next, add_entry, add_client, destroy_entries,
}
use deepspan.Userlib.Handles.Outcome.{Created, create-Created}

abbrev sum : Callback ℕ
sum total token r = total + token

-- The request has token 0; a request of token 9 completes with it.
submit_and_wait-last_example :
    submit_and_wait true (pos 1) (some (0, pos 7)) ((9, negsuc 4) ∷ [])
    ≡ completion (last (0, pos 7) ((9, negsuc 4) ∷ [])).1
submit_and_wait-last_example = submit_and_wait-last 1 (0, pos 7) ((9, negsuc 4) ∷ [])

abbrev os : Os
os = record { fds = 0 ∷ 1 ∷ 2 ∷ []; rings = [] }

abbrev good : Answers
good = record { fd = some 3; version = some 1; ring = some 4 }

abbrev missing : Answers
missing = record { fd = none; version = none; ring = none }

abbrev other : Answers
other = record { fd = some 5; version = some 2; ring = some 6 }

-- Both paths are opened.
create-Created_example : Created os (good ∷ other ∷ []) (create os (good ∷ other ∷ []))
create-Created_example = create-Created os (good ∷ other ∷ [])

-- With a path between that is missing, nothing stays open.
second_missing : create os (good ∷ missing ∷ other ∷ []) ≡ (os, unexpected device_open_failed)
unfolding create create_loop next add_entry add_client open_device opened query_version accepted
    create_client client_on queue_init destroy_entries destroy_client destroy_device close_if close
    queue_exit remove
second_missing = refl

abbrev one_entry : List Entry
one_entry =
    record {
      device = record { fd = some 3; kernel_uapi_version = 1 };
      client = record { ring = some 4; device_fd = some 3 };
      in_use = false;
    }
    ∷ []

abbrev os_after : Os
os_after = record { fds = 3 ∷ 0 ∷ 1 ∷ 2 ∷ []; rings = 4 ∷ [] }

made : create os (good ∷ []) ≡ (os_after, expected one_entry)
unfolding create create_loop next add_entry add_client open_device opened query_version accepted
    create_client client_on queue_init
made = refl

-- A device on descriptor 3 and one on 5, and a client on ring 4.
abbrev three_objects : Objects
three_objects = record {
  os = record { fds = 5 ∷ 3 ∷ os.fds; rings = 4 ∷ [] };
  devices =
      record { fd = some 3; kernel_uapi_version = 1 }
      ∷ record { fd = some 5; kernel_uapi_version = 2 }
      ∷ [];
  clients = record { ring = some 4; device_fd = some 3 } ∷ [];
}

abbrev some_moves : List Move
some_moves =
    constructs_device 0
    ∷ assigns_device 1 2
    ∷ assigns_device 1 1
    ∷ constructs_client 0
    ∷ assigns_client 0 1
    ∷ []

three_objects-IsHeld : IsHeld os three_objects
unfolding count total
three_objects-IsHeld = record { descriptors = λ k. omega arith; queues = λ k. omega arith }

moves_keep_example :
    IsHeld os (run three_objects some_moves)
    × ((k : ℕ)
        → (count k (destroy_objects (run three_objects some_moves)).fds ≡ count k os.fds)
          × (count k (destroy_objects (run three_objects some_moves)).rings ≡ count k os.rings))
    × ((i : ℕ)
        → (assign_device i i (run three_objects some_moves) ≡ run three_objects some_moves)
          × (assign_client i i (run three_objects some_moves) ≡ run three_objects some_moves))
moves_keep_example = moves_keep os three_objects some_moves three_objects-IsHeld

-- What ioctl(2) returns where the driver names no operation, and else.
abbrev ioctl : Option ℤ → ℤ
ioctl none = negsuc 0
ioctl (some r) = r

open_node-fails_example :
    (open_node ioctl (record { fds = 3 ∷ []; rings = [] }) 5 1 (pos 0)
      ≡ (record { fds = 3 ∷ []; rings = [] }, unexpected io_error))
    × (submit_sync (ioctl (deepspan_fops (pos 0)).unlocked_ioctl) ≡ unexpected submit_failed)
open_node-fails_example =
    open_node-fails ioctl (record { fds = 3 ∷ []; rings = [] }) 5 1 (pos 0) refl
