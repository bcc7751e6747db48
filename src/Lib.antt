-- ===== src/Lib.antt =====
-- deepspan: a stack that drives hardware IP blocks (HWIPs), here with a simulated device.
--
-- The parts and how they meet. The hw-model (sim/hw-model) plays the hardware: it shares a page of
-- registers with its clients, polls CTRL.START, runs a command handler and clears START. A HWIP
-- brings a handler (hwip/*/hw-model) and a plugin (hwip/*/plugin), whose `submit` writes a command
-- to the page and polls for the result. The server (server/) makes plugins by a registry of
-- factories and offers them by gRPC. Beside it, runtime/appframework guards the devices of
-- runtime/userlib by a pool and a circuit breaker; userlib talks by io_uring to the driver of
-- kernel/, which passes the commands on to firmware by virtqueues. The firmware of firmware/ runs
-- on the same page as the plugins.
--
--   Common: lists, bits, bytes and Boolean tests.
--   Shm: the page (sim/hw-model/include/deepspan/hw_model/reg_map.hpp); Ctrl its CTRL bits,
--     Layout its registers' offsets and those of the generated headers (hwip/*/gen) and drivers,
--     Access loads and stores at those offsets, Fields the bit masks in the same places, Regions
--     where the page's parts lie.
--   HwModel: HwModelServer (sim/hw-model/src/hw_model_server.cpp); `exec` is `poll_loop`;
--     Stop what becomes of it after stop(), Lifetime the object, Main the process
--     (sim/hw-model/src/main.cpp), Args what it and firmware_sim read their command lines with.
--   HwModel/Transport: sim/hw-model/src/sim_transport.cpp and HwModelServer::init.
--   HwModel/FirmwareSim: sim/hw-model/src/firmware_sim.cpp; `fw_exec` is one access of its loop.
--     Main has its main function, Answers and Ends run the loop beside the hw-model, Crc32 beside
--     one with the crc32 dispatch.
--   Plugin: the `submit` of hwip/accel/plugin/accel_plugin.cpp and crc32_plugin.cpp; `client_step`
--     is one access, `run` an interleaving with the hw-model. Children: Safety, Progress, Ends,
--     EndToEnd (with the handlers), Races (two plugin objects), Mapping (their life) and Object (a
--     plugin as the server's registry has it, and its registrar).
--   Crc32: hwip/crc32/hw-model/src/crc32_hw_model.cpp; Linear, Serial, Detect and
--     Handler, Base the pointer to the page, and Opcodes the generated opcode maps.
--   Accel: hwip/accel/hw-model/src/accel_hw_model.cpp and the generated opcode maps.
--   CircuitBreaker: runtime/appframework/src/circuit_breaker.cpp; its two locked sections are steps.
--   DevicePool: runtime/appframework/src/device_pool.cpp without `create`; Ownership, Counting.
--   SessionManager: runtime/appframework/src/session_manager.cpp, `execute`; Create its `create`.
--   Userlib: runtime/userlib/src/async_client.cpp (AsyncClient), device.cpp (Device), the moves
--     of both on the objects of a process (Moves), submit_sync and what open meets in the driver
--     (Sync), and DevicePool::create on them (Handles, with Leaks and Outcome).
--   Server: registry.cpp (StrMap, Registry, Plugins), hwip_service.cpp (HwipService), both together
--     (Listing), both with the plugins (Rpc, whose Loading has load_plugin and unload_plugin over
--     dlopen's reference counts), numbers as text (Decimal), ResetDevice of
--     mgmt_service.cpp (Mgmt), the device index in an id (DeviceIndex), the other RPCs of
--     mgmt_service.cpp (FirmwareInfo), telemetry_service.cpp (Telemetry), the arguments and exit code
--     of main.cpp (Main), and how a signal ends it (Shutdown).
--   Kernel: kernel/drivers/deepspan. Request is deepspan_uring_cmd_issue of deepspan_iouring.c, one
--     function per stage and goto label; Vqueue the TX work and callback of deepspan_vqueue.c, with
--     the events `step` and `run`; Rx the RX side; Probe the probe, removal and module
--     functions of deepspan_virtio.c, deepspan_main.c and deepspan_sysfs.c; Shash
--     deepspan_crc32_shash.c; Response the bytes of a result; Wire a request and a result
--     between userlib and the driver; Crypto the registration of the shash; Remove a removal with
--     requests outstanding. Unwind, Drain, Tally, Invariant, Exact, Taken and Lifetime have the
--     proofs.
--   Firmware: firmware/. Driver is deepspan_hwip_sim.c, access by access beside the hw-model, Start
--     its init and deepspan_hwip.c, App app/src/main.cpp, Boot what that does first, Transport
--     lib/transport. Safety, Sticky, Phases and Stale have the proofs, AppStale has the app's two
--     tests one after the other.
--   Tests: each theorem at a concrete input.
--
-- Concurrency is a list of turns, one memory access (or one locked section) each, in sequentially
-- consistent order. A register is a natural number below 2 ^ 32, and what wraps is written `% 2 ^ w`.
-- `submit` polls at most 50 000 times as in the source, the retry loops count their attempts as the
-- source does, and the list of turns or events bounds every run; std::to_string has fuel for 20
-- digits, those of 64 bits. The operating system and io_uring are parameters:
-- what they answer is an argument. The registry's factories are parameters too, which Plugin/Object
-- fills with the plugins'.
--
-- In Kernel one call of uring_cmd_issue is one event, for the queue is touched under its lock, and
-- the work goes a turn of its loop at a time; what kzalloc, copy_from_user, xa_alloc,
-- virtqueue_add_sgs and the registration functions answer is an argument, and the requests are
-- told apart by their commands.
--
-- Not modelled: gRPC and logging, the threads and start-up code, Zephyr's scheduling and the length
-- of its timeouts, the generators and the Python SDK.
pub mod Common
pub mod Shm
pub mod HwModel
pub mod Kernel
pub mod Firmware
pub mod Plugin
pub mod Crc32
pub mod Accel
pub mod CircuitBreaker
pub mod DevicePool
pub mod SessionManager
pub mod Server
pub mod Userlib
mod Tests
