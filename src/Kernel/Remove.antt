-- ===== src/Kernel/Remove.antt =====
-- kernel/drivers/deepspan/deepspan_virtio.c: what deepspan_virtio_remove does to the requests, with
-- deepspan_vqueue_cleanup of deepspan_vqueue.c.
use deepspan.Common.{ℕ, ◌+◌, ◌*◌, ◌-◌, ◌≡◌, refl, true, false, [], length, arith}
use deepspan.Kernel.Request.{Device, idle}
use deepspan.Kernel.Vqueue.{vq_tx_cb}
use deepspan.Kernel.Invariant.{Inv}

-- cancel_work_sync: the item is not scheduled and not running.
unfoldable pub vqueue_cleanup : Device → Device
vqueue_cleanup d = record d { scheduled = false; worker = idle }

-- reset and del_vqs, xa_destroy, and kfree of the device's own block.
unfoldable pub torn_down : Device → Device
torn_down d = record d { avail = []; used = []; pending = []; live = d.live - 1 }

unfoldable pub remove : Device → Device
remove d = torn_down (vqueue_cleanup d)

-- The blocks of the requests that were outstanding stay allocated after a removal, three for each,
-- and none of their commands is completed by it. An interrupt between the cleanup and the
-- teardown leaves tx_work scheduled.
pub remove-leaks :
    (base : ℕ) (d : Device)
    → Inv (base + 1) d
    → ((remove d).live ≡ base + 3 * (length d.avail + length d.used))
      × ((remove d).completed ≡ d.completed)
      × ((torn_down (vq_tx_cb (vqueue_cleanup d))).scheduled ≡ true)
unfolding remove torn_down vqueue_cleanup vq_tx_cb
remove-leaks base d inv = (omega (arith, inv.blocks), refl, refl)
