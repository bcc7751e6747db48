-- ===== src/Kernel/Rx.antt =====
-- kernel/drivers/deepspan/deepspan_vqueue.c: the RX queue, whose notifications are dropped so far,
-- and which callback vqueue_init wires to which queue.
use deepspan.Common.{ℕ, ◌≡◌, refl, Bool, true, false, List, [], ◌∷◌}

-- The buffers that the firmware filled, whether callbacks are enabled, and rx_work.
pub record RxQueue : Type 0 where
  pub used : List ℕ
  pub callbacks : Bool
  pub scheduled : Bool

-- virtqueue_disable_cb and schedule_work.
unfoldable pub vq_rx_cb : RxQueue → RxQueue
vq_rx_cb q = record q { callbacks = false; scheduled = true }

-- The loop of virtqueue_get_buf, and virtqueue_enable_cb.
unfoldable pub rx_drain : RxQueue → List ℕ → RxQueue
rx_drain q [] = record q { used = []; callbacks = true }
rx_drain q (token ∷ rest) = rx_drain q rest

-- The workqueue clears the item before it runs it.
unfoldable pub rx_work_fn : RxQueue → RxQueue
rx_work_fn q = rx_drain (record q { scheduled = false }) q.used

drained : (q : RxQueue) (rest : List ℕ) → rx_drain q rest ≡ record q { used = []; callbacks = true }
unfolding rx_drain
drained q [] = refl
drained q (token ∷ rest) = drained q rest

-- After a callback and the work that it schedules, no buffer is left and callbacks are enabled.
pub rx_work_fn-vq_rx_cb :
    (q : RxQueue)
    → rx_work_fn (vq_rx_cb q) ≡ record { used = []; callbacks = true; scheduled = false }
unfolding rx_work_fn vq_rx_cb
rx_work_fn-vq_rx_cb q = drained (record q { callbacks = false; scheduled = false }) q.used

-- VQ_DATA_TX is 0 and VQ_DATA_RX is 1; a queue's callback schedules the work of its kind.
pub data Callback : Type 0 where
  tx_callback rx_callback : Callback

pub record VirtqueueInfo : Type 0 where
  pub name : List ℕ
  pub callback : Callback

-- "tx" and "rx".
unfoldable pub vqueue_init : List VirtqueueInfo
vqueue_init =
    record { name = 116 ∷ 120 ∷ []; callback = tx_callback }
    ∷ record { name = 114 ∷ 120 ∷ []; callback = rx_callback }
    ∷ []
