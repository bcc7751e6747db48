-- ===== src/Server/Rpc/Listed.antt =====
-- ListDevices on the plugins of hwip/: enumerate_devices of server/src/registry.cpp with the
-- factory of a plugin.
use deepspan.Common.{
  ℕ, zero, suc, ◌+◌, ◌<◌, ◌≤◌, ◌≡◌, ◌⊎◌, inl, inr, none, refl, ap, ◌∙◌, some, List, [], ◌∷◌,
  if◌then◌else◌, ◌==◌, bit_and, arith,
}
use mathlib.Core.List.{append-nil}
use deepspan.HwModel.{HwServer}
use deepspan.Shm.{ready_bit}
use deepspan.Plugin.{device_state}
use deepspan.Plugin.Object.{
  World, Kind, Backing, absent, backed, type_name, shm_name, open_page, make_at, factory, registrar,
  object, int_of,
}
use deepspan.Server.StrMap.{Str, insert}
use deepspan.Server.Registry.{
  ℤ, pos, DeviceInfo, register_type, dev_id, max_devices, probe, listing, listed_state,
  devices_from, enumerate_devices,
}
use deepspan.Server.DeviceIndex.{parse_device_index-dev_id}
use deepspan.Server.HwipService.{list_devices}

-- READY is 2, and 1 stands for a hw-model that does not say so.
abbrev pub shown_state : HwServer → ℤ
shown_state hw = if bit_and hw.page.regs.status ready_bit == 0 then pos 1 else pos 2

-- The devices of the indices from `idx` on, `n` of them.
abbrev pub shown : Kind → (ℕ → HwServer) → ℕ → ℕ → List DeviceInfo
shown k hws zero idx = []
shown k hws (suc n) idx =
    record { device_id = dev_id (type_name k) idx; state = shown_state (hws idx) }
    ∷ shown k hws n (idx + 1)

probe-factory :
    (w : World) (k : Kind) (idx : ℕ) (b : Backing)
    → idx < 100
    → w.found (shm_name idx) ≡ b
    → probe (factory w k (dev_id (type_name k) idx))
      ≡ probe (open_page w k (dev_id (type_name k) idx) (shm_name idx) b)
unfolding factory make_at
probe-factory w k idx b h e =
    ap (λ i. probe (make_at w k (dev_id (type_name k) idx) i))
      (parse_device_index-dev_id (type_name k) idx h)
    ∙ ap (λ o. probe (open_page w k (dev_id (type_name k) idx) (shm_name idx) o)) e

probe-backed :
    (w : World) (k : Kind) (id name : Str) (hw : HwServer)
    → probe (open_page w k id name (backed hw)) ≡ some (shown_state hw)
unfolding open_page object probe listed_state int_of device_state
probe-backed w k id name hw = ground arith

probe-absent : (w : World) (k : Kind) (id name : Str) → probe (open_page w k id name absent) ≡ none
unfolding open_page object probe listed_state int_of device_state
probe-absent w k id name = refl

-- The indices from `idx` on have hw-models, `n` of them.
abbrev pub Backed : World → (ℕ → HwServer) → ℕ → ℕ → Type 0
Backed w hws zero idx = Unit
Backed w hws (suc n) idx = (w.found (shm_name idx) ≡ backed (hws idx)) × Backed w hws n (idx + 1)

module _ (w : World) (k : Kind) (hws : ℕ → HwServer) where
  devices_from-shown :
      (n left idx : ℕ)
      → n ≤ left
      → idx + left ≤ 64
      → Backed w hws n idx
      → (n ≡ left) ⊎ (w.found (shm_name (idx + n)) ≡ absent)
      → devices_from (type_name k) (factory w k) left idx ≡ shown k hws n idx
  unfolding devices_from listing
  devices_from-shown zero zero idx l b all end = refl
  devices_from-shown (suc n) zero idx l b all end = absurd (omega arith)
  devices_from-shown zero (suc left) idx l b all (inl e) = absurd (omega arith)
  devices_from-shown zero (suc left) idx l b all (inr e) =
      ap
        (λ o.
          listing (dev_id (type_name k) idx) o
            (devices_from (type_name k) (factory w k) left (idx + 1)))
        (probe-factory w k idx absent (omega arith)
            (ap (λ (i : ℕ). w.found (shm_name i)) (let z : idx ≡ idx + 0 = omega arith in z) ∙ e)
          ∙ probe-absent w k (dev_id (type_name k) idx) (shm_name idx))
  devices_from-shown (suc n) (suc left) idx l b (here, all) end =
      ap
        (λ o.
          listing (dev_id (type_name k) idx) o
            (devices_from (type_name k) (factory w k) left (idx + 1)))
        (probe-factory w k idx (backed (hws idx)) (omega arith) here
          ∙ probe-backed w k (dev_id (type_name k) idx) (shm_name idx) (hws idx))
      ∙ ap (◌∷◌ (record { device_id = dev_id (type_name k) idx; state = shown_state (hws idx) }))
          (devices_from-shown n left (idx + 1) (omega arith) (omega arith) all (next end))
    where
      next :
          (suc n ≡ suc left) ⊎ (w.found (shm_name (idx + suc n)) ≡ absent)
          → (n ≡ left) ⊎ (w.found (shm_name (idx + 1 + n)) ≡ absent)
      next (inl e) = inl (omega arith)
      next (inr e) = inr (
          ap (λ (i : ℕ). w.found (shm_name i))
            (let z : idx + 1 + n ≡ idx + suc n = omega arith in z)
          ∙ e)

  -- With one plugin loaded, ListDevices shows the devices of the indices from 0 up to the first
  -- that has no page, at most 64 of them, each with the state that its hw-model's status register
  -- gives; devices after a gap are not shown.
  pub list_devices-shown :
      (n : ℕ)
      → n ≤ max_devices
      → Backed w hws n 0
      → (n ≡ max_devices) ⊎ (w.found (shm_name n) ≡ absent)
      → list_devices (registrar w k (record { factories = [] })) ≡ shown k hws n 0
  unfolding list_devices registrar register_type insert enumerate_devices
  list_devices-shown n l all end =
      append-nil (devices_from (type_name k) (factory w k) max_devices 0)
      ∙ devices_from-shown n max_devices 0 l (omega arith) all (from_zero end)
    where
      from_zero :
          (n ≡ max_devices) ⊎ (w.found (shm_name n) ≡ absent)
          → (n ≡ max_devices) ⊎ (w.found (shm_name (0 + n)) ≡ absent)
      from_zero (inl e) = inl e
      from_zero (inr e) =
          inr (ap (λ (i : ℕ). w.found (shm_name i)) (let z : 0 + n ≡ n = omega arith in z) ∙ e)
