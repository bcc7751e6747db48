-- ===== src/Kernel/Lifetime.antt =====
-- The probe and the removal of a device, and the load and unload of the module, on every path.
use deepspan.Common.{
  ℕ, zero, suc, ◌+◌, ◌≡◌, ◌≢◌, ◌⊎◌, inl, inr, refl, ap, ap₂, ◌∙◌, Bool, true, false, List, ◌∷◌,
  arith,
}
use deepspan.Userlib.AsyncClient.{ℤ, pos, negsuc}
use deepspan.Kernel.Unwind.{IsFresh, xa_erase-cons, xa_erase-IsFresh}
use deepspan.Kernel.Probe.{
  Held, ProbeAnswers, Done, ida_free, cdev_node, cdev_register, cdev_add, cdev_del, sysfs_init,
  sysfs_exit, err_free, err_vqs, probe_sysfs, probe_vqs, probe_alloc, virtio_probe, virtio_remove,
  init_driver, init_class, init, exit,
}

-- A minor that no device has.
unfoldable pub IsUnused : ℤ → Held → Type 0
IsUnused (negsuc n) h = Unit
IsUnused (pos m) h = IsFresh m h.minors × IsFresh m h.nodes × IsFresh m h.groups

-- An error leaves what was held; after a success, removal does.
unfoldable pub IsUndone : Held → (ℕ → Held → Held) → Done → Type 0
IsUndone h undo (h', ret, minor) =
    ((ret ≢ pos 0) × (h' ≡ h)) ⊎ ((ret ≡ pos 0) × (undo minor h' ≡ h))

counted : Held → ℕ → ℕ → List ℕ → ℕ → List ℕ → List ℕ → Held
counted h blocks queues minors cdevs nodes groups = record h {
  blocks = blocks;
  queues = queues;
  minors = minors;
  cdevs = cdevs;
  nodes = nodes;
  groups = groups;
}

module _ (h : Held) {b q c : ℕ} {ms ns gs : List ℕ} where
  restored :
      b ≡ h.blocks
      → q ≡ h.queues
      → ms ≡ h.minors
      → c ≡ h.cdevs
      → ns ≡ h.nodes
      → gs ≡ h.groups
      → counted h b q ms c ns gs ≡ h
  unfolding counted
  restored pb pq pm pc pn pg =
      ap₂ (λ x y. counted h x y ms c ns gs) pb pq
      ∙ ap₂ (λ x y. counted h h.blocks h.queues x y ns gs) pm pc
      ∙ ap₂ (λ x y. counted h h.blocks h.queues h.minors h.cdevs x y) pn pg

abbrev remove_minor : ℕ → Held → Held
remove_minor minor h = virtio_remove h minor

-- A device with its queues, whose character device has been asked for.
abbrev queued : Held → Held
queued h = record h { blocks = h.blocks + 1; queues = h.queues + 1 }

grouped_lem :
    (h : Held) (m : ℕ) (grouped : ℤ)
    → IsUnused (pos m) h
    → virtio_remove
        (sysfs_init
          (record (queued h) { minors = m ∷ h.minors; cdevs = h.cdevs + 1; nodes = m ∷ h.nodes })
          m
          grouped)
        m
      ≡ h
unfolding virtio_remove cdev_del sysfs_exit ida_free sysfs_init counted IsUnused
grouped_lem h m (pos zero) f =
    restored h (omega arith) (omega arith) (xa_erase-cons m h.minors f.0) (omega arith)
      (xa_erase-cons m h.nodes f.1) (xa_erase-cons m h.groups f.2)
grouped_lem h m (pos (suc n)) f =
    restored h (omega arith) (omega arith) (xa_erase-cons m h.minors f.0) (omega arith)
      (xa_erase-cons m h.nodes f.1) (xa_erase-IsFresh m h.groups f.2)
grouped_lem h m (negsuc n) f =
    restored h (omega arith) (omega arith) (xa_erase-cons m h.minors f.0) (omega arith)
      (xa_erase-cons m h.nodes f.1) (xa_erase-IsFresh m h.groups f.2)

cdev_lem :
    (h : Held) (ida added created grouped : ℤ)
    → IsUnused ida h
    → IsUndone h remove_minor (probe_sysfs (cdev_add (queued h) ida added created) grouped)
unfolding IsUndone IsUnused probe_sysfs cdev_add cdev_register cdev_node err_vqs err_free ida_free
    counted
cdev_lem h (negsuc n) added created grouped f =
    inl (λ e. absurd cc, restored h (omega arith) (omega arith) refl refl refl refl)
cdev_lem h (pos m) (negsuc n) created grouped f = inl (
  λ e. absurd cc,
  restored h (omega arith) (omega arith) (xa_erase-cons m h.minors f.0) refl refl refl,
)
cdev_lem h (pos m) (pos (suc n)) created grouped f = inl (
  λ e. absurd cc,
  restored h (omega arith) (omega arith) (xa_erase-cons m h.minors f.0) refl refl refl,
)
cdev_lem h (pos m) (pos zero) (negsuc n) grouped f = inl (
  λ e. absurd cc,
  restored h (omega arith) (omega arith) (xa_erase-cons m h.minors f.0) (omega arith) refl refl,
)
cdev_lem h (pos m) (pos zero) (pos p) grouped f = inr (refl, grouped_lem h m grouped f)

vqs_lem :
    (h : Held) (a : ProbeAnswers) (find_vqs : ℤ)
    → IsUnused a.ida h
    → IsUndone h remove_minor (probe_vqs (record h { blocks = h.blocks + 1 }) a find_vqs)
unfolding IsUndone probe_vqs err_free counted
vqs_lem h a (pos zero) f = cdev_lem h a.ida a.cdev_added a.created a.grouped f
vqs_lem h a (pos (suc n)) f =
    inl (λ e. absurd cc, restored h (omega arith) refl refl refl refl refl)
vqs_lem h a (negsuc n) f = inl (λ e. absurd cc, restored h (omega arith) refl refl refl refl refl)

alloc_lem :
    (h : Held) (a : ProbeAnswers) (fits : Bool)
    → IsUnused a.ida h
    → IsUndone h remove_minor (probe_alloc h a fits)
unfolding probe_alloc IsUndone
alloc_lem h a false f = inl (λ e. absurd cc, refl)
alloc_lem h a true f = vqs_lem h a a.find_vqs f

-- If the IDA gives a minor that is not in use: a probe that fails, wherever it fails, holds nothing
-- more than before, and after one that succeeds, its sysfs groups made or not, the removal of the
-- device gives back all that the probe took.
pub virtio_probe-remove :
    (h : Held) (a : ProbeAnswers) → IsUnused a.ida h → IsUndone h remove_minor (virtio_probe h a)
unfolding virtio_probe
virtio_probe-remove h a f = alloc_lem h a a.fits f

loaded : Held → ℕ → ℕ → ℕ → Held
loaded h regions classes drivers = record h {
  regions = regions;
  classes = classes;
  drivers = drivers;
}

module _ (h : Held) {r c d : ℕ} where
  unloaded : r ≡ h.regions → c ≡ h.classes → d ≡ h.drivers → loaded h r c d ≡ h
  unfolding loaded
  unloaded pr pc pd =
      ap₂ (λ x y. loaded h x y d) pr pc ∙ ap (λ x. loaded h h.regions h.classes x) pd

-- A module load that fails holds nothing, and after one that succeeds the unload gives back all.
pub init-exit :
    (h : Held) (region class registered : ℤ)
    → let (h', ret) = init h region class registered in
      ((ret ≢ pos 0) × (h' ≡ h)) ⊎ ((ret ≡ pos 0) × (exit h' ≡ h))
unfolding init init_class init_driver exit loaded
init-exit h (negsuc n) class registered = inl (λ e. absurd cc, refl)
init-exit h (pos (suc n)) class registered = inl (λ e. absurd cc, refl)
init-exit h (pos zero) (negsuc n) registered =
    inl (λ e. absurd cc, unloaded h (omega arith) refl refl)
init-exit h (pos zero) (pos p) (negsuc n) =
    inl (λ e. absurd cc, unloaded h (omega arith) (omega arith) refl)
init-exit h (pos zero) (pos p) (pos (suc n)) =
    inl (λ e. absurd cc, unloaded h (omega arith) (omega arith) refl)
init-exit h (pos zero) (pos p) (pos zero) =
    inr (refl, unloaded h (omega arith) (omega arith) (omega arith))
