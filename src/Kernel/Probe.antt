-- ===== src/Kernel/Probe.antt =====
-- kernel/drivers/deepspan/deepspan_main.c, deepspan_virtio.c and deepspan_sysfs.c: what the module
-- and the probe of a device take from the kernel, and give back. The kernel's answers are given.
use deepspan.Common.{ℕ, zero, suc, ◌+◌, ◌-◌, ◌≡◌, refl, Bool, true, false, List, [], ◌∷◌, ◌++◌}
use deepspan.Userlib.AsyncClient.{ℤ, pos, negsuc}
use deepspan.Server.StrMap.{Str}
use deepspan.Server.Decimal.{decimal, to_decimal}
use deepspan.Server.DeviceIndex.{value, is_digit}
use deepspan.Kernel.Request.{xa_erase, enomem}

-- What is held: blocks of kzalloc, virtqueue sets, minors of the IDA, character devices, the minors
-- that have a device node, those with the sysfs groups, and the module's region, class and driver.
pub record Held : Type 0 where
  pub blocks : ℕ
  pub queues : ℕ
  pub minors : List ℕ
  pub cdevs : ℕ
  pub nodes : List ℕ
  pub groups : List ℕ
  pub regions : ℕ
  pub classes : ℕ
  pub drivers : ℕ

-- `ida` is the minor or an error, `created` a pointer or an error, the others are return codes.
pub record ProbeAnswers : Type 0 where
  pub fits : Bool
  pub find_vqs : ℤ
  pub ida : ℤ
  pub cdev_added : ℤ
  pub created : ℤ
  pub grouped : ℤ

-- What a call holds then, its return code, and `ddev->minor`.
abbrev pub Done : Type 0
Done = Held × ℤ × ℕ

unfoldable pub ida_free : Held → ℕ → Held
ida_free h minor = record h { minors = xa_erase minor h.minors }

unfoldable pub cdev_node : Held → ℕ → ℤ → Done
cdev_node h minor (negsuc n) = (ida_free (record h { cdevs = h.cdevs - 1 }) minor, negsuc n, minor)
cdev_node h minor (pos n) = (record h { nodes = minor ∷ h.nodes }, pos 0, minor)

unfoldable pub cdev_register : Held → ℕ → ℤ → ℤ → Done
cdev_register h minor (pos zero) created =
    cdev_node (record h { cdevs = h.cdevs + 1 }) minor created
cdev_register h minor (pos (suc n)) created = (ida_free h minor, pos (suc n), minor)
cdev_register h minor (negsuc n) created = (ida_free h minor, negsuc n, minor)

unfoldable pub cdev_add : Held → ℤ → ℤ → ℤ → Done
cdev_add h (negsuc n) added created = (h, negsuc n, 0)
cdev_add h (pos minor) added created =
    cdev_register (record h { minors = minor ∷ h.minors }) minor added created

unfoldable pub cdev_del : Held → ℕ → Held
cdev_del h minor = ida_free (record h { nodes = xa_erase minor h.nodes; cdevs = h.cdevs - 1 }) minor

abbrev pub uapi_version : ℕ
uapi_version = 1

-- What reading the `version` attribute gives: "%u\n".
unfoldable pub version_show : Str
version_show = to_decimal uapi_version ++ (10 ∷ [])

unfoldable pub sysfs_init : Held → ℕ → ℤ → Held
sysfs_init h minor (pos zero) = record h { groups = minor ∷ h.groups }
sysfs_init h minor (pos (suc n)) = h
sysfs_init h minor (negsuc n) = h

unfoldable pub sysfs_exit : Held → ℕ → Held
sysfs_exit h minor = record h { groups = xa_erase minor h.groups }

-- kfree(ddev)
unfoldable pub err_free : Held → ℤ → ℕ → Done
err_free h ret minor = (record h { blocks = h.blocks - 1 }, ret, minor)

-- del_vqs
unfoldable pub err_vqs : Held → ℤ → ℕ → Done
err_vqs h ret minor = err_free (record h { queues = h.queues - 1 }) ret minor

-- From the answer of cdev_add on; a failure of sysfs is not one of the probe.
unfoldable pub probe_sysfs : Done → ℤ → Done
probe_sysfs (h, pos zero, minor) grouped = (sysfs_init h minor grouped, pos 0, minor)
probe_sysfs (h, pos (suc n), minor) grouped = err_vqs h (pos (suc n)) minor
probe_sysfs (h, negsuc n, minor) grouped = err_vqs h (negsuc n) minor

unfoldable pub probe_vqs : Held → ProbeAnswers → ℤ → Done
probe_vqs h a (pos zero) =
    probe_sysfs (cdev_add (record h { queues = h.queues + 1 }) a.ida a.cdev_added a.created)
      a.grouped
probe_vqs h a (pos (suc n)) = err_free h (pos (suc n)) 0
probe_vqs h a (negsuc n) = err_free h (negsuc n) 0

unfoldable pub probe_alloc : Held → ProbeAnswers → Bool → Done
probe_alloc h a false = (h, enomem, 0)
probe_alloc h a true = probe_vqs (record h { blocks = h.blocks + 1 }) a a.find_vqs

unfoldable pub virtio_probe : Held → ProbeAnswers → Done
virtio_probe h a = probe_alloc h a a.fits

-- The requests that are outstanding keep their blocks.
unfoldable pub virtio_remove : Held → ℕ → Held
virtio_remove h minor =
    let without = cdev_del (sysfs_exit h minor) minor in
    record without { queues = without.queues - 1; blocks = without.blocks - 1 }

-- From the answer of deepspan_virtio_register on.
unfoldable pub init_driver : Held → ℤ → Held × ℤ
init_driver h (pos zero) = (record h { drivers = h.drivers + 1 }, pos 0)
init_driver h (pos (suc n)) =
    (record h { classes = h.classes - 1; regions = h.regions - 1 }, pos (suc n))
init_driver h (negsuc n) = (record h { classes = h.classes - 1; regions = h.regions - 1 }, negsuc n)

-- From the answer of class_create on, a pointer or an error.
unfoldable pub init_class : Held → ℤ → ℤ → Held × ℤ
init_class h (negsuc n) registered = (record h { regions = h.regions - 1 }, negsuc n)
init_class h (pos p) registered = init_driver (record h { classes = h.classes + 1 }) registered

unfoldable pub init : Held → ℤ → ℤ → ℤ → Held × ℤ
init h (pos zero) class registered =
    init_class (record h { regions = h.regions + 1 }) class registered
init h (pos (suc n)) class registered = (h, pos (suc n))
init h (negsuc n) class registered = (h, negsuc n)

unfoldable pub exit : Held → Held
exit h = record h { drivers = h.drivers - 1; classes = h.classes - 1; regions = h.regions - 1 }

-- The attribute's text begins with the number of the UAPI version.
pub value-version_show : value 0 version_show ≡ uapi_version
unfolding version_show value to_decimal decimal is_digit
value-version_show = refl
