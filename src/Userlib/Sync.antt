-- ===== src/Userlib/Sync.antt =====
-- runtime/userlib: DeepspanDevice::submit_sync, to_string of an error, and the driver's
-- file_operations (kernel/drivers/deepspan/deepspan_main.c) that open and submit_sync meet.
use deepspan.Common.{
  ℕ, ◌≡◌, refl, ap, Bool, true, ◌==◌, if◌then◌else◌, arith, Option, none, some, List, [], ◌∷◌,
}
use deepspan.Userlib.AsyncClient.{
  ℤ, pos, negsuc, Error, Expected, unexpected, expected, DeepspanResult, unsupported_kernel_version,
  io_error, device_open_failed, iouring_setup_failed, submit_failed, timeout,
}
use deepspan.Userlib.Device.{Os, DeepspanDevice, opened, open_device, query_version, close, remove}

-- On what the ioctl returns.
unfoldable pub submit_sync : ℤ → Expected DeepspanResult
submit_sync (negsuc n) = unexpected submit_failed
submit_sync (pos n) = expected (record { status = pos n; result_lo = 0; result_hi = 0 })

-- The ASCII codes of the enumerator's name.
unfoldable pub to_string : Error → List ℕ
to_string unsupported_kernel_version =
    85 ∷ 110 ∷ 115 ∷ 117 ∷ 112 ∷ 112 ∷ 111 ∷ 114 ∷ 116 ∷ 101 ∷ 100 ∷ 75 ∷ 101 ∷ 114 ∷ 110 ∷ 101
    ∷ 108 ∷ 86 ∷ 101 ∷ 114 ∷ 115 ∷ 105 ∷ 111 ∷ 110 ∷ []
to_string device_open_failed =
    68 ∷ 101 ∷ 118 ∷ 105 ∷ 99 ∷ 101 ∷ 79 ∷ 112 ∷ 101 ∷ 110 ∷ 70 ∷ 97 ∷ 105 ∷ 108 ∷ 101 ∷ 100 ∷ []
to_string iouring_setup_failed =
    73 ∷ 111 ∷ 117 ∷ 114 ∷ 105 ∷ 110 ∷ 103 ∷ 83 ∷ 101 ∷ 116 ∷ 117 ∷ 112 ∷ 70 ∷ 97 ∷ 105 ∷ 108 ∷ 101
    ∷ 100 ∷ []
to_string submit_failed = 83 ∷ 117 ∷ 98 ∷ 109 ∷ 105 ∷ 116 ∷ 70 ∷ 97 ∷ 105 ∷ 108 ∷ 101 ∷ 100 ∷ []
to_string timeout = 84 ∷ 105 ∷ 109 ∷ 101 ∷ 111 ∷ 117 ∷ 116 ∷ []
to_string io_error = 73 ∷ 111 ∷ 69 ∷ 114 ∷ 114 ∷ 111 ∷ 114 ∷ []

-- The operations that deepspan_fops names; open and release always return 0.
pub record FileOperations : Type 0 where
  pub on_open : Option ℤ
  pub on_release : Option ℤ
  pub uring_cmd : Option ℤ
  pub unlocked_ioctl : Option ℤ

-- `issued` is what deepspan_uring_cmd_issue returns.
unfoldable pub deepspan_fops : ℤ → FileOperations
deepspan_fops issued = record {
  on_open = some (pos 0);
  on_release = some (pos 0);
  uring_cmd = some issued;
  unlocked_ioctl = none;
}

-- The version that the ioctl of DeepspanDevice::open reads, `ver` of the driver if it succeeds.
unfoldable pub version_read : ℤ → ℕ → Option ℕ
version_read (pos n) ver = some ver
version_read (negsuc n) ver = none

-- `ioctl` is what ioctl(2) returns on a file, by what its driver names for `unlocked_ioctl`.
module _ (ioctl : Option ℤ → ℤ) where
  -- Opening a node of the driver.
  unfoldable pub open_node : Os → ℕ → ℕ → ℤ → Os × Expected DeepspanDevice
  open_node os fd ver issued = open_device os (record {
    fd = some fd;
    version = version_read (ioctl (deepspan_fops issued).unlocked_ioctl) ver;
    ring = none;
  })

  -- If ioctl(2) returns -1 on a file whose driver names no operation for it: opening a node of this
  -- driver always fails, with IoError and the descriptor closed, and a synchronous submission on
  -- one always fails, with SubmitFailed.
  pub open_node-fails :
      (os : Os) (fd ver : ℕ) (issued : ℤ)
      → ioctl none ≡ negsuc 0
      → (open_node os fd ver issued ≡ (os, unexpected io_error))
        × (submit_sync (ioctl (deepspan_fops issued).unlocked_ioctl) ≡ unexpected submit_failed)
  unfolding open_node open_device opened query_version close remove version_read deepspan_fops
      submit_sync
  open_node-fails os fd ver issued enotty =
      let same : (fd == fd) ≡ true = ground arith in
      let closed : (record os { fds = if fd == fd then os.fds else fd ∷ remove fd os.fds }) ≡ os =
        ap (λ (b : Bool). record os { fds = if b then os.fds else fd ∷ remove fd os.fds }) same in
      (rw enotty (ap (λ (t : Os). (t, unexpected io_error)) closed), rw enotty refl)
