-- ===== src/Userlib/Device.antt =====
-- runtime/userlib/src/device.cpp, and the constructors and destructors of async_client.cpp.
-- The kernel's part is the list of open descriptors and of rings, by number, and for each path
-- what its calls answer.
use deepspan.Common.{
  ℕ, Bool, true, false, if◌then◌else◌, ◌==◌, ltb, Option, none, some, List, [], ◌∷◌,
}
use deepspan.Userlib.AsyncClient.{
  Expected, unexpected, expected, unsupported_kernel_version, io_error, device_open_failed,
  iouring_setup_failed,
}

-- A descriptor and a ring are both told apart by numbers.
pub record Os : Type 0 where
  pub fds : List ℕ
  pub rings : List ℕ

-- What open(2) returns, the version that the ioctl reads, and the ring that io_uring_queue_init
-- makes; none is a failure.
pub record Answers : Type 0 where
  pub fd : Option ℕ
  pub version : Option ℕ
  pub ring : Option ℕ

-- `none` is a descriptor of -1, which a moved-from handle has.
pub record DeepspanDevice : Type 0 where
  pub fd : Option ℕ
  pub kernel_uapi_version : ℕ

-- `ring` is none where the client is not initialized.
pub record AsyncClient : Type 0 where
  pub ring : Option ℕ
  pub device_fd : Option ℕ

-- One occurrence goes.
unfoldable pub remove : ℕ → List ℕ → List ℕ
remove k [] = []
remove k (x ∷ xs) = let rest = remove k xs in if k == x then xs else x ∷ rest

abbrev pub uapi_version_min : ℕ
uapi_version_min = 1

unfoldable pub close : Os → ℕ → Os
close os fd = record os { fds = remove fd os.fds }

unfoldable pub accepted : Os → ℕ → ℕ → Bool → Os × Expected DeepspanDevice
accepted os fd ver true = (close os fd, unexpected unsupported_kernel_version)
accepted os fd ver false = (os, expected (record { fd = some fd; kernel_uapi_version = ver }))

-- DEEPSPAN_IOC_GET_VERSION and the check of its answer.
unfoldable pub query_version : Os → ℕ → Option ℕ → Os × Expected DeepspanDevice
query_version os fd none = (close os fd, unexpected io_error)
query_version os fd (some ver) = accepted os fd ver (ltb ver uapi_version_min)

unfoldable pub opened : Os → Option ℕ → Option ℕ → Os × Expected DeepspanDevice
opened os none version = (os, unexpected device_open_failed)
opened os (some fd) version = query_version (record os { fds = fd ∷ os.fds }) fd version

unfoldable pub open_device : Os → Answers → Os × Expected DeepspanDevice
open_device os a = opened os a.fd a.version

unfoldable pub close_if : Os → Option ℕ → Os
close_if os none = os
close_if os (some fd) = close os fd

unfoldable pub destroy_device : Os → DeepspanDevice → Os
destroy_device os dev = close_if os dev.fd

unfoldable pub queue_init : Os → Option ℕ → ℕ → Os × Expected AsyncClient
queue_init os none fd = (os, unexpected iouring_setup_failed)
queue_init os (some ring) fd = (
  record os { rings = ring ∷ os.rings },
  expected (record { ring = some ring; device_fd = some fd }),
)

unfoldable pub client_on : Os → Option ℕ → Option ℕ → Os × Expected AsyncClient
client_on os ring none = (os, unexpected device_open_failed)
client_on os ring (some fd) = queue_init os ring fd

unfoldable pub create_client : Os → Answers → DeepspanDevice → Os × Expected AsyncClient
create_client os a dev = client_on os a.ring dev.fd

unfoldable pub queue_exit : Os → Option ℕ → Os
queue_exit os none = os
queue_exit os (some ring) = record os { rings = remove ring os.rings }

unfoldable pub destroy_client : Os → AsyncClient → Os
destroy_client os client = queue_exit os client.ring
