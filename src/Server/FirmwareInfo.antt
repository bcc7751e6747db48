-- ===== src/Server/FirmwareInfo.antt =====
-- server/src/mgmt_service.cpp: the view of the shared page that the RPCs make, GetFirmwareInfo,
-- PushConfig and GetConsolePath. strftime of gmtime is given.
use deepspan.Common.{
  ℕ, ◌+◌, ◌-◌, ◌*◌, ◌/◌, ◌%◌, ◌^◌, ◌≡◌, refl, ap₂, Bool, true, false, ltb, if◌then◌else◌, bit_and,
  Option, none, some, [], ◌∷◌, ◌++◌, arith,
}
use deepspan.Common.Bits.{and_byte}
use deepspan.Shm.{Page}
use deepspan.Server.StrMap.{Str}
use deepspan.Server.Mgmt.{reset_device}
use deepspan.Server.DeviceIndex.{parse_device_index}
use deepspan.Server.Decimal.{to_decimal}
use deepspan.Server.Registry.{ℤ, pos, negsuc}

unfoldable pub int_to_string : ℤ → Str
int_to_string (pos n) = to_decimal n
int_to_string (negsuc n) = 45 ∷ to_decimal (n + 1)

-- "/deepspan_hwip_" and the index.
unfoldable pub shm_name : ℤ → Str
shm_name index =
    (47 ∷ 100 ∷ 101 ∷ 101 ∷ 112 ∷ 115 ∷ 112 ∷ 97 ∷ 110 ∷ 95 ∷ 104 ∷ 119 ∷ 105 ∷ 112 ∷ 95 ∷ [])
    ++ int_to_string index

-- Open descriptors and mappings of the server.
pub record Process : Type 0 where
  pub fds : ℕ
  pub maps : ℕ

-- A descriptor of -1 is `false`.
pub record ShmView : Type 0 where
  pub base : Option Page
  pub fd : Bool

-- From the mmap on.
unfoldable pub view_map : Process → Option Page → Process × ShmView
view_map k none = (record k { fds = k.fds - 1 }, record { base = none; fd = false })
view_map k (some p) = (record k { maps = k.maps + 1 }, record { base = some p; fd = true })

-- `shm` answers for a name: none if shm_open fails, and then what mmap gives.
unfoldable pub view_open : Process → Option (Option Page) → Process × ShmView
view_open k none = (k, record { base = none; fd = false })
view_open k (some mapped) = view_map (record k { fds = k.fds + 1 }) mapped

unfoldable pub view_unmap : Process → Option Page → Process
view_unmap k none = k
view_unmap k (some p) = record k { maps = k.maps - 1 }

unfoldable pub view_close : Process → ShmView → Process
view_close k v =
    let unmapped = view_unmap k v.base in
    if v.fd then record unmapped { fds = unmapped.fds - 1 } else unmapped

pub record FirmwareInfo : Type 0 where
  pub fw_version : Str
  pub build_date : Str
  pub protocol_version : ℕ

-- "0.0.0-stub"
abbrev pub stub_version : Str
stub_version = 48 ∷ 46 ∷ 48 ∷ 46 ∷ 48 ∷ 45 ∷ 115 ∷ 116 ∷ 117 ∷ 98 ∷ []

-- "1970-01-01"
abbrev pub epoch : Str
epoch = 49 ∷ 57 ∷ 55 ∷ 48 ∷ 45 ∷ 48 ∷ 49 ∷ 45 ∷ 48 ∷ 49 ∷ []

-- "-sim"
abbrev pub sim_suffix : Str
sim_suffix = 45 ∷ 115 ∷ 105 ∷ 109 ∷ []

unfoldable pub major : ℕ → ℕ
major hw_ver = bit_and (hw_ver / 2 ^ 16) 0xff

unfoldable pub minor : ℕ → ℕ
minor hw_ver = bit_and (hw_ver / 2 ^ 8) 0xff

unfoldable pub patch : ℕ → ℕ
patch hw_ver = bit_and hw_ver 0xff

unfoldable pub version_string : ℕ → Str
version_string hw_ver =
    to_decimal (major hw_ver)
    ++ (46 ∷ (to_decimal (minor hw_ver) ++ (46 ∷ (to_decimal (patch hw_ver) ++ sim_suffix))))

module _ (date : ℕ → Str) where
  -- GetFirmwareInfo on the page, none without one.
  unfoldable pub firmware_info : Option Page → FirmwareInfo
  firmware_info none = record {
    fw_version = stub_version;
    build_date = epoch;
    protocol_version = 1;
  }
  firmware_info (some p) = record {
    fw_version = version_string p.regs.version;
    build_date = if ltb 0 p.stats.start_time_sec then date p.stats.start_time_sec else epoch;
    protocol_version = 1;
  }

  -- The whole call: the index, the view, the answer, and the view's destructor.
  unfoldable pub get_firmware_info :
      (Str → Option (Option Page)) → Process → Str → Process × FirmwareInfo
  get_firmware_info shm k device_id =
      let (k', v) = view_open k (shm (shm_name (parse_device_index device_id))) in
      (view_close k' v, firmware_info v.base)

-- ResetDevice: the process, the page after the call, and `success`.
unfoldable pub reset_call :
    (Str → Option (Option Page)) → Process → Str → Process × (Option Page × Bool)
reset_call shm k device_id =
    let (k', v) = view_open k (shm (shm_name (parse_device_index device_id))) in
    (view_close k' v, reset_device v.base)

-- The answers that no state decides: `success`, and "/dev/null".
unfoldable pub push_config : Str → Bool
push_config device_id = true

unfoldable pub console_path : Str → Str
console_path device_id = 47 ∷ 100 ∷ 101 ∷ 118 ∷ 47 ∷ 110 ∷ 117 ∷ 108 ∷ 108 ∷ []

held : (k : Process) (f m : ℕ) → f ≡ k.fds → m ≡ k.maps → record k { fds = f; maps = m } ≡ k
held k f m p q = ap₂ (λ (x y : ℕ). record k { fds = x; maps = y }) p q

-- Whatever shm_open and mmap answer, the destructor of a view gives back what its constructor took.
pub view_open-close :
    (k : Process) (answer : Option (Option Page))
    → view_close (view_open k answer).0 (view_open k answer).1 ≡ k
unfolding view_close view_open view_map view_unmap
view_open-close k none = refl
view_open-close k (some none) = held k _ _ (omega arith) refl
view_open-close k (some (some p)) = held k _ _ (omega arith) (omega arith)

-- The three numbers of the version string make up the low 24 bits of the register.
pub version_parts :
    (hw_ver : ℕ) → major hw_ver * 2 ^ 16 + minor hw_ver * 2 ^ 8 + patch hw_ver ≡ hw_ver % 2 ^ 24
unfolding major minor patch
version_parts hw_ver =
    omega (arith, and_byte (hw_ver / 2 ^ 16), and_byte (hw_ver / 2 ^ 8), and_byte hw_ver)
