-- ===== src/Server/Rpc/Loading.antt =====
-- The registry through the life of the server: load_plugin and unload_plugin of
-- server/src/registry.cpp on the map of handles, and what they cause by dlopen and dlclose. Those
-- count the references to a library: the static registrar of hwip/*/plugin/register.cpp is
-- constructed when a count leaves zero and destroyed when it comes back to zero. Each plugin is one
-- library, whatever paths lead to it.
pub mod Counting
use deepspan.Common.{
  ℕ, ◌+◌, ◌-◌, Bool, true, false, ◌==◌, if◌then◌else◌, Option, none, some, List, [], ◌∷◌,
}
use deepspan.Plugin.Object.{World, Kind, accel, crc32, registrar, registrar_gone}
use deepspan.Server.StrMap.{Str}
use deepspan.Server.Registry.{Registry}
use deepspan.Server.Plugins.{Handles, load_plugin, unload_plugin}

unfoldable pub same_kind : Kind → Kind → Bool
same_kind accel accel = true
same_kind crc32 crc32 = true
same_kind accel crc32 = false
same_kind crc32 accel = false

-- The handle of a plugin's library, not null.
abbrev pub handle_of : Kind → ℕ
handle_of accel = 1
handle_of crc32 = 2

abbrev pub kind_at : ℕ → Kind
kind_at h = if h == 1 then accel else crc32

-- One if the handle is of the plugin's library.
abbrev pub one : Kind → ℕ → ℕ
one k h = if same_kind (kind_at h) k then 1 else 0

-- `opens` are the reference counts.
pub record Server : Type 0 where
  pub handles : Handles
  pub opens : Kind → ℕ
  pub registry : Registry

abbrev pub started : Server
started = record { handles = []; opens = λ k. 0; registry = record { factories = [] } }

unfoldable pub dlopen : World → ℕ → Server → Server
dlopen w h s = record s {
  opens = λ k. s.opens k + one k h;
  registry = if s.opens (kind_at h) == 0 then registrar w (kind_at h) s.registry else s.registry;
}

unfoldable pub dlclose : ℕ → Server → Server
dlclose h s = record s {
  opens = λ k. s.opens k - one k h;
  registry = if s.opens (kind_at h) == 1 then registrar_gone (kind_at h) s.registry else s.registry;
}

-- What a path leads to; nothing where dlopen fails.
unfoldable pub load : World → Str → Option Kind → Server → Server
load w path none s = record s { handles = (load_plugin s.handles path none).0 }
load w path (some k) s =
    let s' = dlopen w (handle_of k) s in
    record s' { handles = (load_plugin s'.handles path (some (handle_of k))).0 }

unfoldable pub close_all : List ℕ → Server → Server
close_all [] s = s
close_all (h ∷ hs) s = close_all hs (dlclose h s)

unfoldable pub unload : Str → Server → Server
unload ty s =
    let (kept, closed) = unload_plugin ty s.handles in
    close_all closed (record s { handles = kept })

-- A call with a path, or with a type.
pub data PluginEvent : Type 0 where
  loads unloads : Str → PluginEvent

-- The server after the calls, of which the last stands first.
unfoldable pub after : World → (Str → Option Kind) → List PluginEvent → Server
after w files [] = started
after w files (loads path ∷ es) = load w path (files path) (after w files es)
after w files (unloads ty ∷ es) = unload ty (after w files es)
