-- ===== src/Server/Rpc/Loading/Counting.antt =====
-- Which plugins are registered while the server loads and unloads them.
use deepspan.Common.{
  ℕ, ◌+◌, ◌-◌, ◌<◌, ◌≤◌, ◌≡◌, ◌≢◌, refl, subst, ap, ◌∙◌, Bool, true, false, ltb, ◌==◌,
  if◌then◌else◌, Option, none, some, List, [], ◌∷◌, ◌++◌, arith,
}
use mathlib.Core.List.{append-nil}
use deepspan.Plugin.Object.{
  World, Kind, accel, crc32, type_name, factory, registrar, registrar_gone, bytes_of,
}
use deepspan.Server.StrMap.{
  Str, cmp, equal, less, greater, cmp_refl, find, insert, IsMap, IsMap-insert, IsMap-erase,
  find-insert, find-insert_other, find-erase, find-erase_other,
}
use deepspan.Server.Registry.{Registry, SubmitterFactory, register_type, unregister_type}
use deepspan.Server.Plugins.{
  Handles, load_plugin, unload_plugin, contains, matching, others, last_or, cons_if,
  unload_plugin-last,
}
use deepspan.Server.Plugins
use deepspan.Server.Rpc.{IsLoaded}
use deepspan.Server.Rpc.Loading.{
  same_kind, handle_of, kind_at, one, Server, started, dlopen, dlclose, load, close_all, unload,
  PluginEvent, loads, unloads, after,
}

abbrev pub factory_if : Bool → World → Kind → Option SubmitterFactory
factory_if true w k = some (factory w k)
factory_if false w k = none

type_name_differ : cmp (bytes_of "accel") (bytes_of "crc32") ≢ equal
unfolding cmp
type_name_differ p = absurd cc

type_name_differ_sym : cmp (bytes_of "crc32") (bytes_of "accel") ≢ equal
unfolding cmp
type_name_differ_sym p = absurd cc

find-loads :
    (w : World) (k j : Kind) (r : Registry)
    → find (type_name k) (registrar w j r).factories
      ≡ (if same_kind k j then some (factory w k) else find (type_name k) r.factories)
unfolding registrar register_type same_kind
find-loads w accel accel r = find-insert (type_name accel) (factory w accel) r.factories
find-loads w crc32 crc32 r = find-insert (type_name crc32) (factory w crc32) r.factories
find-loads w accel crc32 r =
    find-insert_other (type_name accel) (type_name crc32) (factory w crc32) r.factories
      type_name_differ
find-loads w crc32 accel r =
    find-insert_other (type_name crc32) (type_name accel) (factory w accel) r.factories
      type_name_differ_sym

find-unloads :
    (k j : Kind) (r : Registry)
    → IsMap r.factories
    → find (type_name k) (registrar_gone j r).factories
      ≡ (if same_kind k j then none else find (type_name k) r.factories)
unfolding registrar_gone unregister_type same_kind
find-unloads accel accel r s = find-erase (type_name accel) r.factories s
find-unloads crc32 crc32 r s = find-erase (type_name crc32) r.factories s
find-unloads accel crc32 r s =
    find-erase_other (type_name accel) (type_name crc32) r.factories type_name_differ
find-unloads crc32 accel r s =
    find-erase_other (type_name crc32) (type_name accel) r.factories type_name_differ_sym

-- How many entries of the map have the plugin's handle.
unfoldable pub entries : Kind → Handles → ℕ
entries k [] = 0
entries k ((path, h) ∷ hs) = one k h + entries k hs

hits : Kind → List ℕ → ℕ
hits k [] = 0
hits k (h ∷ hs) = one k h + hits k hs

one_of : Kind → Option ℕ → ℕ
one_of k none = 0
one_of k (some h) = one k h

last_or-hits :
    (k : Kind) (d : Option ℕ) (hs : List ℕ) → one_of k (last_or d hs) ≤ one_of k d + hits k hs
unfolding last_or hits one_of
last_or-hits k d [] = omega arith
last_or-hits k d (h ∷ hs) = omega (arith, last_or-hits k (some h) hs)

entries-others :
    (k : Kind) (ty : Str) (hs : Handles)
    → entries k (others ty hs) + hits k (matching ty hs) ≡ entries k hs
unfolding entries others matching hits cons_if
entries-others k ty [] = refl
entries-others k ty ((path, h) ∷ hs) = ground (arith, entries-others k ty hs)

entries-insert :
    (k : Kind) (path : Str) (h : ℕ) (hs : Handles)
    → entries k (insert path h hs) ≤ entries k hs + one k h
unfolding entries insert
entries-insert k path h [] = omega arith
entries-insert k path h ((p, g) ∷ hs) =
    elim (cmp path p)
      as (λ c.
        entries k (elim c [
          | less ↦ (path, h) ∷ (p, g) ∷ hs
          | equal ↦ (path, h) ∷ hs
          | greater ↦ (p, g) ∷ insert path h hs
        ])
        ≤ one k g + entries k hs + one k h) [
          | less ↦ omega arith
          | equal ↦ omega arith
          | greater ↦ omega (arith, entries-insert k path h hs)
        ]

insert-insert :
    (path : Str) (h : ℕ) (hs : Handles) → insert path h (insert path h hs) ≡ insert path h hs
unfolding insert
insert-insert path h [] = ground (arith, cmp_refl path)
insert-insert path h ((p, g) ∷ hs) = ground (arith, cmp_refl path, insert-insert path h hs)

-- A plugin has its factory in the registry just while its library is open.
record IsCounted (w : World) (s : Server) : Type 0 where
  map : IsMap s.registry.factories
  factories :
      (k : Kind) → find (type_name k) s.registry.factories ≡ factory_if (ltb 0 (s.opens k)) w k

opened-find :
    (w : World) (k j : Kind) (n m : ℕ) (r : Registry)
    → (same_kind k j ≡ true → n ≡ m)
    → find (type_name j) r.factories ≡ factory_if (ltb 0 m) w j
    → find (type_name j) (if n == 0 then registrar w k r else r).factories
      ≡ factory_if (ltb 0 (m + (if same_kind k j then 1 else 0))) w j
unfolding same_kind
opened-find w accel accel n m r e f = ground (arith, e refl, find-loads w accel accel r)
opened-find w crc32 crc32 n m r e f = ground (arith, e refl, find-loads w crc32 crc32 r)
opened-find w accel crc32 n m r e f = ground (arith, find-loads w crc32 accel r)
opened-find w crc32 accel n m r e f = ground (arith, find-loads w accel crc32 r)

closed-find :
    (w : World) (k j : Kind) (n m : ℕ) (r : Registry)
    → (same_kind k j ≡ true → n ≡ m)
    → IsMap r.factories
    → find (type_name j) r.factories ≡ factory_if (ltb 0 m) w j
    → find (type_name j) (if n == 1 then registrar_gone k r else r).factories
      ≡ factory_if (ltb 0 (m - (if same_kind k j then 1 else 0))) w j
unfolding same_kind
closed-find w accel accel n m r e s f = ground (arith, e refl, find-unloads accel accel r s)
closed-find w crc32 crc32 n m r e s f = ground (arith, e refl, find-unloads crc32 crc32 r s)
closed-find w accel crc32 n m r e s f = ground (arith, find-unloads crc32 accel r s)
closed-find w crc32 accel n m r e s f = ground (arith, find-unloads accel crc32 r s)

same_kind-opens : (f : Kind → ℕ) (k j : Kind) → same_kind k j ≡ true → f k ≡ f j
unfolding same_kind
same_kind-opens f accel accel e = refl
same_kind-opens f crc32 crc32 e = refl
same_kind-opens f accel crc32 e = absurd cc
same_kind-opens f crc32 accel e = absurd cc

IsMap-if :
    (b : Bool) (x y : Registry)
    → IsMap x.factories
    → IsMap y.factories
    → IsMap (if b then x else y).factories
IsMap-if true x y h k = h
IsMap-if false x y h k = k

dlopen-IsCounted : (w : World) (h : ℕ) (s : Server) → IsCounted w s → IsCounted w (dlopen w h s)
unfolding dlopen registrar register_type
dlopen-IsCounted w h s c =
    let k : Kind = kind_at h in
    record {
      map =
          IsMap-if (s.opens k == 0) _ s.registry
            (IsMap-insert (type_name k) (factory w k) s.registry.factories c.map) c.map;
      factories = λ j.
          opened-find w k j (s.opens k) (s.opens j) s.registry (same_kind-opens s.opens k j)
            (c.factories j);
    }

dlclose-IsCounted : (w : World) (h : ℕ) (s : Server) → IsCounted w s → IsCounted w (dlclose h s)
unfolding dlclose registrar_gone unregister_type
dlclose-IsCounted w h s c =
    let k : Kind = kind_at h in
    record {
      map =
          IsMap-if (s.opens k == 1) _ s.registry
            (IsMap-erase (type_name k) s.registry.factories c.map) c.map;
      factories = λ j.
          closed-find w k j (s.opens k) (s.opens j) s.registry (same_kind-opens s.opens k j) c.map
            (c.factories j);
    }

-- Each plugin is open as often as entries of the map have its handle, and `d` times more at least.
record IsEntered (d : Kind → ℕ) (w : World) (s : Server) : Type 0 where
  counted : IsCounted w s
  entered : (k : Kind) → d k + entries k s.handles ≤ s.opens k

close_all-IsEntered :
    (d : Kind → ℕ) (w : World) (o : Option ℕ) (s : Server)
    → IsCounted w s
    → ((k : Kind) → d k + entries k s.handles + one_of k o ≤ s.opens k)
    → IsEntered d w (close_all (Plugins.dlclose o) s)
unfolding close_all Plugins.dlclose one_of dlclose
close_all-IsEntered d w none s c e = record { counted = c; entered = λ k. omega (arith, e k) }
close_all-IsEntered d w (some h) s c e = record {
  counted = dlclose-IsCounted w h s c;
  entered = λ k. omega (arith, e k);
}

unload-IsEntered :
    (d : Kind → ℕ) (w : World) (ty : Str) (s : Server)
    → IsEntered d w s
    → IsEntered d w (unload ty s)
unfolding unload one_of
unload-IsEntered d w ty s c = rw (unload_plugin-last ty s.handles) (
    close_all-IsEntered d w (last_or none (matching ty s.handles))
      (record s { handles = others ty s.handles })
      (record { map = c.counted.map; factories = c.counted.factories })
      (λ k. omega (
        arith,
        c.entered k,
        entries-others k ty s.handles,
        last_or-hits k none (matching ty s.handles),
      )))

load-IsEntered :
    (d : Kind → ℕ) (w : World) (path : Str) (o : Option Kind) (s : Server)
    → IsEntered d w s
    → IsEntered d w (load w path o s)
unfolding load load_plugin dlopen
load-IsEntered d w path none s c = c
load-IsEntered d w path (some k) s c =
    let c' = dlopen-IsCounted w (handle_of k) s c.counted in
    record {
      counted = record { map = c'.map; factories = c'.factories };
      entered = λ j. omega (arith, c.entered j, entries-insert j path (handle_of k) s.handles);
    }

twice-IsEntered :
    (w : World) (path : Str) (k : Kind) (s : Server)
    → IsEntered (λ j. 0) w s
    → IsEntered (λ j. one j (handle_of k)) w (load w path (some k) (load w path (some k) s))
unfolding load load_plugin dlopen
twice-IsEntered w path k s c =
    let h : ℕ = handle_of k in
    let q =
      load-IsEntered (λ j. 0) w path (some k) (load w path (some k) s)
        (load-IsEntered (λ j. 0) w path (some k) s c) in
    record {
      counted = q.counted;
      entered = λ j. omega (
        arith,
        c.entered j,
        entries-insert j path h s.handles,
        ap (entries j) (insert-insert path h s.handles),
      );
    }

module _ (w : World) (files : Str → Option Kind) where
  after-IsEntered :
      (d : Kind → ℕ) (us es : List PluginEvent)
      → IsEntered d w (after w files es)
      → IsEntered d w (after w files (us ++ es))
  unfolding after
  after-IsEntered d [] es c = c
  after-IsEntered d (loads path ∷ us) es c =
      load-IsEntered d w path (files path) (after w files (us ++ es)) (after-IsEntered d us es c)
  after-IsEntered d (unloads ty ∷ us) es c =
      unload-IsEntered d w ty (after w files (us ++ es)) (after-IsEntered d us es c)

  started-IsEntered : IsEntered (λ k. 0) w started
  unfolding IsMap find entries
  started-IsEntered = record {
    counted = record { map = tt; factories = λ k. refl };
    entered = λ k. omega arith;
  }

  reached : (es : List PluginEvent) → IsEntered (λ k. 0) w (after w files es)
  unfolding after
  reached es =
      subst (λ vs. IsEntered (λ k. 0) w (after w files vs)) (append-nil es)
        (after-IsEntered (λ k. 0) es [] started-IsEntered)

one-handle_of : (k : Kind) → one k (handle_of k) ≡ 1
unfolding same_kind
one-handle_of accel = refl
one-handle_of crc32 = refl

find-entries :
    (k : Kind) (path : Str) (h : ℕ) (hs : Handles) → find path hs ≡ some h → one k h ≤ entries k hs
unfolding find entries
find-entries k path h [] e = absurd cc
find-entries k path h ((p, g) ∷ hs) e = ground (arith, find-entries k path h hs)

open-IsLoaded :
    (w : World) (k : Kind) (s : Server) → IsCounted w s → 0 < s.opens k → IsLoaded w k s.registry
open-IsLoaded w k s c h =
    let e : ltb 0 (s.opens k) ≡ true = ground arith in
    c.factories k ∙ ap (λ (b : Bool). factory_if b w k) e

closes_one : (k : Kind) → 1 - one_of k (some (handle_of k)) ≡ 0
unfolding one_of
closes_one k = omega (arith, one-handle_of k)

close_all-opens :
    (k : Kind) (o : Option ℕ) (s : Server)
    → (close_all (Plugins.dlclose o) s).opens k ≡ s.opens k - one_of k o
unfolding close_all Plugins.dlclose one_of dlclose
close_all-opens k none s = omega arith
close_all-opens k (some h) s = refl

unload-opens :
    (k : Kind) (ty : Str) (s : Server)
    → (unload ty s).opens k ≡ s.opens k - one_of k (last_or none (matching ty s.handles))
unfolding unload
unload-opens k ty s = rw (unload_plugin-last ty s.handles) (
    close_all-opens k (last_or none (matching ty s.handles))
      (record s { handles = others ty s.handles }))

-- In whatever order load_plugin and unload_plugin are called, if each plugin is one library:
-- the registry has the factory of a plugin just while its library is open, and it is open, so that
-- SubmitRequest finds it, while the map has a path with its handle. Loading a path that leads to
-- the plugin enters the path; and unloading a type takes the factory away if the last path that has
-- the type's name in it is the plugin's, and the library was open once.
pub after-registered :
    (w : World) (files : Str → Option Kind) (es : List PluginEvent) (k : Kind)
    → let s = after w files es in
      (find (type_name k) s.registry.factories ≡ factory_if (ltb 0 (s.opens k)) w k)
      × ((path : Str) → find path s.handles ≡ some (handle_of k) → IsLoaded w k s.registry)
      × ((path : Str)
          → files path ≡ some k
          → find path (after w files (loads path ∷ es)).handles ≡ some (handle_of k))
      × ((ty : Str)
          → last_or none (matching ty s.handles) ≡ some (handle_of k)
          → s.opens k ≡ 1
          → find (type_name k) (after w files (unloads ty ∷ es)).registry.factories ≡ none)
unfolding after load load_plugin dlopen
after-registered w files es k =
    let s : Server = after w files es in
    let c = reached w files es in
    (
      c.counted.factories k,
      λ path e. open-IsLoaded w k s c.counted (
          omega
            (arith, c.entered k, one-handle_of k, find-entries k path (handle_of k) s.handles e)),
      λ path e. rw e (find-insert path (handle_of k) s.handles),
      λ ty e n.
          let closed : (unload ty s).opens k ≡ 0 = unload-opens k ty s ∙ rw (e, n) (closes_one k) in
          (reached w files (unloads ty ∷ es)).counted.factories k
          ∙ ap (λ (m : ℕ). factory_if (ltb 0 m) w k) closed,
    )

-- A plugin whose path was loaded twice in a row, both times with success, stays in the registry
-- whatever calls of load_plugin and unload_plugin follow, for the map has one entry for its two
-- references.
pub never_unloaded :
    (w : World) (files : Str → Option Kind) (us es : List PluginEvent) (path : Str) (k : Kind)
    → files path ≡ some k
    → IsLoaded w k (after w files (us ++ loads path ∷ loads path ∷ es)).registry
unfolding after
never_unloaded w files us es path k f =
    let d : Kind → ℕ = λ j. one j (handle_of k) in
    let twice : IsEntered d w (after w files (loads path ∷ loads path ∷ es)) =
      rw f (twice-IsEntered w path k (after w files es) (reached w files es)) in
    let q = after-IsEntered w files d us (loads path ∷ loads path ∷ es) twice in
    open-IsLoaded w k (after w files (us ++ loads path ∷ loads path ∷ es)) q.counted
      (omega (arith, q.entered k, one-handle_of k))
