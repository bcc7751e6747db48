-- ===== src/Server/Plugins.antt =====
-- server/src/registry.cpp: load_plugin and unload_plugin, on the map from paths to dlopen handles.
-- What dlopen returns is given; what a plugin registers itself is `Registry.register_type`.
use deepspan.Common.{
  ℕ, ◌≡◌, refl, ap, Bool, true, false, not, ◌||◌, ◌&&◌, ◌==◌, Option, none, some, List, [], ◌∷◌,
}
use deepspan.Server.StrMap.{Str, insert}

abbrev pub Handles : Type 0
Handles = List (Str × ℕ)

-- none is a null handle; the result's second part is what load_plugin returns.
unfoldable pub load_plugin : Handles → Str → Option ℕ → Handles × Bool
load_plugin hs path none = (hs, false)
load_plugin hs path (some handle) = (insert path handle hs, true)

unfoldable pub is_prefix : Str → Str → Bool
is_prefix [] s = true
is_prefix (c ∷ cs) [] = false
is_prefix (c ∷ cs) (d ∷ ds) = (c == d) && is_prefix cs ds

-- path.find(type) != npos
unfoldable pub contains : Str → Str → Bool
contains ty [] = is_prefix ty []
contains ty (d ∷ ds) = is_prefix ty (d ∷ ds) || contains ty ds

-- What becomes of an entry: an erased one leaves its handle to the rest of the loop.
unfoldable pub unload_entry :
    Bool → Str × ℕ → Handles × Option ℕ → Handles × Option ℕ → Handles × Option ℕ
unload_entry true entry erased kept = erased
unload_entry false entry erased kept = (entry ∷ kept.0, kept.1)

-- The loop: the entries that stay, and `handle` at the end.
unfoldable pub unload_loop : Str → Handles → Option ℕ → Handles × Option ℕ
unload_loop ty [] handle = ([], handle)
unload_loop ty ((path, h) ∷ hs) handle =
    unload_entry (contains ty path) (path, h) (unload_loop ty hs (some h))
      (unload_loop ty hs handle)

unfoldable pub dlclose : Option ℕ → List ℕ
dlclose none = []
dlclose (some h) = h ∷ []

-- The handles that stay in the map, and those that are closed.
unfoldable pub unload_plugin : Str → Handles → Handles × List ℕ
unload_plugin ty hs = let (kept, handle) = unload_loop ty hs none in (kept, dlclose handle)

unfoldable pub cons_if {ℓ} : {A : Type ℓ} → Bool → A → List A → List A
cons_if true a xs = a ∷ xs
cons_if false a xs = xs

-- The handles whose path contains the type's name, and the other entries.
unfoldable pub matching : Str → Handles → List ℕ
matching ty [] = []
matching ty ((path, h) ∷ hs) = cons_if (contains ty path) h (matching ty hs)

unfoldable pub others : Str → Handles → Handles
others ty [] = []
others ty ((path, h) ∷ hs) = cons_if (not (contains ty path)) (path, h) (others ty hs)

unfoldable pub last_or : Option ℕ → List ℕ → Option ℕ
last_or d [] = d
last_or d (h ∷ hs) = last_or (some h) hs

abbrev outcome : Handles → Option ℕ → List ℕ → Handles × Option ℕ
outcome kept handle found = (kept, last_or handle found)

unload_entry-last :
    (b : Bool) (path : Str) (h : ℕ) (kept : Handles) (handle : Option ℕ) (found : List ℕ)
    (erased rest : Handles × Option ℕ)
    → erased ≡ outcome kept (some h) found
    → rest ≡ outcome kept handle found
    → unload_entry b (path, h) erased rest
      ≡ outcome (cons_if (not b) (path, h) kept) handle (cons_if b h found)
unfolding unload_entry cons_if last_or
unload_entry-last true path h kept handle found erased rest p q = p
unload_entry-last false path h kept handle found erased rest p q =
    ap (λ (r : Handles × Option ℕ). unload_entry false (path, h) erased r) q

unload_loop-last :
    (ty : Str) (hs : Handles) (handle : Option ℕ)
    → unload_loop ty hs handle ≡ outcome (others ty hs) handle (matching ty hs)
unfolding unload_loop others last_or matching
unload_loop-last ty [] handle = refl
unload_loop-last ty ((path, h) ∷ hs) handle =
    unload_entry-last (contains ty path) path h (others ty hs) handle (matching ty hs)
      (unload_loop ty hs (some h)) (unload_loop ty hs handle) (unload_loop-last ty hs (some h))
      (unload_loop-last ty hs handle)

abbrev closing : Handles × Option ℕ → Handles × List ℕ
closing (kept, handle) = (kept, dlclose handle)

-- unload_plugin() forgets every plugin whose path contains the type's name, but closes only the
-- last of them in the order of the paths.
pub unload_plugin-last :
    (ty : Str) (hs : Handles)
    → unload_plugin ty hs ≡ (others ty hs, dlclose (last_or none (matching ty hs)))
unfolding unload_plugin
unload_plugin-last ty hs = ap closing (unload_loop-last ty hs none)
