-- ===== src/Server/HwipService/Parse.antt =====
-- What a device id is taken apart into.
use deepspan.Common.{
  ℕ, ◌≡◌, ◌↔◌, refl, sym, ap, ==_iff, ap₂, ◌∙◌, Bool, true, false, if◌then◌else◌, ◌||◌, ◌==◌,
  Option, none, some, [], ◌∷◌, ◌++◌, arith,
}
use deepspan.Server.StrMap.{Str}
use deepspan.Server.Registry.{slash}
use deepspan.Server.HwipService.{prefixed, cut, nonempty, is_empty, parse_device_id}

unfoldable pub has_slash : Str → Bool
has_slash [] = false
has_slash (c ∷ cs) = (c == slash) || has_slash cs

cut-join : (ty index : Str) → has_slash ty ≡ false → cut (ty ++ slash ∷ index) ≡ some (ty, index)
unfolding has_slash cut prefixed
cut-join [] index h = refl
cut-join (c ∷ cs) index h = ground (arith, h, cut-join cs index (ground (arith, h)))

cut-some :
    (id ty index : Str)
    → cut id ≡ some (ty, index)
    → (id ≡ ty ++ slash ∷ index) × (has_slash ty ≡ false)
unfolding has_slash cut prefixed
cut-some [] ty index e = absurd cc
cut-some (c ∷ cs) ty index e = go (c == slash) (cut cs) refl (cut-some cs) e
  where
    go :
        (b : Bool) (rest : Option (Str × Str))
        → (c == slash) ≡ b
        → ((t i : Str) → rest ≡ some (t, i) → (cs ≡ t ++ slash ∷ i) × (has_slash t ≡ false))
        → if◌then◌else◌ {A = Option (Str × Str)} b (some ([], cs)) (prefixed c rest)
          ≡ some (ty, index)
        → (c ∷ cs ≡ ty ++ slash ∷ index) × (has_slash ty ≡ false)
    go true rest t f g =
        let q : ([], cs) ≡ (ty, index) = cc in
        let a = ap (λ (x : Str × Str). x.0) q in
        let b = ap (λ (x : Str × Str). x.1) q in
        let at : c ≡ slash = (==_iff c slash).0 t in
        (ap (λ (x : ℕ). x ∷ cs) at ∙ ap₂ (λ (x y : Str). x ++ slash ∷ y) a b, ap has_slash (sym a))
    go false none t f g = absurd cc
    go false (some (before, after)) t f g =
        let q : (c ∷ before, after) ≡ (ty, index) = cc in
        let a = ap (λ (x : Str × Str). x.0) q in
        let b = ap (λ (x : Str × Str). x.1) q in
        let (join, h) = f before after refl in
        (
          ap (◌∷◌ c) join ∙ ap₂ (λ (x y : Str). x ++ slash ∷ y) a b,
          ap has_slash (sym a) ∙ ground (arith, t, h),
        )

nonempty-some :
    (o : Option (Str × Str)) (ty index : Str)
    → nonempty o ≡ some (ty, index)
    → (o ≡ some (ty, index)) × (is_empty ty ≡ false) × (is_empty index ≡ false)
unfolding nonempty
nonempty-some none ty index e = absurd cc
nonempty-some (some ([], i)) ty index e = absurd cc
nonempty-some (some (c ∷ cs, [])) ty index e = absurd cc
nonempty-some (some (c ∷ cs, d ∷ ds)) ty index e =
    let q : (c ∷ cs, d ∷ ds) ≡ (ty, index) = cc in
    (e, ap (λ (x : Str × Str). is_empty x.0) (sym q), ap (λ (x : Str × Str). is_empty x.1) (sym q))

some-nonempty :
    (ty index : Str)
    → is_empty ty ≡ false
    → is_empty index ≡ false
    → nonempty (some (ty, index)) ≡ some (ty, index)
unfolding nonempty
some-nonempty [] index a b = absurd cc
some-nonempty (c ∷ cs) [] a b = absurd cc
some-nonempty (c ∷ cs) (d ∷ ds) a b = refl

pub parse_device_id-join :
    (ty index : Str)
    → has_slash ty ≡ false
    → is_empty ty ≡ false
    → is_empty index ≡ false
    → parse_device_id (ty ++ slash ∷ index) ≡ some (ty, index)
unfolding parse_device_id
parse_device_id-join ty index h a b = ap nonempty (cut-join ty index h) ∙ some-nonempty ty index a b

-- A device id is accepted as type and index exactly when it is the type, a slash and the index,
-- neither empty and the type without a slash; the index may have further slashes.
pub parse_device_id_iff :
    (id ty index : Str)
    → (parse_device_id id ≡ some (ty, index)) ↔ (
        (id ≡ ty ++ slash ∷ index)
        × (has_slash ty ≡ false)
        × (is_empty ty ≡ false)
        × (is_empty index ≡ false))
unfolding parse_device_id
parse_device_id_iff id ty index = (
  λ e.
      let (cut_id, a, b) = nonempty-some (cut id) ty index e in
      let (join, h) = cut-some id ty index cut_id in (join, h, a, b),
  λ (join, h, a, b). ap parse_device_id join ∙ parse_device_id-join ty index h a b,
)
