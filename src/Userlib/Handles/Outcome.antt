-- ===== src/Userlib/Handles/Outcome.antt =====
-- When DevicePool::create succeeds, with what error it fails, and what the pool then has.
use deepspan.Common.{
  ℕ, ◌≡◌, refl, subst, sym, Bool, true, false, if◌then◌else◌, ltb, Option, none, some, List, [],
  ◌∷◌, ◌++◌, length,
}
use mathlib.Core.List.{append_assoc, append-nil}
use deepspan.Userlib.AsyncClient.{
  Error, Expected, unexpected, expected, unsupported_kernel_version, io_error, device_open_failed,
  iouring_setup_failed,
}
use deepspan.Userlib.Device.{
  Os, Answers, open_device, opened, query_version, accepted, uapi_version_min, create_client,
  client_on, queue_init,
}
use deepspan.Userlib.Handles.{Entry, add_client, add_entry, create_loop, next, create}
use deepspan.Userlib.Handles.Leaks.{Open, Settled, create_leaks_nothing}

refusal_of : Option ℕ → Option ℕ → Option ℕ → Option Error
refusal_of none version ring = some device_open_failed
refusal_of (some fd) none ring = some io_error
refusal_of (some fd) (some ver) none =
    if ltb ver uapi_version_min then some unsupported_kernel_version else some iouring_setup_failed
refusal_of (some fd) (some ver) (some ring) =
    if ltb ver uapi_version_min then some unsupported_kernel_version else none

-- The error of the first call that fails for a path: open(2), the version ioctl, a version that is
-- too old, io_uring_queue_init.
pub refusal : Answers → Option Error
refusal a = refusal_of a.fd a.version a.ring

or_first : Option Error → Option Error → Option Error
or_first none e = e
or_first (some e) e' = some e

-- The error of the first path that is refused.
pub first_refusal : List Answers → Option Error
first_refusal [] = none
first_refusal (a ∷ answers) = or_first (refusal a) (first_refusal answers)

-- The entry of a path has the descriptor, the version and the ring that the kernel gave for it.
abbrev pub IsEntryOf : Answers → Entry → Type 0
IsEntryOf a e =
    (e.device.fd ≡ a.fd)
    × (some e.device.kernel_uapi_version ≡ a.version)
    × (e.client.ring ≡ a.ring)
    × (e.client.device_fd ≡ a.fd)
    × (e.in_use ≡ false)

unfoldable pub AreEntriesOf : List Answers → List Entry → Type 0
AreEntriesOf [] [] = Unit
AreEntriesOf (a ∷ answers) (e ∷ es) = IsEntryOf a e × AreEntriesOf answers es
AreEntriesOf _ _ = ⊥

AreEntriesOf-append :
    (answers : List Answers) (es : List Entry) (a : Answers) (e : Entry)
    → AreEntriesOf answers es
    → IsEntryOf a e
    → AreEntriesOf (answers ++ a ∷ []) (es ++ e ∷ [])
unfolding AreEntriesOf
AreEntriesOf-append [] [] a e h k = (k, tt)
AreEntriesOf-append [] (x ∷ es) a e h k = absurd h
AreEntriesOf-append (b ∷ answers) [] a e h k = absurd h
AreEntriesOf-append (b ∷ answers) (x ∷ es) a e (g, h) k =
    (g, AreEntriesOf-append answers es a e h k)

-- What a part of the loop, over `answers` after `done`, returns.
Answered : List Answers → Option Error → List Answers → Expected (List Entry) → Type 0
Answered done refused answers (unexpected e) = refused ≡ some e
Answered done refused answers (expected es) = (refused ≡ none) × AreEntriesOf (done ++ answers) es

accepted-Answered :
    (os : Os) (done : List Answers) (es : List Entry) (fd ver : ℕ) (ring : Option ℕ) (old : Bool)
    → ltb ver uapi_version_min ≡ old
    → AreEntriesOf done es
    → let a : Answers = record { fd = some fd; version = some ver; ring = ring } in
      Answered done (refusal a) (a ∷ []) (add_entry a (accepted os fd ver old) es).1
unfolding Answered refusal refusal_of add_entry add_client accepted create_client client_on
    queue_init
accepted-Answered os done es fd ver none true e h = rw e refl
accepted-Answered os done es fd ver (some ring) true e h = rw e refl
accepted-Answered os done es fd ver none false e h = rw e refl
accepted-Answered os done es fd ver (some ring) false e h =
    rw e (refl, AreEntriesOf-append done es _ _ h (refl, refl, refl, refl, refl))

opened-Answered :
    (os : Os) (done : List Answers) (es : List Entry) (fd version ring : Option ℕ)
    → AreEntriesOf done es
    → let a : Answers = record { fd = fd; version = version; ring = ring } in
      Answered done (refusal a) (a ∷ []) (add_entry a (opened os fd version) es).1
unfolding Answered refusal refusal_of add_entry opened query_version
opened-Answered os done es none version ring h = refl
opened-Answered os done es (some fd) none ring h = refl
opened-Answered os done es (some fd) (some ver) ring h =
    accepted-Answered (record os { fds = fd ∷ os.fds }) done es fd ver ring
      (ltb ver uapi_version_min) refl h

Answered-shift :
    (done : List Answers) (a : Answers) (answers : List Answers) (refused : Option Error)
    (r : Expected (List Entry))
    → Answered (done ++ a ∷ []) refused answers r
    → Answered done refused (a ∷ answers) r
unfolding Answered
Answered-shift done a answers refused (unexpected e) h = h
Answered-shift done a answers refused (expected es) (h, k) =
    (h, subst (λ (as' : List Answers). AreEntriesOf as' es) (append_assoc done (a ∷ []) answers) k)

create_loop-Answered :
    (os : Os) (done answers : List Answers) (es : List Entry)
    → AreEntriesOf done es
    → Answered done (first_refusal answers) answers (create_loop os answers es).1
unfolding create_loop Answered open_device next first_refusal or_first
create_loop-Answered os done [] es h =
    (refl, subst (λ (as' : List Answers). AreEntriesOf as' es) (sym (append-nil done)) h)
create_loop-Answered os done (a ∷ answers) es h =
    go (add_entry a (open_device os a) es) (refusal a)
      (opened-Answered os done es a.fd a.version a.ring h)
      (λ os' es' m. create_loop-Answered os' (done ++ a ∷ []) answers es' m)
  where
    go :
        (r : Os × Expected (List Entry)) (refused : Option Error)
        → Answered done refused (a ∷ []) r.1
        → ((os' : Os) (es' : List Entry)
            → AreEntriesOf (done ++ a ∷ []) es'
            → Answered
                (done ++ a ∷ [])
                (first_refusal answers)
                answers
                (create_loop os' answers es').1)
        → Answered done
            (or_first refused (first_refusal answers))
            (a ∷ answers)
            (next r (λ (os' : Os) (es' : List Entry). create_loop os' answers es')).1
    go (os', unexpected e) refused k rest = rw k refl
    go (os', expected es') refused (k, m) rest = rw k (
        Answered-shift done a answers (first_refusal answers) (create_loop os' answers es').1
          (rest os' es' m))

-- A failure and a success of `create` on the answers.
unfoldable pub Created : Os → List Answers → Os × Expected (List Entry) → Type 0
Created before answers (os, unexpected e) = (first_refusal answers ≡ some e) × Open before os []
Created before answers (os, expected es) =
    (first_refusal answers ≡ none) × AreEntriesOf answers es × Open before os es

Created-both :
    (before : Os) (answers : List Answers) (n : ℕ) (r : Os × Expected (List Entry))
    → Settled before n r
    → Answered [] (first_refusal answers) answers r.1
    → Created before answers r
unfolding Settled Answered Created
Created-both before answers n (os, unexpected e) s a = (a, s)
Created-both before answers n (os, expected es) s a = (a.0, a.1, s.0)

-- If some path is refused, the pool is not created: the error is that of the first call that fails
-- for the first such path, and everything that had been opened is closed again, each descriptor and
-- ring as often as it was opened. If none is, the pool is created: it has one entry for each path,
-- in their order, on that path's own descriptor, version and ring, and besides what was open before
-- exactly what the entries hold is open.
pub create-Created : (os : Os) (answers : List Answers) → Created os answers (create os answers)
unfolding create AreEntriesOf
create-Created os answers =
    Created-both os answers (length answers) (create os answers) (create_leaks_nothing os answers)
      (create_loop-Answered os [] answers [] tt)
