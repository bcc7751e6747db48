-- ===== src/Userlib/Handles/Leaks.antt =====
-- What a pool's creation and destruction leave open.
use deepspan.Common.{
  ℕ, suc, ◌+◌, ◌-◌, ◌≡◌, subst, Bool, true, false, if◌then◌else◌, ◌==◌, ltb, Option, none, some,
  List, [], ◌∷◌, ◌++◌, length, length-append, arith,
}
use deepspan.Userlib.AsyncClient.{Expected, unexpected, expected}
use deepspan.Userlib.Device.{
  Os, Answers, DeepspanDevice, AsyncClient, open_device, opened, query_version, accepted,
  uapi_version_min, close, close_if, destroy_device, create_client, client_on, queue_init,
  queue_exit, destroy_client, remove,
}
use deepspan.Userlib.Handles.{
  Entry, destroy_entries, add_client, add_entry, create_loop, next, create,
}

abbrev pub held : ℕ → Option ℕ → ℕ
held k none = 0
held k (some i) = if i == k then 1 else 0

-- How often `k` is open.
unfoldable pub count : ℕ → List ℕ → ℕ
count k [] = 0
count k (x ∷ xs) = held k (some x) + count k xs

pub held_fds : ℕ → List Entry → ℕ
held_fds k [] = 0
held_fds k (e ∷ es) = held k e.device.fd + held_fds k es

pub held_rings : ℕ → List Entry → ℕ
held_rings k [] = 0
held_rings k (e ∷ es) = held k e.client.ring + held_rings k es

-- Each descriptor is open as often as before and `fs` times more, and so each ring.
pub record Balance (before after : Os) (fs rs : ℕ → ℕ) : Type 0 where
  pub descriptors : (k : ℕ) → count k after.fds ≡ count k before.fds + fs k
  pub queues : (k : ℕ) → count k after.rings ≡ count k before.rings + rs k

count-remove : (k j : ℕ) (xs : List ℕ) → count k (remove j xs) ≡ count k xs - held k (some j)
unfolding count remove
count-remove k j [] = ground arith
count-remove k j (x ∷ xs) = ground (arith, count-remove k j xs)

held_fds-append :
    (k : ℕ) (es : List Entry) (e : Entry)
    → held_fds k (es ++ e ∷ []) ≡ held_fds k es + held k e.device.fd
unfolding held_fds
held_fds-append k [] e = omega arith
held_fds-append k (d ∷ es) e = omega (arith, held_fds-append k es e)

held_rings-append :
    (k : ℕ) (es : List Entry) (e : Entry)
    → held_rings k (es ++ e ∷ []) ≡ held_rings k es + held k e.client.ring
unfolding held_rings
held_rings-append k [] e = omega arith
held_rings-append k (d ∷ es) e = omega (arith, held_rings-append k es e)

pub destroy_device-Balance :
    (before os : Os) (dev : DeepspanDevice) (fs rs : ℕ → ℕ)
    → Balance before os (λ k. held k dev.fd + fs k) rs
    → Balance before (destroy_device os dev) fs rs
unfolding destroy_device close_if close
destroy_device-Balance before os dev fs rs b =
    elim dev.fd
        as (λ o.
          Balance before os (λ k. held k o + fs k) rs → Balance before (close_if os o) fs rs) [
            | none ↦
                λ c. record { descriptors = λ k. omega (arith, c.descriptors k); queues = c.queues }
            | some fd ↦ λ c. record {
              descriptors = λ k. omega (arith, c.descriptors k, count-remove k fd os.fds);
              queues = c.queues;
            }
          ]
      b

pub destroy_client-Balance :
    (before os : Os) (client : AsyncClient) (fs rs : ℕ → ℕ)
    → Balance before os fs (λ k. held k client.ring + rs k)
    → Balance before (destroy_client os client) fs rs
unfolding destroy_client queue_exit
destroy_client-Balance before os client fs rs b =
    elim client.ring
        as (λ o.
          Balance before os fs (λ k. held k o + rs k) → Balance before (queue_exit os o) fs rs) [
            | none ↦
                λ c. record { descriptors = c.descriptors; queues = λ k. omega (arith, c.queues k) }
            | some ring ↦ λ c. record {
              descriptors = c.descriptors;
              queues = λ k. omega (arith, c.queues k, count-remove k ring os.rings);
            }
          ]
      b

-- The entries of `es` are open, besides what was open before.
pub Open : Os → Os → List Entry → Type 0
Open before os es = Balance before os (λ k. held_fds k es) (λ k. held_rings k es)

destroy_entries-Open :
    (before os : Os) (es : List Entry) → Open before os es → Open before (destroy_entries os es) []
unfolding destroy_entries held_fds held_rings Open
destroy_entries-Open before os [] o = o
destroy_entries-Open before os (e ∷ es) o =
    destroy_entries-Open before (destroy_device (destroy_client os e.client) e.device) es (
      destroy_device-Balance before (destroy_client os e.client) e.device (λ k. held_fds k es)
        (λ k. held_rings k es)
        (destroy_client-Balance before os e.client (λ k. held k e.device.fd + held_fds k es)
          (λ k. held_rings k es) o))

-- After a step that starts with `n` entries: all are open, and a new one; or a failure has closed
-- everything.
unfoldable pub Settled : Os → ℕ → Os × Expected (List Entry) → Type 0
Settled before n (os, unexpected e) = Open before os []
Settled before n (os, expected es) = Open before os es × (length es ≡ n)

-- `dev` is open and in no entry yet.
Opened : Os → List Entry → Os × Expected DeepspanDevice → Type 0
Opened before es (os, unexpected e) = Open before os es
Opened before es (os, expected dev) =
    Balance before os (λ k. held k dev.fd + held_fds k es) (λ k. held_rings k es)

close-Open :
    (before os : Os) (es : List Entry) (fd : ℕ)
    → Open before os es
    → Open before (close (record os { fds = fd ∷ os.fds }) fd) es
unfolding Open close count
close-Open before os es fd o = record {
  descriptors = λ k. omega (arith, o.descriptors k, count-remove k fd (fd ∷ os.fds));
  queues = o.queues;
}

accepted-Opened :
    (before os : Os) (es : List Entry) (fd ver : ℕ) (old : Bool)
    → Open before os es
    → Opened before es (accepted (record os { fds = fd ∷ os.fds }) fd ver old)
unfolding Opened Open accepted count
accepted-Opened before os es fd ver true o = close-Open before os es fd o
accepted-Opened before os es fd ver false o = record {
  descriptors = λ k. omega (arith, o.descriptors k);
  queues = o.queues;
}

opened-Opened :
    (before os : Os) (es : List Entry) (fd version : Option ℕ)
    → Open before os es
    → Opened before es (opened os fd version)
unfolding opened query_version Opened
opened-Opened before os es none version o = o
opened-Opened before os es (some fd) none o = close-Open before os es fd o
opened-Opened before os es (some fd) (some ver) o =
    accepted-Opened before os es fd ver (ltb ver uapi_version_min) o

-- The device is closed again where there is no client, and the entries with it.
client_on-Settled :
    (before os : Os) (es : List Entry) (dev : DeepspanDevice) (ring fd : Option ℕ)
    → Balance before os (λ k. held k dev.fd + held_fds k es) (λ k. held_rings k es)
    → Settled before (suc (length es)) (add_client (client_on os ring fd) dev es)
unfolding Settled client_on queue_init add_client Open count
client_on-Settled before os es dev ring none b =
    destroy_entries-Open before (destroy_device os dev) es
      (destroy_device-Balance before os dev (λ k. held_fds k es) (λ k. held_rings k es) b)
client_on-Settled before os es dev none (some fd) b =
    destroy_entries-Open before (destroy_device os dev) es
      (destroy_device-Balance before os dev (λ k. held_fds k es) (λ k. held_rings k es) b)
client_on-Settled before os es dev (some ring) (some fd) b =
    let e : Entry = record {
      device = dev;
      client = record { ring = some ring; device_fd = some fd };
      in_use = false;
    } in
    (
      record {
        descriptors = λ k. omega (arith, b.descriptors k, held_fds-append k es e);
        queues = λ k. omega (arith, b.queues k, held_rings-append k es e);
      },
      omega (arith, length-append es (e ∷ [])),
    )

add_entry-Settled :
    (before : Os) (es : List Entry) (a : Answers) (r : Os × Expected DeepspanDevice)
    → Opened before es r
    → Settled before (suc (length es)) (add_entry a r es)
unfolding Opened add_entry Settled create_client
add_entry-Settled before es a (os, unexpected e) o = destroy_entries-Open before os es o
add_entry-Settled before es a (os, expected dev) o =
    client_on-Settled before os es dev a.ring dev.fd o

create_loop-Settled :
    (before os : Os) (answers : List Answers) (es : List Entry)
    → Open before os es
    → Settled before (length es + length answers) (create_loop os answers es)
unfolding create_loop Settled open_device next Open
create_loop-Settled before os [] es o = (o, omega arith)
create_loop-Settled before os (a ∷ answers) es o =
    go (add_entry a (open_device os a) es)
      (add_entry-Settled before es a (open_device os a)
        (opened-Opened before os es a.fd a.version o))
      (λ os' es' o'. create_loop-Settled before os' answers es' o')
  where
    go :
        (r : Os × Expected (List Entry))
        → Settled before (suc (length es)) r
        → ((os' : Os) (es' : List Entry)
            → Open before os' es'
            → Settled before (length es' + length answers) (create_loop os' answers es'))
        → Settled before
            (length es + length (a ∷ answers))
            (next r (λ (os' : Os) (es' : List Entry). create_loop os' answers es'))
    go (os', unexpected e) s rest = s
    go (os', expected es') (s, n) rest =
        subst (λ (m : ℕ). Settled before m (create_loop os' answers es')) (omega (arith, n))
          (rest os' es' s)

-- Either creation gives as many entries as there are paths, and besides what was open before exactly
-- what the entries hold is open, each descriptor and ring as often as entries hold it; or it fails,
-- and everything that had been opened is closed again.
pub create_leaks_nothing :
    (os : Os) (answers : List Answers) → Settled os (length answers) (create os answers)
unfolding create Open held_fds held_rings
create_leaks_nothing os answers =
    let start : Open os os [] = record {
      descriptors = λ k. omega arith;
      queues = λ k. omega arith;
    } in
    let zero_add : length {A = Entry} [] + length answers ≡ length answers = omega arith in
    subst (λ (n : ℕ). Settled os n (create_loop os answers [])) zero_add
      (create_loop-Settled os os answers [] start)

-- A pool that is destroyed closes every descriptor and ring that its creation opened.
pub created_and_destroyed :
    (os os' : Os) (answers : List Answers) (entries : List Entry)
    → create os answers ≡ (os', expected entries)
    → (k : ℕ)
    → (count k (destroy_entries os' entries).fds ≡ count k os.fds)
      × (count k (destroy_entries os' entries).rings ≡ count k os.rings)
unfolding Settled Open held_fds held_rings
created_and_destroyed os os' answers entries e k =
    let (o, n) = subst (Settled os (length answers)) e (create_leaks_nothing os answers) in
    let b = destroy_entries-Open os os' entries o in
    (omega (arith, b.descriptors k), omega (arith, b.queues k))
