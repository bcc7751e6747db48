-- ===== src/Kernel/Unwind.antt =====
-- What deepspan_uring_cmd_issue leaves behind on every path.
use deepspan.Common.{
  ℕ, zero, suc, ◌+◌, ◌-◌, ◌≡◌, ◌≤◌, ◌⊎◌, inl, inr, refl, sym, ap, ap₂, ◌∙◌, Bool, true, false, ◌==◌,
  if◌then◌else◌, min, Option, none, some, List, [], ◌∷◌, ◌++◌, length, take, replicate,
  length-append, length-take, length-replicate, arith,
}
use deepspan.Common.Bytes.{le32}
use deepspan.Userlib.AsyncClient.{ℤ, pos, negsuc}
use deepspan.Kernel.Request.{
  CmdReq, Request, Device, Answers, Issued, cmd_req_bytes, cmd_req_size, cmd_result_size, kzalloc,
  kfree, xa_erase, buf_len_of, inline_buf, fill, enomem, efault, eiocbqueued, err_free_req,
  err_free_buf, err_free_resp, err_xa_erase, issue_add, issue_xa, issue_copy, issue_resp, issue_buf,
  issue_req, uring_cmd_issue,
}

-- An id that no request is stored under.
unfoldable pub IsFresh : ℕ → List ℕ → Type 0
IsFresh id [] = Unit
IsFresh id (x ∷ xs) = ((x == id) ≡ false) × IsFresh id xs

pub xa_erase-IsFresh : (id : ℕ) (xs : List ℕ) → IsFresh id xs → xa_erase id xs ≡ xs
unfolding xa_erase IsFresh
xa_erase-IsFresh id [] h = refl
xa_erase-IsFresh id (x ∷ xs) h = rw (h.0) (ap (x ∷◌) (xa_erase-IsFresh id xs h.1))

pub xa_erase-cons : (id : ℕ) (xs : List ℕ) → IsFresh id xs → xa_erase id (id ∷ xs) ≡ xs
unfolding xa_erase
xa_erase-cons id xs h =
    let same : (id == id) ≡ true = ground arith in
    ap (λ (b : Bool). if b then xa_erase id xs else id ∷ xa_erase id xs) same
    ∙ xa_erase-IsFresh id xs h

-- An id that xa_alloc may give: within XA_LIMIT(1, DEEPSPAN_MAX_REQUESTS), and not in use.
unfoldable pub IsAllocated : ℤ → List ℕ → Type 0
IsAllocated (negsuc n) ids = Unit
IsAllocated (pos id) ids = (1 ≤ id) × (id ≤ 4096) × IsFresh id ids

length-cmd_req_bytes : (u : CmdReq) → length (cmd_req_bytes u) ≡ cmd_req_size
unfolding cmd_req_bytes le32
length-cmd_req_bytes u = refl

length-inline_buf : (u : CmdReq) → length (inline_buf u) ≡ buf_len_of u
unfolding inline_buf
length-inline_buf u =
    let n : ℕ = min (buf_len_of u) cmd_req_size in
    let taken : length (take n (cmd_req_bytes u)) ≡ min n cmd_req_size =
      length-take n (cmd_req_bytes u) ∙ ap (min n) (length-cmd_req_bytes u) in
    length-append (take n (cmd_req_bytes u)) (replicate (buf_len_of u - n) 0)
    ∙ ap₂ ◌+◌ taken (length-replicate (buf_len_of u - n) 0)
    ∙ omega arith

-- The buffer that the firmware is given has `buf_len` bytes.
length-fill :
    (u : CmdReq) (copied : Option (List ℕ)) (buf : List ℕ)
    → ((bytes : List ℕ) → copied ≡ some bytes → length bytes ≡ u.data_len)
    → fill u copied ≡ some buf
    → length buf ≡ buf_len_of u
unfolding fill buf_len_of
length-fill u copied buf h e = ground (arith, length-inline_buf u, h buf)

-- Nothing is left of the call, and the answer that stopped it is returned.
unfoldable pub IsRefused : Device → Answers → Issued → Type 0
IsRefused d a (d', ret) =
    (d' ≡ d) × ((ret ≡ enomem) ⊎ ((ret ≡ efault) ⊎ ((ret ≡ a.xa) ⊎ (ret ≡ a.added))))

-- One request is with the firmware, under the id that xa_alloc gave, with three blocks.
unfoldable pub IsQueued : Device → ℕ → CmdReq → Answers → Issued → Type 0
IsQueued d cmd u a (d', ret) =
    (ret ≡ eiocbqueued)
    × (r : Request) × (r.cmd ≡ cmd)
    × (pos r.req_id ≡ a.xa)
    × (length r.buf ≡ r.buf_len)
    × (r.resp_buf ≡ replicate 16 0)
    × (r.resp_len ≡ 16)
    × (d' ≡ record d {
      live = d.live + 3;
      pending = r.req_id ∷ d.pending;
      avail = d.avail ++ (r ∷ []);
      kicks = d.kicks + 1;
    })

with_live : Device → ℕ → List ℕ → Device
with_live d n ids = record d { live = n; pending = ids }

restored :
    (d : Device) (n : ℕ) (ids : List ℕ) → n ≡ d.live → ids ≡ d.pending → with_live d n ids ≡ d
unfolding with_live
restored d n ids p q = ap₂ (with_live d) p q

copied_all :
    (d : Device) (cmd : ℕ) (u : CmdReq) (a : Answers) (xa added : ℤ) (buf : List ℕ)
    → a.xa ≡ xa
    → a.added ≡ added
    → IsAllocated xa d.pending
    → length buf ≡ buf_len_of u
    → let after = issue_xa (record d { live = d.live + 1 + 1 + 1 }) cmd u buf xa added in
      IsRefused d a after ⊎ IsQueued d cmd u a after
unfolding IsRefused IsQueued issue_xa issue_add err_xa_erase err_free_resp err_free_buf err_free_req
    kfree IsAllocated with_live
copied_all d cmd u a (negsuc n) added buf p q fresh l =
    inl (restored d _ _ (omega arith) refl, inr (inr (inl (sym p))))
copied_all d cmd u a (pos id) (pos zero) buf p q fresh l = inr (
  refl,
  record {
    cmd = cmd;
    req_id = id;
    buf = buf;
    buf_len = buf_len_of u;
    resp_buf = replicate cmd_result_size 0;
    resp_len = cmd_result_size;
  },
  refl,
  sym p,
  l,
  refl,
  refl,
  ap
      (λ (n : ℕ). record d {
        live = n;
        pending = id ∷ d.pending;
        avail =
            d.avail
            ++ (record {
              cmd = cmd;
              req_id = id;
              buf = buf;
              buf_len = buf_len_of u;
              resp_buf = replicate cmd_result_size 0;
              resp_len = cmd_result_size;
            }
                ∷ []);
        kicks = d.kicks + 1;
      })
      (omega arith),
)
copied_all d cmd u a (pos id) (pos (suc n)) buf p q fresh l =
    inl (restored d _ _ (omega arith) (xa_erase-cons id d.pending fresh.2), inr (inr (inr (sym q))))
copied_all d cmd u a (pos id) (negsuc n) buf p q fresh l =
    inl (restored d _ _ (omega arith) (xa_erase-cons id d.pending fresh.2), inr (inr (inr (sym q))))

filled :
    (d : Device) (cmd : ℕ) (u : CmdReq) (a : Answers) (buf : Option (List ℕ))
    → IsAllocated a.xa d.pending
    → ((bytes : List ℕ) → buf ≡ some bytes → length bytes ≡ buf_len_of u)
    → let after = issue_copy (record d { live = d.live + 1 + 1 + 1 }) cmd u a buf in
      IsRefused d a after ⊎ IsQueued d cmd u a after
unfolding IsRefused issue_copy err_free_resp err_free_buf err_free_req kfree with_live
filled d cmd u a none fresh l = inl (restored d _ _ (omega arith) refl, inr (inl refl))
filled d cmd u a (some buf) fresh l =
    copied_all d cmd u a a.xa a.added buf refl refl fresh (l buf refl)

allocated :
    (d : Device) (cmd : ℕ) (u : CmdReq) (a : Answers) (req_fits buf_fits resp_fits : Bool)
    → a.buf_fits ≡ buf_fits
    → a.resp_fits ≡ resp_fits
    → IsAllocated a.xa d.pending
    → ((bytes : List ℕ) → a.copied ≡ some bytes → length bytes ≡ u.data_len)
    → let after = issue_req d cmd u a req_fits in IsRefused d a after ⊎ IsQueued d cmd u a after
unfolding issue_req issue_buf issue_resp issue_copy kzalloc err_free_req err_free_buf kfree
    IsRefused IsQueued with_live
allocated d cmd u a false b r p q fresh l = inl (refl, inl refl)
allocated d cmd u a true false r p q fresh l =
    rw p (inl (restored d _ _ (omega arith) refl, inl refl))
allocated d cmd u a true true false p q fresh l =
    rw (p, q) (inl (restored d _ _ (omega arith) refl, inl refl))
allocated d cmd u a true true true p q fresh l =
    rw (p, q)
      (filled d cmd u a (fill u a.copied) fresh (λ bytes e. length-fill u a.copied bytes l e))

-- If xa_alloc gives an unused id within its limit and copy_from_user copies `data_len` bytes, a call
-- either returns one of the four errors and changes nothing, what it allocated freed and its id
-- erased, or it returns -EIOCBQUEUED and one request with a buffer of `buf_len` bytes and a zeroed
-- response slot of 16 is with the firmware.
pub uring_cmd_issue-cases :
    (d : Device) (cmd : ℕ) (u : CmdReq) (a : Answers)
    → IsAllocated a.xa d.pending
    → ((bytes : List ℕ) → a.copied ≡ some bytes → length bytes ≡ u.data_len)
    → let after = uring_cmd_issue d cmd u a in IsRefused d a after ⊎ IsQueued d cmd u a after
unfolding uring_cmd_issue
uring_cmd_issue-cases d cmd u a fresh l =
    allocated d cmd u a a.req_fits a.buf_fits a.resp_fits refl refl fresh l
