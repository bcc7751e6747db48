-- ===== src/Kernel/Invariant.antt =====
-- The invariant of the driver's ids and blocks, and each operation on it.
use deepspan.Common.{
  ℕ, ◌+◌, ◌*◌, ◌≡◌, ◌≤◌, ◌<◌, true, inl, inr, sym, subst, ◌==◌, List, [], ◌∷◌, length,
  length-append, arith, ==_iff, Bool-cases, Option-cases,
}
use deepspan.Userlib.AsyncClient.{ℤ}
use deepspan.Kernel.Request.{CmdReq, Request, Completion, Device, Answers, Issued, kfree}
use deepspan.Kernel.Vqueue.{complete, pick, gave_back}
use deepspan.Kernel.Tally.{
  tally, tally-append, same, tally-xa_erase, length-xa_erase, length-bound, tally-IsFresh, Picked,
  pick_lem,
}
use deepspan.Kernel.Unwind.{IsFresh, IsAllocated, IsQueued}

abbrev pub id_of : Request → ℕ
id_of r = r.req_id

abbrev pub cmd_of : Request → ℕ
cmd_of r = r.cmd

abbrev pub done_of : Completion → ℕ
done_of c = c.cmd

-- `base` blocks are not requests'. Each outstanding request has three blocks and one id, which is
-- between 1 and 4096, and no id stands for two.
pub record Inv (base : ℕ) (d : Device) : Type 0 where
  pub blocks : d.live ≡ base + 3 * (length d.avail + length d.used)
  pub ids : (k : ℕ) → tally same k d.pending ≡ tally id_of k d.avail + tally id_of k d.used
  pub once : (k : ℕ) → tally same k d.pending ≤ 1
  pub size : length d.pending ≡ length d.avail + length d.used
  pub above : (k : ℕ) → 4096 < k → tally same k d.pending ≡ 0
  pub none_at : tally same 0 d.pending ≡ 0

-- There are never more than 4096 outstanding requests.
pub Inv-outstanding : (base : ℕ) (d : Device) → Inv base d → length d.avail + length d.used ≤ 4096
Inv-outstanding base d inv =
    omega (arith, inv.size, length-bound 4096 d.pending inv.once inv.above inv.none_at)

-- The commands `k` that the driver has taken: with the firmware, given back, or completed.
unfoldable pub taken : ℕ → Device → ℕ
taken k d = tally cmd_of k d.avail + tally cmd_of k d.used + tally done_of k d.completed

tally-fresh_cons :
    (id k : ℕ) (xs : List ℕ) → IsFresh id xs → tally same k xs ≤ 1 → tally same k (id ∷ xs) ≤ 1
unfolding tally
tally-fresh_cons id k xs fresh h = elim (Bool-cases (id == k)) [
  | inl e ↦
      let at_id : tally same k xs ≡ 0 =
        subst (λ (j : ℕ). tally same j xs ≡ 0) ((==_iff id k).0 e) (tally-IsFresh id xs fresh) in
      ground (arith, e, at_id)
  | inr e ↦ ground (arith, e, h)
]

pub queued-Inv :
    (base : ℕ) (d : Device) (cmd : ℕ) (u : CmdReq) (a : Answers) (after : Issued)
    → IsAllocated a.xa d.pending
    → IsQueued d cmd u a after
    → Inv base d
    → Inv base after.0
unfolding IsQueued IsAllocated tally
queued-Inv base d cmd u a (d', ret) fresh (e, r, c, x, l, z, n, same_device) inv =
    let (low, high, unused) = subst (λ (i : ℤ). IsAllocated i d.pending) (sym x) fresh in
    subst (Inv base) (sym same_device) (record {
      blocks = omega (arith, inv.blocks, length-append d.avail (r ∷ []));
      ids = λ k. omega (arith, inv.ids k, tally-append id_of k d.avail (r ∷ []));
      once = λ k. tally-fresh_cons r.req_id k d.pending unused (inv.once k);
      size = omega (arith, inv.size, length-append d.avail (r ∷ []));
      above = λ k l. ground (arith, high, inv.above k l);
      none_at = ground (arith, low, inv.none_at);
    })

pub respond-Inv :
    (base : ℕ) (d : Device) (i : ℕ) (bytes : List ℕ)
    → Inv base d
    → Inv base (gave_back d (pick d.avail i) bytes)
unfolding gave_back tally Picked
respond-Inv base d i bytes inv = elim (Option-cases (pick d.avail i)) [
  | inl h ↦ rw h inv
  | inr ((r, rest), h) ↦
      let (l, t) = pick_lem d.avail i (r, rest) h in
      let back : Request = record r { resp_buf = bytes } in
      rw h (record {
        blocks = omega (arith, inv.blocks, l, length-append d.used (back ∷ []));
        ids = λ k. omega (arith, inv.ids k, t id_of k, tally-append id_of k d.used (back ∷ []));
        once = inv.once;
        size = omega (arith, inv.size, l, length-append d.used (back ∷ []));
        above = inv.above;
        none_at = inv.none_at;
      })
]

pub complete-Inv :
    (base : ℕ) (d : Device) (r : Request) (rest : List Request)
    → Inv base (record d { used = r ∷ rest })
    → Inv base (complete (record d { used = rest }) r)
unfolding complete kfree tally
complete-Inv base d r rest inv = record {
  blocks = omega (arith, inv.blocks);
  ids = λ k. ground (arith, inv.ids k, inv.once k, tally-xa_erase r.req_id k d.pending);
  once = λ k. ground (arith, inv.once k, tally-xa_erase r.req_id k d.pending);
  size =
      let itself : (r.req_id == r.req_id) ≡ true = ground arith in
      ground (
        arith,
        itself,
        inv.size,
        inv.ids r.req_id,
        inv.once r.req_id,
        length-xa_erase r.req_id d.pending,
      );
  above = λ k l. ground (arith, inv.above k l, tally-xa_erase r.req_id k d.pending);
  none_at = ground (arith, inv.none_at, tally-xa_erase r.req_id 0 d.pending);
}
