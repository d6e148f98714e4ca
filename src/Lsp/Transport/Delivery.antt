-- ===== src/Lsp/Transport/Delivery.antt =====
-- Every registered request gets exactly one result.
use portolan.Prelude.{ℕ, ◌+◌, ◌≤◌, [], ◌≡◌, ◌⊎◌, arith}
use portolan.Lsp.Transport.{closed, aborted, Transport, new_transport}
use portolan.Lsp.Transport.Steps.{Reach}
use portolan.Lsp.Transport.Counting.{
  count, count_results, tally, new_transport-Inv, Reach-Inv, Reach-grows,
}
use portolan.Lsp.Transport.Lifecycle.{Reach-Life, new_transport-Life}

-- In every state that a new transport comes to, no request has been completed twice, and one that is
-- pending or about to be completed has not been completed.
pub settled_once :
    {t : Transport} (k : ℕ)
    → Reach new_transport t
    → count_results k t.settled + (count k t.pending + count_results k t.owed) ≤ 1
unfolding tally
settled_once k r = omega (arith, (Reach-Inv new_transport-Inv r).once k)

-- A request that was pending at any time of a run of a new transport has been completed, exactly once,
-- in any later state in which the transport is closed or aborted and no completion is under way.
pub all_settled :
    {t u : Transport} (k : ℕ)
    → Reach new_transport t
    → count k t.pending ≡ 1
    → Reach t u
    → (u.state ≡ closed) ⊎ (u.state ≡ aborted)
    → u.owed ≡ []
    → count_results k u.settled ≡ 1
unfolding tally
all_settled {t} {u} k r p s e o =
    let inv = Reach-Inv new_transport-Inv r in
    let life = Reach-Life (Reach-Life new_transport-Life r) s in
    ground (
      arith,
      Reach-grows k inv s,
      (Reach-Inv inv s).once k,
      life.closed_pending,
      life.aborted_pending,
    )
