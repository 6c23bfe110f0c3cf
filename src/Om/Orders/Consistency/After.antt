-- ===== src/Om/Orders/Consistency/After.antt =====
-- src/om/ExchangeClient.cpp: calls that give a result beside the client.
use hyperliquid_cpp.Core.Hex.{Cloid}
use hyperliquid_cpp.Om.Orders.{Tracked, Client}
use hyperliquid_cpp.Om.Orders.Table.{hold, store}
use hyperliquid_cpp.Om.Orders.Cancels.{mark_cancel}
use hyperliquid_cpp.Om.Orders.Consistency.{IsConsistent, hold-IsFit, store-IsConsistent}
use hyperliquid_cpp.Om.Orders.Consistency.Found.{IsStored}

-- The client after a call that also gives a result.
unfoldable pub IsConsistentAfter {ℓ} : {R : Type ℓ} → Client × R → Type 0
IsConsistentAfter p = IsConsistent p.0

pub after {ℓ} : {R : Type ℓ} (s : Client) (r : R) → IsConsistent s → IsConsistentAfter (s, r)
unfolding IsConsistentAfter
after s r ok = ok

pub mark-IsConsistent :
    (s : Client) (key : Cloid) (t : Tracked)
    → IsConsistent s
    → IsStored s (key, t)
    → IsConsistent (store s key (hold s (mark_cancel t)))
mark-IsConsistent s key t ok at = store-IsConsistent s key _ ok (hold-IsFit s key ok t at)
