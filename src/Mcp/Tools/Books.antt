-- ===== src/Mcp/Tools/Books.antt =====
-- What a payment action leaves in the receipts and in the audit, however it ends.
use mach.Base.{◌≡◌, if◌then◌else◌, some, [], ◌∷◌, ◌++◌}
use mach.Js.Text.{Text}
use mach.Mcp.World.{
  World, M, Result, ok, err, PendingAction, open_session, top_up_session, SpendRecord, entry,
  AuditEntry,
}
use mach.Mcp.Client
use mach.Mcp.Payload.{Payload}
use mach.Mcp.Receipt.{lines_of}

-- The one record and the one line of a success; nothing of a failure, whatever was signed.
abbrev pub Recorded : Text → World → World → Result Payload → Type 0
Recorded node_url w w' (err e) = (w'.receipts ≡ w.receipts) × (w'.audit ≡ w.audit)
Recorded node_url w w' (ok p) =
    (s : SpendRecord) × (a : AuditEntry) × (s.node_url ≡ node_url)
    × (a.node_url ≡ node_url)
    × (a.amount_tinybars ≡ some s.amount_tinybars)
    × (w'.receipts
        ≡ (if w.writable then some (lines_of w.receipts ++ entry s ∷ []) else w.receipts))
    × (w'.audit ≡ (if w.audit_writable then w.audit ++ a ∷ [] else w.audit))

record IsBooked (node_url : Text) (m : M Payload) : Type 0 where
  pub books : (w : World) → Recorded node_url w (m w).1 (m w).0

abbrev pub node_of : PendingAction → Text
node_of (open_session node_url seconds require_gpu local_port) = node_url
node_of (top_up_session node_url session_id token) = node_url
