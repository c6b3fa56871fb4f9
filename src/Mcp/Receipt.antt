-- ===== src/Mcp/Receipt.antt =====
-- packages/mcp-server/src/vendor/receipt.ts and safety/audit.ts: the two append-only files.
use mach.Base.{Option, none, some, List, [], ◌∷◌, ◌++◌, if◌then◌else◌}
use mach.Js.Text.{Text}
use mach.Js.Date.{to_iso_string}
use mach.Mcp.World.{
  Settlement, SpendRecord, Line, blank, malformed, foreign, entry, AuditEntry, World, M, ok,
}
use mach.Mcp.Payer.{text_or}

abbrev pub lines_of : Option (List Line) → List Line
lines_of none = []
lines_of (some lines) = lines

-- `appendFileSync`, which makes the file; a failure is swallowed.
abbrev append : Line → World → World
append line w =
    if w.writable then record w { receipts = some (lines_of w.receipts ++ line ∷ []) } else w

abbrev pub spend_record : World → Settlement → Text → Option Text → Text → SpendRecord
spend_record w settlement node_url session_id amount = record {
  node_url = node_url;
  session_id = session_id;
  transaction = settlement.transaction;
  payer = text_or settlement.payer [];
  amount_tinybars = amount;
  network = settlement.network;
  paid_at = to_iso_string w.now;
}

unfoldable pub record_spend : Settlement → Text → Option Text → Text → M (Unit {0})
record_spend settlement node_url session_id amount w =
    (ok tt, append (entry (spend_record w settlement node_url session_id amount)) w)

-- What `JSON.parse` makes of the lines that are not blank; `none` is a value of another shape.
unfoldable pub read_lines : List Line → List (Option SpendRecord)
read_lines [] = []
read_lines (blank ∷ lines) = read_lines lines
read_lines (malformed ∷ lines) = read_lines lines
read_lines (foreign ∷ lines) = none ∷ read_lines lines
read_lines (entry r ∷ lines) = some r ∷ read_lines lines

unfoldable pub read_spend : World → List (Option SpendRecord)
unfolding read_lines
read_spend w = read_lines (lines_of w.receipts)

-- `logAudit`; its own file, whose write may fail as well.
unfoldable pub log_audit : Text → Text → Text → Option Text → Text → M (Unit {0})
log_audit tool node_url session_id amount outcome w =
    let line : AuditEntry = record {
      tool = tool;
      node_url = node_url;
      session_id = session_id;
      amount_tinybars = amount;
      outcome = outcome;
      at = to_iso_string w.now;
    } in
    (ok tt, if w.audit_writable then record w { audit = w.audit ++ line ∷ [] } else w)
