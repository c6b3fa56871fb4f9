-- ===== src/Mcp/Limits/Daily.antt =====
-- What the receipts say was spent today.
use mach.Base.{
  ◌≡◌, ◌∙◌, refl, ap, sym, true, Option, none, some, List, [], ◌∷◌, ◌++◌, arith, Option-cases, inl,
  inr,
}
use mach.Base.Int.{ℤ, pos, ◌+ℤ◌}
use mach.Js.Text.{Text}
use mach.Js.Text.Laws.{eq_refl}
use mach.Js.BigInt.{parse}
use mach.Js.Date.{iso_day}
use mach.Mcp.World.{
  Settlement, SpendRecord, Line, blank, malformed, foreign, entry, World, Result-cases, ok,
}
use mach.Mcp.Receipt.{lines_of, spend_record, record_spend, read_lines, read_spend}
use mach.Mcp.Limits.{paid_on, filter_today, sum_from, sum_today, spent_today}

read_lines-append :
    (lines : List Line) (r : SpendRecord)
    → read_lines (lines ++ entry r ∷ []) ≡ read_lines lines ++ some r ∷ []
unfolding read_lines
read_lines-append [] r = refl
read_lines-append (blank ∷ lines) r = read_lines-append lines r
read_lines-append (malformed ∷ lines) r = read_lines-append lines r
read_lines-append (foreign ∷ lines) r = ap (λ l. none ∷ l) (read_lines-append lines r)
read_lines-append (entry s ∷ lines) r = ap (λ l. some s ∷ l) (read_lines-append lines r)

filter_today-append :
    (today : Text) (records : List (Option SpendRecord)) (r : SpendRecord) (kept : List SpendRecord)
    → paid_on today r ≡ true
    → filter_today today records ≡ ok kept
    → filter_today today (records ++ some r ∷ []) ≡ ok (kept ++ r ∷ [])
unfolding filter_today
filter_today-append today [] r kept h e = ground arith
filter_today-append today (none ∷ records) r kept h e = cc
filter_today-append today (some s ∷ records) r kept h e =
    elim (Result-cases (filter_today today records)) [
      | inl (rest, q) ↦ let step = filter_today-append today records r rest h q in ground arith
      | inr (x, q) ↦ ground arith
    ]

sum_from-append :
    (records : List SpendRecord) (r : SpendRecord) (acc sum z : ℤ)
    → parse r.amount_tinybars ≡ some z
    → sum_from acc records ≡ ok sum
    → sum_from acc (records ++ r ∷ []) ≡ ok (sum +ℤ z)
unfolding sum_from
sum_from-append [] r acc sum z h e = ground arith
sum_from-append (s ∷ records) r acc sum z h e = elim (Option-cases (parse s.amount_tinybars)) [
  | inl q ↦ ground arith
  | inr (y, q) ↦ let step = sum_from-append records r (acc +ℤ y) sum z h in ground arith
]

paid_on-spend_record :
    (s : Settlement) (node_url : Text) (id : Option Text) (amount : Text) (w : World)
    → paid_on (iso_day w.now) (spend_record w s node_url id amount) ≡ true
unfolding iso_day
paid_on-spend_record s node_url id amount w = eq_refl (iso_day w.now)

-- The receipts as they are read, after one more line.
spent_lines :
    (today : Text) (lines : List Line) (r : SpendRecord) (spent z : ℤ)
    → paid_on today r ≡ true
    → parse r.amount_tinybars ≡ some z
    → sum_today (filter_today today (read_lines lines)) ≡ ok spent
    → sum_today (filter_today today (read_lines (lines ++ entry r ∷ []))) ≡ ok (spent +ℤ z)
unfolding sum_today
spent_lines today lines r spent z h p e =
    elim (Result-cases (filter_today today (read_lines lines))) [
      | inl (kept, q) ↦
          let counted = filter_today-append today (read_lines lines) r kept h q in
          let summed = sum_from-append kept r (pos 0) spent z p in
          let before : sum_from (pos 0) kept ≡ ok spent = sym (ap sum_today q) ∙ e in
          ap (λ rs. sum_today (filter_today today rs)) (read_lines-append lines r)
          ∙ ap sum_today counted
          ∙ summed before
      | inr (x, q) ↦ cc
    ]

-- When the receipts can be written and today's spending can be read, today's spending after a
-- payment is recorded is what it was plus the amount.
pub spent_today-record_spend :
    (w : World) (s : Settlement) (node_url : Text) (id : Option Text) (amount : Text) (spent z : ℤ)
    → w.writable ≡ true
    → spent_today w ≡ ok spent
    → parse amount ≡ some z
    → spent_today (record_spend s node_url id amount w).1 ≡ ok (spent +ℤ z)
unfolding spent_today record_spend read_spend sum_today
spent_today-record_spend w s node_url id amount spent z can e p =
    let r = spend_record w s node_url id amount in
    rw (
      can,
      spent_lines (iso_day w.now) (lines_of w.receipts) r spent z
          (paid_on-spend_record s node_url id amount w) p e,
    )
