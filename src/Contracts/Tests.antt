-- ===== src/Contracts/Tests.antt =====
-- A session of sixty seconds at ten tinybars, stopped after twenty; the provider refuses payouts.
use mach.Base.{
  ℕ, ◌+◌, ◌<◌, ◌≤◌, ◌≡◌, ◌≢◌, refl, Bool, true, false, not, List, [], ◌∷◌, ◌++◌, arith, ◌==◌,
}
use mach.Contracts.Escrow.{
  Session, Escrow, opening, settling, Sent, Quote, already_settled, ok, revert, split, settle, run,
  call, deployed, session_of, open_session, pay,
}
use mach.Contracts.Escrow.Solvency.{run-IsSolvent, run-IsValid}
use mach.Contracts.Escrow.Debts.{IsSolvent}
use mach.Contracts.Escrow.Settling.{split_earlier, settle_total}
use mach.Contracts.Escrow.Once.{settles_once}

abbrev not_provider : ℕ → Bool
not_provider a = not (a == 2)

abbrev opened : List Sent
opened =
    record {
      accepts = not_provider;
      message = record { sender = 1; value = 600; timestamp = 1000 };
      call = opening 7 2 10 60;
    }
    ∷ []

abbrev stop : Sent
stop = record {
  accepts = not_provider;
  message = record { sender = 3; value = 0; timestamp = 1020 };
  call = settling 7;
}

abbrev live : Escrow
live = run opened deployed

nonzero : (n : ℕ) → 0 < n → n ≢ 0
nonzero n h e = absurd (omega arith)

run-IsSolvent_example : IsSolvent (run (opened ++ stop ∷ []) deployed)
run-IsSolvent_example =
    run-IsSolvent (opened ++ stop ∷ []) (nonzero 1 (omega arith), (nonzero 3 (omega arith), tt))

held : Session
held = record {
  renter = 1;
  provider = 2;
  price_per_second = 10;
  start_time = 1000;
  duration = 60;
  deposited = 600;
  settled = false;
}

abbrev early : Quote
early = record { elapsed = 20; provider_amount = 200; refund_amount = 400 }

abbrev late : Quote
late = record { elapsed = 60; provider_amount = 600; refund_amount = 0 }

splits : (split 1020 held ≡ ok early) × (split 2000 held ≡ ok late)
unfolding split held
splits = (refl, refl)

split_earlier_example :
    (200 ≤ 600) × (0 ≤ 400) × (200 + 400 ≡ held.deposited) × (600 + 0 ≡ held.deposited)
split_earlier_example = split_earlier 1020 2000 held early late (omega arith) splits.0 splits.1

live_session :
    ((session_of 7 live).renter ≡ 1)
    × ((session_of 7 live).settled ≡ false)
    × ((session_of 7 live).start_time ≡ 1000)
    × (live.balance ≡ 600)
unfolding run call open_session
live_session = (refl, refl, refl, refl)

settle_total_example : (c' : Escrow) × (settle not_provider stop.message 7 live ≡ ok c')
settle_total_example =
    let (renter, open_, start, balance) = live_session in
    settle_total not_provider stop.message 7 live
      (run-IsValid opened deployed (nonzero 1 (omega arith), tt) (tt, refl))
      (omega (arith, balance)) (λ z. omega (arith, renter, z)) open_ (omega (arith, start))

-- The provider's part stays pending, and the renter is refunded.
abbrev stopped : Escrow
stopped = record {
  sessions = record { key = 7; value = record held { settled = true } } ∷ [];
  pending_withdrawal = record { key = 2; value = 200 } ∷ [];
  balance = 200;
}

settles : settle not_provider stop.message 7 live ≡ ok stopped
unfolding run call open_session settle split pay held
settles = refl

settles_once_example :
    (session_of 7 (run (stop ∷ []) stopped) ≡ record (session_of 7 live) { settled = true })
    × (settle not_provider stop.message 7 (run (stop ∷ []) stopped) ≡ revert already_settled)
settles_once_example =
    settles_once not_provider not_provider stop.message stop.message 7 live stopped (stop ∷ [])
      settles
