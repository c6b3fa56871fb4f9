-- ===== src/Web/Rent/Tests.antt =====
-- The page of a node that sells minutes at a thousand tinybars a second, in chunks of one minute.
mod Paying
use mathlib.Core.List.{Memᴰ}
use mach.Base.{
  ℕ, ◌*◌, ◌+◌, ◌<◌, ◌≤◌, ◌≡◌, ◌≢◌, ◌↔◌, refl, true, false, none, some, List, [], ◌∷◌, arith,
}
use mach.Base.Int.{pos}
use mach.Js.Text.{text, ◌===◌, pad_start}
use mach.Js.Text.Laws.{eq_iff}
use mach.Js.BigInt.{parse, print_nat}
use mach.Types.Node.{NodeListing}
use mach.Types.Session.{SessionState, SessionStatus, SettleState, is_session_terminal}
use mach.Types.X402.{hedera_testnet}
use mach.Registry.Store.{to_listing}
use mach.Registry.Tests.{owned, terms}
use mach.Mcp.Tests.{demand}
use mach.Client.Payment.{choose}
use mach.Web.Storage.{
  StoredSession, envelope, key_for, get_item, load_session, save_session, load_stored,
}
use mach.Web.Tests.{session, browser}
use mach.Web.Rent.Terms.{
  ceil_div, chunk_seconds, first_payment_seconds, payments, payment_cap, initial_minutes, presets,
  format_minutes,
}
use mach.Web.Rent.Terms.Cover.{payments_cover, payer_covers}
use mach.Web.Rent.Session.{
  Page, watch, spread, view_of, is_true, refused, stopped, topped_up, state, opened,
}
use mach.Web.Rent.Panel.{button, dismiss, actions, clock, clock_face}
use mach.Web.Rent.Flow.{
  hydrate, set_session, poll, stop_finish, top_up_finish, open_finish, open_answered,
}
use mach.Web.Rent.Flow.Events.{
  Event, mount, wait, open_answer, poll_answer, top_up_click, stop_click, Scene, step, run, react,
  first_scene, first_page,
}
use mach.Web.Rent.Flow.TopUps.{run_one_top_up}
use mach.Web.Rent.Flow.Ending.{poll_gone, run_stays_ended}
use mach.Web.Rent.Flow.Saving.{run_shows_kept}

abbrev node : NodeListing
node = to_listing 2000 owned

-- Thirty minutes of a node that takes at most a minute at once.
half_an_hour :
    (initial_minutes terms ≡ 30)
    × (payments terms 30 ≡ some (pos 30))
    × (first_payment_seconds terms 30 ≡ 60)
unfolding initial_minutes payments first_payment_seconds ceil_div chunk_seconds
half_an_hour = (refl, refl, refl)

payments_cover_example :
    let first = first_payment_seconds terms 30 in
    (0 < 30) × (first ≤ 30 * 60) × (30 * 60 ≤ 30 * first) × (30 * first < 30 * 60 + first)
payments_cover_example = payments_cover terms 30 30 (omega arith) half_an_hour.1

asked : parse demand.amount ≡ some (pos 60000)
unfolding parse text
asked = refl

payer_covers_example :
    Memᴰ demand
      (choose (some hedera_testnet) (some (payment_cap terms (pos 1000) 30)) (demand ∷ []))
    ↔ (60000 ≤ 2 * (1000 * first_payment_seconds terms 30))
payer_covers_example = payer_covers terms 1000 30 hedera_testnet demand 60000 refl refl asked

shown_texts :
    (presets 20 90 ≡ 30 ∷ 60 ∷ [])
    × (format_minutes 300 ≡ text "5 minutes")
    × (format_minutes 90 ≡ text "90 seconds")
    × (clock (pos 3725) ≡ text "1:02:05")
unfolding presets format_minutes clock clock_face text print_nat pad_start
shown_texts = (refl, refl, refl, refl)

abbrev events : List Event
events =
    mount
    ∷ open_answer (opened session.created)
    ∷ top_up_click true
    ∷ top_up_click true
    ∷ poll_answer true false session (refused 404)
    ∷ []

run_one_top_up_example : (run node events (first_scene 1000 browser)).top_ups ≤ 1
run_one_top_up_example = run_one_top_up node events 1000 browser

abbrev page : Page
page = record (first_page browser) { hydrated = true; session = some session }

watched : watch session ≡ some 7000
unfolding watch
watched = refl

poll_gone_example :
    (s' : StoredSession) × ((poll node 1000 session (refused 404) page).session ≡ some s')
    × (watch s' ≡ none)
    × (actions false s' ≡ button dismiss false ∷ [])
    × (s'.created.credit_tinybars ≡ session.created.credit_tinybars)
    × (s'.burned_tinybars ≡ session.burned_tinybars)
poll_gone_example = poll_gone node 1000 7000 404 session session page refl watched refl refl

-- The answer of a node to a poll.
abbrev polled : SessionState
polled = record {
  session_id = text "s1";
  lease_id = text "l1";
  status = SessionStatus.stopped;
  created_at = text "1970-01-01T00:00:01.000Z";
  expires_at = text "1970-01-01T00:01:01.000Z";
  seconds_remaining = pos 0;
  paid_seconds = pos 60;
  session_seconds = none;
  fully_paid = none;
  gpu = true;
  price_tinybars_per_second = text "1000";
  credit_tinybars = text "0";
  burned_tinybars = text "20000";
  refunded_tinybars = text "40000";
  low_credits = false;
  settle_state = SettleState.done;
  error = none;
}

abbrev ended : StoredSession
ended = record session { ended_remotely = some true }

abbrev ended_scene : Scene
ended_scene = record { page = record page { session = some ended }; now = 1000; top_ups = 0 }

abbrev calm : List Event
calm = wait 7000 ∷ poll_answer true false ended (state polled) ∷ stop_click ∷ []

run_stays_ended_example :
    (s' : StoredSession) × ((run node calm ended_scene).page.session ≡ some s')
    × (watch s' ≡ none)
    × (s'.created.token ≡ ended.created.token)
run_stays_ended_example =
    run_stays_ended node calm ended_scene ended refl refl refl (refl, (refl, (refl, tt)))

abbrev settled : StoredSession
settled = spread session polled

over_and_settled :
    (settled.created.token ≡ some (text "t1"))
    × (is_true settled.ended_remotely ≡ false)
    × (watch settled ≡ none)
unfolding spread watch is_session_terminal
over_and_settled = (refl, refl, refl)

abbrev buying : List Event
buying = mount ∷ open_answer (opened session.created) ∷ []

bought : (run node buying (first_scene 1000 browser)).page.session ≡ some (view_of session.created)
unfolding run step react hydrate load_session load_stored get_item open_finish open_answered
    set_session first_scene first_page save_session
bought = refl

run_shows_kept_example :
    let w = run node buying (first_scene 1000 browser) in
    (at : ℕ) × (at ≤ w.now)
    × (get_item (key_for node.node_id) w.page.browser.items
        ≡ some (envelope at (view_of session.created)))
run_shows_kept_example =
    run_shows_kept node buying 1000 browser (view_of session.created) refl refl bought
