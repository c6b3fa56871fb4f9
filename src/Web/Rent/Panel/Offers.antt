-- ===== src/Web/Rent/Panel/Offers.antt =====
-- What the panel lets a renter do, against what the page does by itself.
use mach.Base.{◌≡◌, Bool, true, false, none, some, [], ◌∷◌, arith}
use mach.Js.Text.{Text}
use mach.Types.Session.{is_session_terminal}
use mach.Web.Storage.{StoredSession}
use mach.Web.Rent.Session.{watch, is_true}
use mach.Web.Rent.Panel.{button, dismiss, actions}

pub ended_actions :
    (busy : Bool) (s : StoredSession)
    → is_session_terminal s.created.status ≡ true
    → actions busy s ≡ button dismiss false ∷ []
unfolding actions
ended_actions busy s e = ground (arith, e)

watch_over :
    (s : StoredSession) (token : Text)
    → s.created.token ≡ some token
    → is_true s.ended_remotely ≡ false
    → watch s ≡ none
    → is_session_terminal s.created.status ≡ true
unfolding watch
watch_over s token t ended quiet = ground (arith, t, ended, quiet)

-- When the page has stopped asking about a session whose token it has and that did not end
-- remotely, dismissing it is all that the panel offers.
pub actions_over :
    (busy : Bool) (s : StoredSession) (token : Text)
    → s.created.token ≡ some token
    → is_true s.ended_remotely ≡ false
    → watch s ≡ none
    → actions busy s ≡ button dismiss false ∷ []
actions_over busy s token t ended quiet = ended_actions busy s (watch_over s token t ended quiet)
