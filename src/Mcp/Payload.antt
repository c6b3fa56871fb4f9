-- ===== src/Mcp/Payload.antt =====
-- What the payment tools answer: packages/mcp-server/src/vendor/sshIdentity.ts and the payloads of
-- tools/openSession.ts and tools/topUpSession.ts.
use mach.Base.{Bool, Option, none, some, [], ◌∷◌, ◌++◌, if◌then◌else◌}
use mach.Base.Int.{ℤ}
use mach.Js.Text.{Text, text, ◌===◌}
use mach.Js.BigInt.{print}
use mach.Types.Session.{SessionStatus, SessionCreated, SessionState}
use mach.Mcp.World.{SshIdentity}
use mach.Mcp.Limits.{ConfirmationPayload}

-- vendor/sshIdentity.ts: the ssh command of a session, empty where the tunnel carries HTTP only.
abbrev given : Option Text → Text
given none = []
given (some t) = t

unfoldable pub ssh_command : SessionCreated → SshIdentity → ℤ → Text
ssh_command session identity local_port =
    let host = given session.ssh_host in
    if host === []
    then []
    else (text "ssh -i "
        ++ (identity.key_path
            ++ (text " -o ProxyCommand=\"cloudflared access ssh --hostname "
                ++ (host
                    ++ (text "\" -o StrictHostKeyChecking=accept-new -o UserKnownHostsFile="
                        ++ (identity.dir
                            ++ (text "/known_hosts -L "
                                ++ (print local_port
                                    ++ (text ":localhost:8888 "
                                        ++ (session.ssh_user ++ (b'@' ∷ host)))))))))))

abbrev pub colab_url : SessionCreated → Text
colab_url session = session.jupyter_url ++ (text "/?token=" ++ session.jupyter_token)

abbrev pub local_colab_url : SessionCreated → ℤ → Text
local_colab_url session local_port =
    text "http://localhost:" ++ (print local_port ++ (text "/?token=" ++ session.jupyter_token))

pub record Access : Type 0 where
  pub session_id : Text
  pub token : Option Text
  pub status : SessionStatus
  pub expires_at : Text
  pub ssh_user : Text
  pub ssh_host : Option Text
  pub ssh_principal : Text
  pub tunnel_mode : Text
  pub ssh_command : Option Text
  pub jupyter_url : Text
  pub jupyter_url_local : Option Text
  pub credit_tinybars : Text
  pub price_tinybars_per_second : Text
  pub seconds : ℤ
  pub identity_key_path : Text

-- `text || undefined`
abbrev or_undefined : Text → Text → Option Text
or_undefined [] value = none
or_undefined (c ∷ s) value = some value

unfoldable pub access_payload : SessionCreated → SshIdentity → ℤ → Access
access_payload session identity local_port =
    let command = ssh_command session identity local_port in
    record {
      session_id = session.session_id;
      token = session.token;
      status = session.status;
      expires_at = session.expires_at;
      ssh_user = session.ssh_user;
      ssh_host = session.ssh_host;
      ssh_principal = session.ssh_principal;
      tunnel_mode = session.tunnel_mode;
      ssh_command = or_undefined command command;
      jupyter_url = colab_url session;
      jupyter_url_local =
          or_undefined (given session.ssh_host) (local_colab_url session local_port);
      credit_tinybars = session.credit_tinybars;
      price_tinybars_per_second = session.price_tinybars_per_second;
      seconds = session.seconds;
      identity_key_path = identity.key_path;
    }

-- What a top-up answers of the session's state.
pub record Credit : Type 0 where
  pub session_id : Text
  pub status : SessionStatus
  pub expires_at : Text
  pub seconds_remaining : ℤ
  pub credit_tinybars : Text
  pub low_credits : Bool

unfoldable pub credit_payload : SessionState → Credit
credit_payload s = record {
  session_id = s.session_id;
  status = s.status;
  expires_at = s.expires_at;
  seconds_remaining = s.seconds_remaining;
  credit_tinybars = s.credit_tinybars;
  low_credits = s.low_credits;
}

pub data Payload : Type 0 where
  confirmation_required : ConfirmationPayload → Payload
  access : Access → Payload
  topped_up : Credit → Payload
