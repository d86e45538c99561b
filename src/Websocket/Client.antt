-- ===== src/Websocket/Client.antt =====
-- internal/websocket/ws.go: newHTTPClient.
-- Parameters: `H` for the clients of net/http with their timeout, `T` for its transports, and what
-- NewClient and NewTransport of the configuration give.
use xmidt_agent.Base.{List, [], ◌∷◌, Text}
use xmidt_agent.Base.Int.{ℤ}
use xmidt_agent.Base.Dict.{Dict}
use xmidt_agent.Base.Dict
use xmidt_agent.Fs.{Result, ok, failed}
use xmidt_agent.Websocket.{IpMode}

-- The dialer, with the network that it dials whatever it is asked for
pub record Dialer : Type 0 where
  pub timeout : ℤ
  pub keep_alive : ℤ
  pub network : IpMode

-- The client, whose proxy is that of the environment
pub record Client (H T : Type 0) : Type 0 where
  pub client : H
  pub transport : T
  pub dialer : Dialer
  pub check_redirect : Dict (List Text) → Dict (List Text) → Dict (List Text)

-- CheckRedirect: the headers of the first request replace those of the next.
unfoldable pub copy_headers : Dict (List Text) → Dict (List Text) → Dict (List Text)
copy_headers [] headers = headers
copy_headers ((key, value) ∷ first) headers = copy_headers first (Dict.insert key value headers)

unfoldable pub new_http_client :
    {G H T : Type 0}
    → (G → Result H)
    → (H → ℤ)
    → (G → Result T)
    → ℤ
    → G
    → IpMode
    → Result (Client H T)
new_http_client new_client timeout_of new_transport keep_alive config mode =
    elim (new_client config) [
      | failed e ↦ failed e
      | ok client ↦ elim (new_transport config) [
        | failed e ↦ failed e
        | ok transport ↦ ok (record {
          client = client;
          transport = transport;
          dialer = record { timeout = timeout_of client; keep_alive = keep_alive; network = mode };
          check_redirect = copy_headers;
        })
      ]
    ]
