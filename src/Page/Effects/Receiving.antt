-- ===== src/Page/Effects/Receiving.antt =====
-- What a received message leaves alone on the page of
-- examples/hello-spanreed/client/src/DemoPage.tsx.
use spanreed_netcode_proxy.Prelude.{ℕ, ◌≡◌, refl, inl, inr, some, Option-cases, arith}
use spanreed_netcode_proxy.Canvas.Numbers.{Numbers}
use spanreed_netcode_proxy.Wire.Flatbuffers.{Flatbuffers, Bytes}
use spanreed_netcode_proxy.Page.{Page}
use spanreed_netcode_proxy.Page.Messages.{MessageData, process_message, on_message}
use spanreed_netcode_proxy.Page.Effects.{Read, on_read}

module _ (js : Numbers) where
  -- The connection, and what was sent and closed, are the same.
  pub record OnlyReceives (page page' : Page js) : Type 0 where
    pub connection : page'.connection ≡ page.connection
    pub sent : page'.sent ≡ page.sent
    pub closed : page'.closed ≡ page.closed

  nothing : (page : Page js) → OnlyReceives page page
  nothing page = record { connection = refl; sent = refl; closed = refl }

  module _ (fb : Flatbuffers js.Number) where
    process_message-OnlyReceives :
        (bytes : Bytes) (page page' : Page js)
        → process_message js fb bytes page ≡ some page'
        → OnlyReceives page page'
    unfolding process_message
    process_message-OnlyReceives bytes page page' e = record {
      connection = ground arith;
      sent = ground arith;
      closed = ground arith;
    }

    pub on_message-OnlyReceives :
        (m : MessageData) (page : Page js) → OnlyReceives page (on_message js fb m page)
    unfolding on_message
    on_message-OnlyReceives MessageData.other page = record {
      connection = refl;
      sent = refl;
      closed = refl;
    }
    on_message-OnlyReceives (MessageData.array_buffer bytes) page =
        elim (Option-cases (process_message js fb bytes page)) [
          | inl threw ↦ rw threw (nothing page)
          | inr (page', e) ↦ rw e (process_message-OnlyReceives bytes page page' e)
        ]

    pub on_read-OnlyReceives :
        (id : ℕ) (r : Read) (page : Page js) → OnlyReceives page (on_read js fb id r page)
    unfolding on_read
    on_read-OnlyReceives id Read.done page = record {
      connection = refl;
      sent = refl;
      closed = refl;
    }
    on_read-OnlyReceives id (Read.value bytes) page =
        elim (Option-cases (process_message js fb bytes page)) [
          | inl threw ↦
              rw (threw, on_read) (record { connection = refl; sent = refl; closed = refl })
          | inr (page', e) ↦ rw (e, on_read) (process_message-OnlyReceives bytes page page' e)
        ]
