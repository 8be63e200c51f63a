-- ===== src/DbusClient/Subscription/Closing.antt =====
-- When `Close` returns, after the ways in which a subscription can go.
use fw_id_agent.Prelude.{String, ◌≡◌, refl, true, false, Option, none, some, arith}
use fw_id_agent.DbusClient.Subscription.{
  absent, ended, DbusClient, subscribe, returns, blocks, panics, close,
}

-- A client that has not subscribed.
pub record IsFresh (d : DbusClient) : Type 0 where
  pub unsubscribed : d.subscribed ≡ false
  pub no_worker : d.worker ≡ absent
  pub open_done : d.done_closed ≡ false
  pub open_closed : d.closed_closed ≡ false

module _ (d : DbusClient) (fresh : IsFresh d) where
  -- When a client subscribes for the first time and the query or the match rule fails, the error is
  -- returned and from then on every call of `Close` blocks without end, and a second attempt to
  -- subscribe is refused, whatever it would meet.
  pub failed_subscription_blocks :
      (query_error match_error : Option String) (e : String)
      → (subscribe query_error match_error d).0 ≡ some e
      → ((conn_error : Option String)
          → (c : DbusClient) × (close conn_error (subscribe query_error match_error d).1
              ≡ blocks c))
        × ((q m : Option String)
            → subscribe q m (subscribe query_error match_error d).1
              ≡ (some "already subscribed", (subscribe query_error match_error d).1))
  unfolding subscribe close
  failed_subscription_blocks none none e h = absurd (cc)
  failed_subscription_blocks none (some m) e h = (
    (λ c. (record d { subscribed = true; done_closed = true }, ground arith)),
    (λ q k. ground arith),
  )
  failed_subscription_blocks (some x) m e h = (
    (λ c. (record d { subscribed = true; done_closed = true }, ground arith)),
    (λ q k. ground arith),
  )

  -- When a client subscribes for the first time and nothing fails, `Close` returns the error of the
  -- connection, the goroutine has ended and the channel with the updates is closed. A second
  -- `Close` panics.
  pub subscription_closes :
      (conn_error : Option String)
      → d.connected ≡ true
      → (subscribe none none d).0 ≡ none
      → (c : DbusClient) × (close conn_error (subscribe none none d).1 ≡ returns conn_error c)
        × (c.worker ≡ ended)
        × (c.updates_closed ≡ true)
        × ((again : Option String) → close again c ≡ panics)
  unfolding subscribe close
  subscription_closes conn_error up h = (
    record d {
      subscribed = true;
      worker = ended;
      done_closed = true;
      closed_closed = true;
      updates_closed = true;
    },
    ground arith,
    refl,
    refl,
    (λ again. ground arith),
  )
