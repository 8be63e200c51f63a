-- ===== src/DbusClient/Worker.antt =====
-- pkg/client/client.go: the goroutine of `Subscribe` next to the reader of its updates and to `Close`.
pub mod Taken
pub mod Received
pub mod Ending
use fw_id_agent.Prelude.{ℕ, ◌+◌, ◌<◌, ◌≡◌, Bool, true, false, List, [], ◌∷◌, ◌++◌, length}
use fw_id_agent.Config.{Tnd}
use fw_id_agent.Status.{Status, copy}
use fw_id_agent.DbusClient.Update.{Bus}
use fw_id_agent.DbusClient.Signal.{
  Signal, Handled, panicked, ignored, updated, handle_properties_changed,
}

-- Where the goroutine is: at a `select` that sends a status, at the `range` over the signals, behind
-- its last statement or a `return`, or behind the deferred calls, which close `updates` and `closed`.
-- A panic ends the program.
pub data Place (C : Type 0) : Type 0 where
  sending : Status C → Place C
  waiting : Place C
  leaving : Place C
  over : Place C
  dead : Place C

-- The goroutine with its `status`, the signals in the channel `c`, what the reader of `updates` has
-- received so far, oldest first, and whether the connection and `done` are closed. Closing the
-- connection closes `c`, as godbus documents; what is in it can still be read.
pub record Link (V C : Type 0) : Type 0 where
  pub place : Place C
  pub status : Status C
  pub signals : List (Signal V)
  pub received : List (Status C)
  pub conn_closed : Bool
  pub done_closed : Bool

-- The capacity of `c`.
abbrev pub capacity : ℕ
capacity = 10

module _ (T : Tnd) (B : Bus T.Conf) where
  open B use {Variant}

  -- The goroutine as `Subscribe` starts it with the status of the query.
  abbrev pub begin : Status T.Conf → Link Variant T.Conf
  begin s = record {
    place = sending (copy T s);
    status = s;
    signals = [];
    received = [];
    conn_closed = false;
    done_closed = false;
  }

  -- The body of the loop behind `handlePropertiesChanged`, up to the `select`.
  unfoldable pub after : Handled T.Conf → Link Variant T.Conf → Link Variant T.Conf
  after panicked l = record l { place = dead }
  after ignored l = l
  after (updated u) l = record l { place = sending u; status = copy T u }

  -- One step of the goroutine or of `Close`, which closes the connection first. A reader may take an
  -- update although `done` is closed.
  pub data Step (l : Link Variant T.Conf) : Link Variant T.Conf → Type 0 where
    hand_over :
        (u : Status T.Conf)
        → l.place ≡ sending u
        → Step l (record l { place = waiting; received = l.received ++ (u ∷ []) })
    give_up :
        (u : Status T.Conf)
        → l.place ≡ sending u
        → l.done_closed ≡ true
        → Step l (record l { place = leaving })
    read :
        (x : Signal Variant) (xs : List (Signal Variant))
        → l.place ≡ waiting
        → l.signals ≡ x ∷ xs
        → Step l
            (after (handle_properties_changed B x (copy T l.status)) (record l { signals = xs }))
    drained :
        l.place ≡ waiting
        → l.signals ≡ []
        → l.conn_closed ≡ true
        → Step l (record l { place = leaving })
    finish : l.place ≡ leaving → Step l (record l { place = over })
    close_conn : l.conn_closed ≡ false → Step l (record l { conn_closed = true })
    close_done :
        l.conn_closed ≡ true → l.done_closed ≡ false → Step l (record l { done_closed = true })

  -- What may become of the goroutine that was started with a status, with the signals that the
  -- connection has put into `c`, oldest first. It waits for room in the channel.
  pub data Reach (s : Status T.Conf) : List (Signal Variant) → Link Variant T.Conf → Type 0 where
    started : Reach s [] (begin s)
    arrives :
        {ss : List (Signal Variant)} {l : Link Variant T.Conf} (x : Signal Variant)
        → Reach s ss l
        → l.conn_closed ≡ false
        → length l.signals < capacity
        → Reach s (ss ++ (x ∷ [])) (record l { signals = l.signals ++ (x ∷ []) })
    later :
        {ss : List (Signal Variant)} {l m : Link Variant T.Conf}
        → Reach s ss l
        → Step l m
        → Reach s ss m

  -- So many steps in a row.
  pub data Run (l : Link Variant T.Conf) : ℕ → Link Variant T.Conf → Type 0 where
    here : Run l 0 l
    more : {n : ℕ} {m k : Link Variant T.Conf} → Run l n m → Step m k → Run l (n + 1) k
