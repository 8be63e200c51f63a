-- ===== src/Agent/SleepMon.antt =====
-- internal/agent/sleepmon.go: the sleep monitor, as the events that it passes to `sendEvent`.
pub mod Start
pub mod Sending
use mathlib.Core.List.{append_assoc}
use fw_id_agent.Prelude.{
  length, ◌≤◌, arith, String, str_eq, ◌≡◌, refl, Bool, true, false, List, [], ◌∷◌, ◌++◌,
  if◌then◌else◌, map, ap, sym, ◌∙◌,
}

-- A value in the body of a signal, by the type that the source asks for.
pub data Item : Type 0 where
  flag : Bool → Item
  no_flag : Item

-- `dbus.Signal`: what the source uses of it.
pub record Signal : Type 0 where
  pub name : String
  pub body : List Item

abbrev pub prepare_for_sleep : String
prepare_for_sleep = "org.freedesktop.login1.Manager.PrepareForSleep"

-- The case of `PrepareForSleep`, over the body.
sleep_of : List Item → List Bool
sleep_of [] = []
sleep_of (flag s ∷ _) = s ∷ []
sleep_of (no_flag ∷ _) = []

-- `handleSignal`: the events that it sends.
unfoldable pub handle_signal : Signal → List Bool
unfolding sleep_of
handle_signal s = if str_eq s.name prepare_for_sleep then sleep_of s.body else []

sleep_of-short : (b : List Item) → length (sleep_of b) ≤ 1
unfolding sleep_of
sleep_of-short [] = omega arith
sleep_of-short (flag s ∷ _) = omega arith
sleep_of-short (no_flag ∷ _) = omega arith

pub handle_signal-short : (s : Signal) → length (handle_signal s) ≤ 1
unfolding handle_signal
handle_signal-short s = let short = sleep_of-short s.body in ground arith

-- What the loop takes: a signal, the closing of the signals, or `done`.
pub data Input : Type 0 where
  signal : Signal → Input
  signals_closed : Input
  done : Input

-- What the loop has sent, and whether it has returned, which closes the connection and the events.
pub record Heard : Type 0 where
  pub sent : List Bool
  pub ended : Bool

-- `start`
unfoldable pub listen : List Input → Heard
unfolding handle_signal
listen [] = record { sent = []; ended = false }
listen (signal s ∷ is) =
    let rest = listen is in record { sent = handle_signal s ++ rest.sent; ended = rest.ended }
listen (signals_closed ∷ is) = record { sent = []; ended = true }
listen (done ∷ is) = record { sent = []; ended = true }

-- A well-formed announcement of the login manager.
abbrev pub announcement : Bool → Signal
announcement s = record { name = prepare_for_sleep; body = flag s ∷ [] }

-- What is sent for some signals is sent, in order, before what is sent for those behind them.
pub listen-append :
    (xs : List Signal) (is : List Input)
    → (ys : List Bool) × ((listen (map signal xs ++ is)).sent ≡ ys ++ (listen is).sent)
      × ((listen (map signal xs ++ is)).ended ≡ (listen is).ended)
unfolding listen
listen-append [] is = ([], refl, refl)
listen-append (x ∷ xs) is =
    let (ys, e, d) = listen-append xs is in
    (
      handle_signal x ++ ys,
      ap (λ l. handle_signal x ++ l) e ∙ sym (append_assoc (handle_signal x) ys (listen is).sent),
      d,
    )
