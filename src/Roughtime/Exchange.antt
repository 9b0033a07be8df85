-- ===== src/Roughtime/Exchange.antt =====
-- One request over UDP and its answer (src/roughtime_source.ts): the promise of `sendAndReceive`, its
-- socket and its timer, under any sequence of events.
use open_ttt.Prelude.{
  ◌≡◌, refl, ap, ◌∙◌, Bool, true, false, not, Option, none, some, List, [], ◌∷◌, Text, is_some,
  if◌then◌else◌, arith,
}

pub data Failure : Type 0 where
  timed_out : Failure
  socket_error send_failed : Text → Failure

pub data Outcome : Type 0 where
  resolved : Text → Outcome
  rejected : Failure → Outcome

-- The socket is in `activeSockets`, the socket is open, the timer runs, `settled`, and what the
-- promise was settled with.
pub record Exchange : Type 0 where
  pub is_active : Bool
  pub is_open : Bool
  pub is_timed : Bool
  pub settled : Bool
  pub outcome : Option Outcome

-- The timer runs out; the socket reports an error or a message; the sending is done, with or without
-- an error; the source is closed.
pub data Event : Type 0 where
  times_out : Event
  fails : Text → Event
  receives : Text → Event
  sent : Option Text → Event
  closes : Event

unfoldable pub start : Exchange
start = record {
  is_active = true;
  is_open = true;
  is_timed = true;
  settled = false;
  outcome = none;
}

-- `cleanup()`; closing a socket twice throws, which is caught.
unfoldable pub cleanup : Exchange → Exchange
cleanup e = record e { is_active = false; is_open = false }

-- The body of every handler: nothing if the promise was settled.
unfoldable pub settle : Outcome → Exchange → Exchange
settle o e =
    if e.settled
    then e
    else record (cleanup e) { settled = true; is_timed = false; outcome = some o }

unfoldable pub handle : Event → Exchange → Exchange
handle times_out e = if e.is_timed then settle (rejected timed_out) e else e
handle (fails m) e = settle (rejected (socket_error m)) e
handle (receives b) e = settle (resolved b) e
handle (sent none) e = e
handle (sent (some m)) e = settle (rejected (send_failed m)) e
handle closes e = cleanup e

unfoldable pub run : List Event → Exchange → Exchange
run [] e = e
run (x ∷ xs) e = run xs (handle x e)

-- What an event settles a promise with that is open.
abbrev pub decides : Event → Option Outcome
decides times_out = some (rejected timed_out)
decides (fails m) = some (rejected (socket_error m))
decides (receives b) = some (resolved b)
decides (sent none) = none
decides (sent (some m)) = some (rejected (send_failed m))
decides closes = none

abbrev first_of : Option Outcome → Option Outcome → Option Outcome
first_of none later = later
first_of (some o) later = some o

-- The first event that decides.
abbrev pub first_decision : List Event → Option Outcome
first_decision [] = none
first_decision (x ∷ xs) = first_of (decides x) (first_decision xs)

-- Settled, with nothing left over: no timer and no socket. Or waiting, with the timer running.
abbrev pub IsConsistent : Exchange → Type 0
IsConsistent e =
    (e.settled ≡ is_some e.outcome)
    × (e.is_timed ≡ not e.settled)
    × (e.settled ≡ true → (e.is_open ≡ false) × (e.is_active ≡ false))

handle-IsConsistent : (x : Event) (e : Exchange) → IsConsistent e → IsConsistent (handle x e)
unfolding handle settle cleanup
handle-IsConsistent times_out e h = ground arith
handle-IsConsistent (fails m) e h = ground arith
handle-IsConsistent (receives b) e h = ground arith
handle-IsConsistent (sent none) e h = h
handle-IsConsistent (sent (some m)) e h = ground arith
handle-IsConsistent closes e h = ground arith

outcome-handle :
    (x : Event) (e : Exchange)
    → IsConsistent e
    → (handle x e).outcome ≡ first_of e.outcome (decides x)
unfolding handle settle cleanup
outcome-handle times_out e h = ground arith
outcome-handle (fails m) e h = ground arith
outcome-handle (receives b) e h = ground arith
outcome-handle (sent none) e h = ground arith
outcome-handle (sent (some m)) e h = ground arith
outcome-handle closes e h = ground arith

first_of_assoc : (a b c : Option Outcome) → first_of (first_of a b) c ≡ first_of a (first_of b c)
first_of_assoc none b c = refl
first_of_assoc (some o) b c = refl

outcome-run_from :
    (xs : List Event) (e : Exchange)
    → IsConsistent e
    → ((run xs e).outcome ≡ first_of e.outcome (first_decision xs)) × IsConsistent (run xs e)
unfolding run
outcome-run_from [] e h = (first_of-none e.outcome, h)
  where
    first_of-none : (o : Option Outcome) → o ≡ first_of o none
    first_of-none none = refl
    first_of-none (some o) = refl
outcome-run_from (x ∷ xs) e h =
    let (found, kept) = outcome-run_from xs (handle x e) (handle-IsConsistent x e h) in
    (
      found
          ∙ ap (λ o. first_of o (first_decision xs)) (outcome-handle x e h)
          ∙ first_of_assoc e.outcome (decides x) (first_decision xs),
      kept,
    )

-- Whatever events come, and in whatever order, the promise is settled by the first of them that
-- decides, and by that one only; once it is settled the timer is off and the socket is closed and
-- forgotten, and until then the timer runs.
pub outcome-run :
    (xs : List Event) → ((run xs start).outcome ≡ first_decision xs) × IsConsistent (run xs start)
unfolding start
outcome-run xs = outcome-run_from xs start (refl, refl, λ e. cc)
