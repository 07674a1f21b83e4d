-- ===== src/Supervisor/Fleet/Samples.antt =====
-- Supervisors (src/supervisor/mod.rs) with some programs, through some happenings; a `try_join_all`
-- that takes the first error in its list.
use mathlib.Core.List.{Memᴰ}
use blahaj.Prelude.{
  ℕ, List, [], ◌∷◌, ◌++◌, ◌≡◌, ◌≢◌, refl, ◌∙◌, ap, ◌⊎◌, inl, inr, false, Option, none, some, All,
  map, arith,
}
use blahaj.Prelude.Text.{Str, codes}
use blahaj.Config.{Program}
use blahaj.Proxy.{Scheme}
use blahaj.Supervisor.Retry
use blahaj.Supervisor.Retry.{mark}
use blahaj.Supervisor.Futs.{
  Poll, ready, pending, poll_repeated, poll_abort, new_repeated, new_abort,
}
use blahaj.Supervisor.Caretaker.{
  Command, new, started, build_command, handle_wait, handle_terminate, broadcast_stopped,
}
use blahaj.Supervisor.Caretaker.Run.{
  Receiver, Spawned, spawned, not_spawned, after_watch, conclude, finish_run, one_round,
  daemon_future, finish_daemon, begin_run,
}
use blahaj.Supervisor.Caretaker.System.{
  System, Event, handle_daemon, poll_daemon, handle_run, poll_watch, look_at_end, child_gone,
  has_receiver,
}
use blahaj.Supervisor.Caretaker.System
use blahaj.Supervisor.Fleet.{Polling, start, handle_join, handle_terminate_all}
use blahaj.Supervisor.Fleet.World.{
  World, Reach, begins, goes_on, begin, begin_member, happen, Happening, join, terminate_all, at,
  deliver, own, do_nth, post_all,
}

-- The first error, if there is one.
abbrev pub first_error : {A : Type 0} → List (Poll (ℕ ⊎ A)) → Option ℕ
first_error [] = none
first_error (ready (inl e) ∷ rest) = some e
first_error (_ ∷ rest) = first_error rest

abbrev pub with_result : {A : Type 0} → A → Poll (ℕ ⊎ List A) → Poll (ℕ ⊎ List A)
with_result x (ready (inr xs)) = ready (inr (x ∷ xs))
with_result x answer = answer

abbrev pub gather : {A : Type 0} → List (Poll (ℕ ⊎ A)) → Poll (ℕ ⊎ List A)
gather [] = ready (inr [])
gather (ready (inr x) ∷ rest) = with_result x (gather rest)
gather (ready (inl e) ∷ rest) = ready (inl e)
gather (pending ∷ rest) = pending

abbrev pub or_gather : {A : Type 0} → Option ℕ → List (Poll (ℕ ⊎ A)) → Poll (ℕ ⊎ List A)
or_gather (some e) replies = ready (inl e)
or_gather none replies = gather replies

first_error-ready : {A : Type 0} (xs : List A) → first_error (map (λ x. ready (inr x)) xs) ≡ none
first_error-ready [] = refl
first_error-ready (x ∷ xs) = first_error-ready xs

gather-ready : {A : Type 0} (xs : List A) → gather (map (λ x. ready (inr x)) xs) ≡ ready (inr xs)
gather-ready [] = refl
gather-ready (x ∷ xs) = ap (with_result x) (gather-ready xs)

pub first_error-refused :
    {A : Type 0} (replies : List (Poll (ℕ ⊎ A))) (e : ℕ)
    → Memᴰ (ready (inl e)) replies
    → (first : ℕ) × (first_error replies ≡ some first)
first_error-refused [] e m = elim m [ ]
first_error-refused (ready (inl d) ∷ rest) e m = (d, refl)
first_error-refused (ready (inr x) ∷ rest) e (Memᴰ.head p) = absurd (ground (arith, p))
first_error-refused (pending ∷ rest) e (Memᴰ.head p) = absurd (ground (arith, p))
first_error-refused (ready (inr x) ∷ rest) e (Memᴰ.tail m) = first_error-refused rest e m
first_error-refused (pending ∷ rest) e (Memᴰ.tail m) = first_error-refused rest e m

pub first_error-pending :
    {A : Type 0} (replies : List (Poll (ℕ ⊎ A)))
    → All (λ r. (e : ℕ) → r ≢ ready (inl e)) replies
    → first_error replies ≡ none
first_error-pending [] h = refl
first_error-pending (ready (inl d) ∷ rest) (ne, h) = absurd (ne d refl)
first_error-pending (ready (inr x) ∷ rest) (ne, h) = first_error-pending rest h
first_error-pending (pending ∷ rest) (ne, h) = first_error-pending rest h

pub gather-pending :
    {A : Type 0} (replies : List (Poll (ℕ ⊎ A)))
    → Memᴰ pending replies
    → All (λ r. (e : ℕ) → r ≢ ready (inl e)) replies
    → gather replies ≡ pending
gather-pending [] m h = elim m [ ]
gather-pending (ready (inl d) ∷ rest) m (ne, h) = absurd (ne d refl)
gather-pending (pending ∷ rest) m h = refl
gather-pending (ready (inr x) ∷ rest) (Memᴰ.head p) h = absurd (ground (arith, p))
gather-pending (ready (inr x) ∷ rest) (Memᴰ.tail m) (ne, h) =
    ap (with_result x) (gather-pending rest m h)

pub or_gather-ready :
    {A : Type 0} (xs : List A)
    → or_gather (first_error (map (λ x. ready (inr x)) xs)) (map (λ x. ready (inr x)) xs)
      ≡ ready (inr xs)
or_gather-ready xs =
    ap (λ o. or_gather o (map (λ x. ready (inr x)) xs)) (first_error-ready xs) ∙ gather-ready xs

abbrev pub polling : Polling ℕ
polling = record {
  poll_join = λ replies. or_gather (first_error replies) replies;
  all_ready = or_gather-ready;
  one_refused = λ replies e m.
      let (first, found) = first_error-refused replies e m in
      (first, ap (λ o. or_gather o replies) found);
  one_pending = λ replies m h.
      ap (λ o. or_gather o replies) (first_error-pending replies h) ∙ gather-pending replies m h;
}

abbrev pub sleeper : Program
sleeper = record {
  command = record { cmd = codes "sleep"; args = codes "5" ∷ [] };
  env = [];
  http = none;
  retry = record { window = 10; count = 1; delay = 2 };
  grace = 3;
}

-- A program that cannot be spawned.
abbrev missing : Program
missing = record sleeper { command = record { cmd = []; args = [] } }

abbrev pub build_uri : Scheme → Str → Str → Option Str
build_uri scheme authority path = some (authority ++ path)

abbrev pub spawn : Command → Spawned
spawn command = elim command.cmd [
  | [] ↦ not_spawned (codes "No such file or directory")
  | _ ↦ spawned 77
]

abbrev pub signal_name : ℕ → Option Str
signal_name n = none

abbrev pub stop_rx : Str → Receiver
stop_rx name = 1

-- The world after some happenings, and that it can come to be.
unfoldable pub after : List Happening → World → World
unfolding happen do_nth post_all handle_join handle_terminate_all handle_wait System.step
    has_receiver handle_terminate daemon_future new_repeated poll_repeated mark Retry.new begin_run
    build_command new_abort poll_abort after_watch conclude finish_run one_round finish_daemon
    broadcast_stopped
after [] w = w
after (h ∷ hs) w = after hs (happen build_uri spawn signal_name h w)

abbrev pub Reached : List (Str × Program) → World → Type 0
Reached = Reach build_uri spawn signal_name stop_rx

Reach-after :
    (programs : List (Str × Program)) (hs : List Happening) (w : World)
    → Reached programs w
    → Reached programs (after hs w)
unfolding after
Reach-after programs [] w r = r
Reach-after programs (h ∷ hs) w r = Reach-after programs hs _ (goes_on h r)

abbrev pub one_program : List (Str × Program)
one_program = (codes "b", sleeper) ∷ []

abbrev ending : List Happening
ending =
    join
    ∷ at 0 deliver
    ∷ at 0 (own handle_daemon)
    ∷ at 0 (own (poll_daemon 20 false))
    ∷ at 0 (own (handle_run 2))
    ∷ terminate_all
    ∷ at 0 deliver
    ∷ at 0 (own (poll_watch false pending))
    ∷ at 0 (own child_gone)
    ∷ at 0 (own (poll_daemon 30 false))
    ∷ []

unfoldable pub ended : World
unfolding after begin begin_member System.start start started new
ended = after ending (begin build_uri spawn signal_name stop_rx one_program)

pub ended-Reach : Reached one_program ended
unfolding ended
ended-Reach = Reach-after one_program ending _ begins

abbrev pub two_programs : List (Str × Program)
two_programs = (codes "a", missing) ∷ (codes "b", sleeper) ∷ []

-- The first program is given up before its `Wait` is sent, while the second one runs.
abbrev failing : List Happening
failing =
    at 1 (own handle_daemon)
    ∷ at 1 (own (poll_daemon 20 false))
    ∷ at 1 (own (handle_run 2))
    ∷ at 0 (own handle_daemon)
    ∷ at 0 (own (poll_daemon 20 false))
    ∷ at 0 (own (handle_run 2))
    ∷ at 0 (own look_at_end)
    ∷ at 0 (own (poll_daemon 21 false))
    ∷ []

unfoldable pub broken : World
unfolding after begin begin_member System.start start started new
broken = after failing (begin build_uri spawn signal_name stop_rx two_programs)

pub broken-Reach : Reached two_programs broken
unfolding broken
broken-Reach = Reach-after two_programs failing _ begins

abbrev pub two_sleepers : List (Str × Program)
two_sleepers = (codes "a", sleeper) ∷ (codes "b", sleeper) ∷ []

-- One program runs, the other one was not begun; a `Terminate` is in each mailbox, in the second one
-- after the `Wait`.
abbrev stopping : List Happening
stopping =
    join
    ∷ at 0 deliver
    ∷ at 0 (own handle_daemon)
    ∷ at 0 (own (poll_daemon 20 false))
    ∷ at 0 (own (handle_run 2))
    ∷ terminate_all
    ∷ []

unfoldable pub halted : World
unfolding after begin begin_member System.start start started new
halted = after stopping (begin build_uri spawn signal_name stop_rx two_sleepers)

pub halted-Reach : Reached two_sleepers halted
unfolding halted
halted-Reach = Reach-after two_sleepers stopping _ begins

-- `Join` was handled, and each caretaker has handled its `Wait`.
unfoldable pub awaited : World
unfolding after begin begin_member System.start start started new
awaited =
    after (join ∷ at 0 deliver ∷ at 1 deliver ∷ [])
      (begin build_uri spawn signal_name stop_rx two_sleepers)

pub awaited-Reach : Reached two_sleepers awaited
unfolding awaited
awaited-Reach = Reach-after two_sleepers (join ∷ at 0 deliver ∷ at 1 deliver ∷ []) _ begins
